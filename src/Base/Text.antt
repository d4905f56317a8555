-- ===== src/Base/Text.antt =====
-- Text as the list of its characters' code points, with the operations of `str` that the source
-- uses.
mod Chars
mod Trim
mod Pieces
unfoldable pub use Chars.*
unfoldable pub use Trim.*
unfoldable pub use Pieces.*
use Prim.Native.Char.{code}
use Prim.Native.Nat.{ℕ, zero, suc, ◌+◌, ◌/◌, ◌%◌}
use Prim.Native.String.{String}
use mathlib.Core.Path.{◌≡◌, refl, ap, ◌∙◌}
use mathlib.Core.Logic.{◌↔◌, ◌⊎◌, inl, inr}
use mathlib.Core.Bool.{Bool, true, false, not, ◌&&◌, ◌||◌}
use mathlib.Core.Option.{Option, none, some}
use mathlib.Core.List.{List, [], ◌∷◌, ◌++◌, map}
use native.Mathlib.Omega.{arith}
use termlm.Base.Tests.{leb, ◌==◌, if◌then◌else◌, Bool-cases}
use termlm.Base.Lists.{all, any}

unfoldable pub to_ascii_lowercase : Text → Text
to_ascii_lowercase [] = []
to_ascii_lowercase (c ∷ cs) =
    (if leb b'A' c && leb c b'Z' then c + 32 else c) ∷ to_ascii_lowercase cs

unfoldable pub eq_text : Text → Text → Bool
eq_text [] [] = true
eq_text (x ∷ xs) (y ∷ ys) = x == y && eq_text xs ys
eq_text _ _ = false

pub eq_text_iff : (a b : Text) → (eq_text a b ≡ true) ↔ (a ≡ b)
unfolding eq_text
eq_text_iff (x ∷ a) (y ∷ b) = ground (arith, eq_text_iff a b)
eq_text_iff _ _ = ground arith

unfoldable pub starts_with : Text → Text → Bool
starts_with t [] = true
starts_with [] (p ∷ ps) = false
starts_with (c ∷ cs) (p ∷ ps) = c == p && starts_with cs ps

unfoldable pub contains : Text → Text → Bool
unfolding starts_with
contains [] p = starts_with [] p
contains (c ∷ cs) p = starts_with (c ∷ cs) p || contains cs p

abbrev pub contains_char : Text → ℕ → Bool
contains_char t x = any (λ c. c == x) t

abbrev pub is_empty {ℓ} : {A : Type ℓ} → List A → Bool
is_empty [] = true
is_empty (_ ∷ _) = false

-- `char::len_utf8` and `str::len`
unfoldable pub len_utf8 : ℕ → ℕ
len_utf8 c = if leb c 0x7f then 1 else if leb c 0x7ff then 2 else if leb c 0xffff then 3 else 4

unfoldable pub byte_len : Text → ℕ
unfolding len_utf8
byte_len [] = 0
byte_len (c ∷ cs) = len_utf8 c + byte_len cs

-- `Display` of an unsigned integer: at most `fuel` digits, 20 of which hold every `u64`.
unfoldable pub decimal : ℕ → ℕ → Text
decimal zero n = []
decimal (suc fuel) n =
    let rest = decimal fuel (n / 10) in
    if leb n 9 then (b'0' + n) ∷ [] else rest ++ (b'0' + n % 10) ∷ []

abbrev pub show_u64 : ℕ → Text
show_u64 n = decimal 20 n

-- `strip_prefix`
unfoldable pub strip_prefix : Text → Text → Option Text
strip_prefix t [] = some t
strip_prefix [] (p ∷ ps) = none
strip_prefix (c ∷ cs) (p ∷ ps) = if c == p then strip_prefix cs ps else none

unfoldable pub ends_with : Text → Text → Bool
unfolding eq_text
ends_with [] s = eq_text [] s
ends_with (c ∷ cs) s = eq_text (c ∷ cs) s || ends_with cs s

abbrev pub cons_option : ℕ → Option Text → Option Text
cons_option c none = none
cons_option c (some t) = some (c ∷ t)

unfoldable pub strip_suffix : Text → Text → Option Text
unfolding eq_text
strip_suffix [] s = if eq_text [] s then some [] else none
strip_suffix (c ∷ cs) s =
    let rest = strip_suffix cs s in if eq_text (c ∷ cs) s then some [] else cons_option c rest

-- `trim_matches` for a set of characters
unfoldable pub trim_start_matches : (ℕ → Bool) → Text → Text
trim_start_matches p [] = []
trim_start_matches p (c ∷ cs) = if p c then trim_start_matches p cs else c ∷ cs

abbrev pub cons_unless : (ℕ → Bool) → ℕ → Text → Text
cons_unless p c [] = if p c then [] else c ∷ []
cons_unless p c (d ∷ ds) = c ∷ d ∷ ds

unfoldable pub trim_end_matches : (ℕ → Bool) → Text → Text
trim_end_matches p [] = []
trim_end_matches p (c ∷ cs) = cons_unless p c (trim_end_matches p cs)

unfoldable pub trim_matches : (ℕ → Bool) → Text → Text
unfolding trim_start_matches trim_end_matches
trim_matches p t = trim_end_matches p (trim_start_matches p t)

-- `char::is_ascii_punctuation`
unfoldable pub is_ascii_punctuation : ℕ → Bool
is_ascii_punctuation c =
    (leb b'!' c && leb c b'/')
    || (leb b':' c && leb c b'@')
    || (leb b'[' c && leb c b'`')
    || (leb b'{' c && leb c b'~')

abbrev pub cons_line : ℕ → List Text → List Text
cons_line c [] = (c ∷ []) ∷ []
cons_line c (l ∷ ls) = (c ∷ l) ∷ ls

-- a line without the carriage return at its end
abbrev pub strip_return : Text → Text
strip_return [] = []
strip_return (c ∷ []) = if c == b'\r' then [] else c ∷ []
strip_return (c ∷ d ∷ ds) = c ∷ strip_return (d ∷ ds)

-- the pieces between line feeds, without an empty one at the end
unfoldable pub split_lines : Text → List Text
split_lines [] = []
split_lines (c ∷ cs) =
    let rest = split_lines cs in if c == b'\n' then [] ∷ rest else cons_line c rest

unfoldable pub lines : Text → List Text
unfolding split_lines
lines t = map strip_return (split_lines t)
