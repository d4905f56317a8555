-- ===== src/Base/Text/Pieces.antt =====
-- Texts cut into pieces and put together.
use Prim.Native.Nat.{ℕ}
use mathlib.Core.Bool.{Bool}
use mathlib.Core.List.{List, [], ◌∷◌, ◌++◌}
use termlm.Base.Tests.{if◌then◌else◌}
use termlm.Base.Text.Chars.{Text, is_whitespace}

abbrev pub cons_piece : ℕ → List Text → List Text
cons_piece c [] = (c ∷ []) ∷ []
cons_piece c (p ∷ ps) = (c ∷ p) ∷ ps

-- `split` at the characters of a set
unfoldable pub split_by : (ℕ → Bool) → Text → List Text
split_by p [] = [] ∷ []
split_by p (c ∷ cs) = let rest = split_by p cs in if p c then [] ∷ rest else cons_piece c rest

abbrev pub cons_full : Text → List Text → List Text
cons_full [] ts = ts
cons_full (c ∷ cs) ts = (c ∷ cs) ∷ ts

-- `filter(|s| !s.is_empty())`
unfoldable pub non_empty : List Text → List Text
non_empty [] = []
non_empty (t ∷ ts) = cons_full t (non_empty ts)

unfoldable pub split_whitespace : Text → List Text
unfolding split_by non_empty
split_whitespace t = non_empty (split_by is_whitespace t)

unfoldable pub join : Text → List Text → Text
join separator [] = []
join separator (t ∷ []) = t
join separator (t ∷ u ∷ us) = t ++ (separator ++ join separator (u ∷ us))

-- the first piece, and the second where there is one
abbrev pub first_piece : List Text → Text
first_piece [] = []
first_piece (t ∷ ts) = t

abbrev pub second_piece : List Text → Text
second_piece [] = []
second_piece (t ∷ ts) = first_piece ts
