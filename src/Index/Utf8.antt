-- ===== src/Index/Utf8.antt =====
-- UTF-8 as Rust's standard library reads it. The index keeps a `String` as its bytes; those of a
-- `String` are valid UTF-8.
use termlm.Base.{
  ℕ, Bool, true, false, ◌&&◌, List, [], ◌∷◌, ◌++◌, Option, none, some, ◌≡◌, ◌∙◌, ap, arith, leb,
  ◌==◌, if◌then◌else◌, append_assoc, append-nil,
}
use termlm.Index.Bytes.{Bytes}

-- the range of a byte that continues a character
abbrev pub Range : Type 0
Range = ℕ × ℕ

abbrev tail_range : Range
tail_range = (0x80, 0xbf)

abbrev in_range : Range → ℕ → Bool
in_range r b = leb r.0 b && leb b r.1

-- what may follow a first byte: the table of the Unicode standard
unfoldable pub ranges_after : ℕ → Option (List Range)
ranges_after b =
    if leb b 0x7f
    then some []
    else if leb 0xc2 b && leb b 0xdf
    then some (tail_range ∷ [])
    else if b == 0xe0
    then some ((0xa0, 0xbf) ∷ tail_range ∷ [])
    else if b == 0xed
    then some ((0x80, 0x9f) ∷ tail_range ∷ [])
    else if leb 0xe1 b && leb b 0xef
    then some (tail_range ∷ tail_range ∷ [])
    else if b == 0xf0
    then some ((0x90, 0xbf) ∷ tail_range ∷ tail_range ∷ [])
    else if leb 0xf1 b && leb b 0xf3
    then some (tail_range ∷ tail_range ∷ tail_range ∷ [])
    else if b == 0xf4
    then some ((0x80, 0x8f) ∷ tail_range ∷ tail_range ∷ [])
    else none

-- whether bytes go on a character that awaits some ranges
unfoldable pub completes : List Range → Bytes → Bool
unfolding ranges_after
completes [] [] = true
completes (r ∷ rs) [] = false
completes [] (b ∷ bs) = elim (ranges_after b) [ none ↦ false | some rs ↦ completes rs bs ]
completes (r ∷ rs) (b ∷ bs) = in_range r b && completes rs bs

unfoldable pub is_utf8 : Bytes → Bool
unfolding completes
is_utf8 bytes = completes [] bytes

-- `std::str::from_utf8`
unfoldable pub from_utf8 : Bytes → Option Bytes
unfolding is_utf8
from_utf8 bytes = if is_utf8 bytes then some bytes else none

-- U+FFFD
abbrev replacement : Bytes
replacement = 0xef ∷ 0xbf ∷ 0xbd ∷ []

-- `String::from_utf8_lossy`: a character that breaks off, or a byte that starts none, is replaced.
-- `held` is the character so far.
lossy_loop : List Range → Bytes → Bytes → Bytes
unfolding ranges_after
lossy_loop [] held [] = held
lossy_loop (r ∷ rs) held [] = replacement
lossy_loop [] held (b ∷ bs) = elim (ranges_after b) [
  | none ↦ held ++ (replacement ++ lossy_loop [] [] bs)
  | some rs ↦ held ++ lossy_loop rs (b ∷ []) bs
]
lossy_loop (r ∷ rs) held (b ∷ bs) = elim (in_range r b) [
  | true ↦ lossy_loop rs (held ++ b ∷ []) bs
  | false ↦ elim (ranges_after b) [
    | none ↦ replacement ++ (replacement ++ lossy_loop [] [] bs)
    | some next ↦ replacement ++ lossy_loop next (b ∷ []) bs
  ]
]

unfoldable pub from_utf8_lossy : Bytes → Bytes
unfolding lossy_loop
from_utf8_lossy bytes = lossy_loop [] [] bytes

lossy_loop-completes :
    (rs : List Range) (held bytes : Bytes)
    → completes rs bytes ≡ true
    → lossy_loop rs held bytes ≡ held ++ bytes
unfolding lossy_loop completes
lossy_loop-completes [] held [] h = rw append-nil
lossy_loop-completes (r ∷ rs) held [] h = absurd (ground (arith, h))
lossy_loop-completes [] held (b ∷ bs) h =
    by_first (λ rs. lossy_loop-completes rs (b ∷ []) bs) (ranges_after b) h
  where
    by_first :
        ((rs : List Range) → completes rs bs ≡ true → lossy_loop rs (b ∷ []) bs ≡ b ∷ bs)
        → (o : Option (List Range)) → (elim o [ none ↦ false | some rs ↦ completes rs bs ]) ≡ true
        → (elim o as (λ _. Bytes) [
          | none ↦ held ++ (replacement ++ lossy_loop [] [] bs)
          | some rs ↦ held ++ lossy_loop rs (b ∷ []) bs
        ])
          ≡ held ++ b ∷ bs
    by_first ih none e = absurd (ground (arith, e))
    by_first ih (some rs) e = ap (λ l. held ++ l) (ih rs e)
lossy_loop-completes (r ∷ rs) held (b ∷ bs) h =
    by_range _ (in_range r b) (λ e. lossy_loop-completes rs (held ++ b ∷ []) bs e) h
  where
    by_range :
        (broken : Bytes) (t : Bool)
        → (completes rs bs ≡ true → lossy_loop rs (held ++ b ∷ []) bs ≡ (held ++ b ∷ []) ++ bs)
        → (t && completes rs bs) ≡ true
        → (elim t as (λ _. Bytes) [ true ↦ lossy_loop rs (held ++ b ∷ []) bs | false ↦ broken ])
          ≡ held ++ b ∷ bs
    by_range broken true ih e = ih e ∙ append_assoc held (b ∷ []) bs
    by_range broken false ih e = absurd (ground (arith, e))

-- Valid bytes are kept.
pub from_utf8_lossy-is_utf8 : (bytes : Bytes) → is_utf8 bytes ≡ true → from_utf8_lossy bytes ≡ bytes
unfolding from_utf8_lossy is_utf8
from_utf8_lossy-is_utf8 bytes h = lossy_loop-completes [] [] bytes h
