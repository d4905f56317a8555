-- ===== src/Index/Levenshtein.antt =====
-- `levenshtein` of crates/termlm-indexer/src/lookup.rs, which keeps one row of the table of
-- distances, against the recursive edit distance.
use termlm.Base.{
  ℕ, suc, ◌+◌, min, List, [], ◌∷◌, Option, none, some, ◌≡◌, ◌∙◌, refl, sym, ap, arith, ◌==◌,
  if◌then◌else◌, length, get_elem?,
}
use mathlib.Core.List.{reverse_aux, reverse}
use termlm.Base.Text.{Text}

-- the inner loop: `prev_diag`, `costs[j]`, the rest of `b` and the rest of the row
unfoldable pub row_loop : ℕ → ℕ → ℕ → Text → List ℕ → List ℕ
row_loop ca prev_diag left [] costs = []
row_loop ca prev_diag left (cb ∷ bs) [] = []
row_loop ca prev_diag left (cb ∷ bs) (temp ∷ costs) =
    let replace_cost = if ca == cb then prev_diag else prev_diag + 1 in
    let new = min (min replace_cost (temp + 1)) (left + 1) in new ∷ row_loop ca temp new bs costs

abbrev next_row : ℕ → ℕ → Text → List ℕ → List ℕ
next_row i ca b [] = []
next_row i ca b (_ ∷ costs) = (i + 1) ∷ row_loop ca i (i + 1) b costs

unfoldable pub rows_loop : ℕ → Text → Text → List ℕ → List ℕ
rows_loop i [] b costs = costs
rows_loop i (ca ∷ a) b costs = rows_loop (i + 1) a b (next_row i ca b costs)

-- `k..k + length b`
unfoldable pub count_from : ℕ → Text → List ℕ
count_from k [] = []
count_from k (_ ∷ b) = k ∷ count_from (k + 1) b

abbrev or_zero : Option ℕ → ℕ
or_zero none = 0
or_zero (some n) = n

unfoldable pub levenshtein : Text → Text → ℕ
levenshtein a b = or_zero (get_elem? (rows_loop 0 a b (0 ∷ count_from 1 b)) (length b))

-- The recursive edit distance: insertions, deletions and replacements of a first character cost 1.
unfoldable pub edit_distance : Text → Text → ℕ
edit_distance [] ys = length ys
edit_distance (x ∷ xs) [] = suc (length xs)
edit_distance (x ∷ xs) (y ∷ ys) =
    let both = edit_distance xs ys in
    min (min (if x == y then both else both + 1) (edit_distance xs (y ∷ ys) + 1))
      (edit_distance (x ∷ xs) ys + 1)

-- a row without its first entry
row_of : Text → Text → Text → List ℕ
row_of xs held [] = []
row_of xs held (c ∷ cs) = edit_distance xs (c ∷ held) ∷ row_of xs (c ∷ held) cs

row_loop-row_of :
    (ca : ℕ) (xs held bs : Text)
    → row_loop ca (edit_distance xs held) (edit_distance (ca ∷ xs) held) bs (row_of xs held bs)
      ≡ row_of (ca ∷ xs) held bs
unfolding row_loop row_of
row_loop-row_of ca xs held [] = refl
row_loop-row_of ca xs held (cb ∷ bs) =
    rw (sym (cell ca cb xs held))
      (ap (λ l. edit_distance (ca ∷ xs) (cb ∷ held) ∷ l) (row_loop-row_of ca xs (cb ∷ held) bs))
  where
    cell :
        (ca cb : ℕ) (xs held : Text)
        → edit_distance (ca ∷ xs) (cb ∷ held)
          ≡ min
              (min
                (if ca == cb then edit_distance xs held else edit_distance xs held + 1)
                (edit_distance xs (cb ∷ held) + 1))
              (edit_distance (ca ∷ xs) held + 1)
    cell ca cb xs held = unfold edit_distance in refl

edit_distance-[] : (xs : Text) → edit_distance xs [] ≡ length xs
unfolding edit_distance
edit_distance-[] [] = refl
edit_distance-[] (x ∷ xs) = refl

rows_loop-row_of :
    (a xs b : Text)
    → rows_loop (length xs) a b (length xs ∷ row_of xs [] b)
      ≡ length (reverse_aux a xs) ∷ row_of (reverse_aux a xs) [] b
unfolding rows_loop
rows_loop-row_of [] xs b = refl
rows_loop-row_of (ca ∷ a) xs b =
    let next : length xs + 1 ≡ suc (length xs) = omega arith in
    let row : row_loop ca (length xs) (suc (length xs)) b (row_of xs [] b) ≡ row_of (ca ∷ xs) [] b =
      ap (λ n. row_loop ca n (suc (length xs)) b (row_of xs [] b)) (sym (edit_distance-[] xs))
      ∙ unfold edit_distance in row_loop-row_of ca xs [] b in
    rw next (rw row (rows_loop-row_of a (ca ∷ xs) b))

count_from-row_of : (held b : Text) → count_from (length held + 1) b ≡ row_of [] held b
unfolding count_from row_of edit_distance
count_from-row_of held [] = refl
count_from-row_of held (c ∷ b) =
    let next : length held + 1 ≡ suc (length held) = omega arith in
    rw next (ap (λ l. suc (length held) ∷ l) (count_from-row_of (c ∷ held) b))

last_of_row :
    (xs held b : Text)
    → get_elem? (edit_distance xs held ∷ row_of xs held b) (length b)
      ≡ some (edit_distance xs (reverse_aux b held))
unfolding row_of
last_of_row xs held [] = refl
last_of_row xs held (c ∷ b) = last_of_row xs (c ∷ held) b

-- `levenshtein` of two texts is the recursive edit distance of the reversed texts.
pub levenshtein-edit_distance :
    (a b : Text) → levenshtein a b ≡ edit_distance (reverse a) (reverse b)
unfolding levenshtein
levenshtein-edit_distance a b =
    let start : count_from 1 b ≡ row_of [] [] b = count_from-row_of [] b in
    let rows : rows_loop 0 a b (0 ∷ count_from 1 b) ≡ length (reverse a) ∷ row_of (reverse a) [] b =
      rw start (rows_loop-row_of a [] b) in
    ap (λ costs. or_zero (get_elem? costs (length b))) rows
    ∙ ap (λ n. or_zero (get_elem? (n ∷ row_of (reverse a) [] b) (length b)))
        (sym (edit_distance-[] (reverse a)))
    ∙ ap or_zero (last_of_row (reverse a) [] b)
