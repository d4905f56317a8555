-- ===== src/WebCache/Keys.antt =====
-- The keys and the sizes of the cache's entries, and what removals do to them.
use termlm.Base.{
  ℕ, ◌+◌, Bool, true, false, not, ◌&&◌, ◌||◌, List, [], ◌∷◌, ◌++◌, none, ◌≡◌, ◌∙◌, inl, inr, refl,
  sym, ap, arith, Bool-cases,
}
use termlm.Base.Text.{Text, eq_text, eq_text_iff}
use termlm.WebCache.{Entries, find, delete, without, size_of}

pub eq_text_refl : (a : Text) → eq_text a a ≡ true
eq_text_refl a = (eq_text_iff a a).1 refl

-- two equal keys are told apart from the same others
pub eq_text-same : (i k j : Text) → eq_text i k ≡ true → eq_text i j ≡ eq_text k j
eq_text-same i k j e = ap (λ x. eq_text x j) ((eq_text_iff i k).0 e)

pub eq_text-other : (i k j : Text) → eq_text i k ≡ false → eq_text i j ≡ true → eq_text k j ≡ false
eq_text-other i k j e f = elim (Bool-cases (eq_text k j)) [
  | inr g ↦ g
  | inl g ↦
      let path : k ≡ i = (eq_text_iff k j).0 g ∙ sym ((eq_text_iff i j).0 f) in
      absurd (ground (arith, e, ap (λ x. eq_text i x) path, eq_text_refl i))
]

abbrev pub mem : Text → List Text → Bool
mem j [] = false
mem j (k ∷ ks) = eq_text k j || mem j ks

abbrev pub has : Text → Entries → Bool
has j [] = false
has j ((k, entry) ∷ m) = eq_text k j || has j m

-- each key once
abbrev pub Distinct : Entries → Type 0
Distinct [] = Unit
Distinct ((k, entry) ∷ m) = (has k m ≡ false) × Distinct m

abbrev pub sum_sizes : Entries → ℕ
sum_sizes [] = 0
sum_sizes ((k, entry) ∷ m) = entry.size_bytes + sum_sizes m

pub mem-without :
    (k j : Text) (o : List Text) → mem j (without k o) ≡ (mem j o && not (eq_text k j))
unfolding without
mem-without k j [] = refl
mem-without k j (i ∷ o) = elim (Bool-cases (eq_text i k)) [
  | inl e ↦ rw e (ground (arith, mem-without k j o, eq_text-same i k j e))
  | inr e ↦ rw e (elim (Bool-cases (eq_text i j)) [
    | inl f ↦ ground (arith, mem-without k j o, f, eq_text-other i k j e f)
    | inr f ↦ ground (arith, mem-without k j o, f)
  ])
]

pub mem-append : (j k : Text) (o : List Text) → mem j (o ++ k ∷ []) ≡ (mem j o || eq_text k j)
mem-append j k [] = ground arith
mem-append j k (i ∷ o) = ground (arith, mem-append j k o)

pub has-delete : (k j : Text) (m : Entries) → has j (delete k m) ≡ (has j m && not (eq_text k j))
unfolding delete
has-delete k j [] = refl
has-delete k j ((i, entry) ∷ m) = elim (Bool-cases (eq_text i k)) [
  | inl e ↦ rw e (ground (arith, has-delete k j m, eq_text-same i k j e))
  | inr e ↦ rw e (elim (Bool-cases (eq_text i j)) [
    | inl f ↦ ground (arith, has-delete k j m, f, eq_text-other i k j e f)
    | inr f ↦ ground (arith, has-delete k j m, f)
  ])
]

pub Distinct-delete : (k : Text) (m : Entries) → Distinct m → Distinct (delete k m)
unfolding delete
Distinct-delete k [] h = tt
Distinct-delete k ((i, entry) ∷ m) (fresh, h) = elim (Bool-cases (eq_text i k)) [
  | inl e ↦ rw e (Distinct-delete k m h)
  | inr e ↦ rw e (ground (arith, fresh, has-delete k i m), Distinct-delete k m h)
]

pub delete-absent :
    (k : Text) (m : Entries)
    → has k m ≡ false
    → (sum_sizes (delete k m) ≡ sum_sizes m) × (find k m ≡ none)
unfolding delete find
delete-absent k [] h = (refl, refl)
delete-absent k ((i, entry) ∷ m) h =
    let (sum, found) = delete-absent k m (ground arith) in
    let other : eq_text i k ≡ false = ground arith in
    rw other (ap (λ n. entry.size_bytes + n) sum, found)

pub sum_sizes-delete :
    (k : Text) (m : Entries)
    → Distinct m
    → sum_sizes (delete k m) + size_of (find k m) ≡ sum_sizes m
unfolding delete find
sum_sizes-delete k [] h = refl
sum_sizes-delete k ((i, entry) ∷ m) (fresh, h) = elim (Bool-cases (eq_text i k)) [
  | inl e ↦
      let absent : has k m ≡ false = ap (λ x. has x m) (sym ((eq_text_iff i k).0 e)) ∙ fresh in
      rw e (omega (arith, (delete-absent k m absent).0))
  | inr e ↦ rw e (omega (arith, sum_sizes-delete k m h))
]
