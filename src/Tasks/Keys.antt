-- ===== src/Tasks/Keys.antt =====
-- Removal of several keys from a table, as the cleanups of crates/termlm-core/src/main.rs do it in
-- their loops.
use termlm.Base.{
  ℕ, Bool, true, false, ◌||◌, List, [], ◌∷◌, Option, none, some, ap, ◌∙◌, ◌≡◌, inl, inr, refl,
  arith, ◌==◌, ==_refl, if◌then◌else◌, Bool-cases, All,
}
use termlm.Base.Maps.{lookup, remove, insert, retain, lookup-remove}
use termlm.Tasks.{remove_all, keys}

abbrev pub mem : ℕ → List ℕ → Bool
mem j [] = false
mem j (k ∷ ks) = (k == j) || mem j ks

pub All-mem : {P : ℕ → Type 0} (ks : List ℕ) → ((j : ℕ) → mem j ks ≡ true → P j) → All P ks
All-mem [] f = tt
All-mem (k ∷ ks) f = (f k (grind (arith, ==_refl)), All-mem ks (λ j found. f j (ground arith)))

module _ {ℓ} {V : Type ℓ} where
  pub lookup-remove_all :
      (ks : List ℕ) (j : ℕ) (m : List (ℕ × V))
      → lookup j (remove_all ks m) ≡ (if mem j ks then none else lookup j m)
  unfolding remove_all
  lookup-remove_all [] j m = refl
  lookup-remove_all (k ∷ ks) j m =
      ground (arith, lookup-remove_all ks j (remove k m), lookup-remove k j m)

  -- the keys of a map differ
  abbrev pub IsDistinct : List (ℕ × V) → Type 0
  IsDistinct [] = Unit
  IsDistinct ((k, _) ∷ m) = (mem k (keys m) ≡ false) × IsDistinct m

  -- what is found is a key
  pub lookup-mem : (j : ℕ) (m : List (ℕ × V)) → mem j (keys m) ≡ false → lookup j m ≡ none
  unfolding lookup
  lookup-mem j [] h = refl
  lookup-mem j ((k, v) ∷ m) h = ground (arith, h, lookup-mem j m (ground (arith, h)))

  abbrev pub kept : (V → Bool) → Option V → Option V
  kept p none = none
  kept p (some v) = if p v then some v else none

  pub lookup-retain :
      (p : V → Bool) (j : ℕ) (m : List (ℕ × V))
      → IsDistinct m
      → lookup j (retain p m) ≡ kept p (lookup j m)
  unfolding lookup retain
  lookup-retain p j [] d = refl
  lookup-retain p j ((k, v) ∷ m) (fresh, d) = elim (Bool-cases (k == j)) [
    | inl e ↦ elim (Bool-cases (p v)) [
      | inl good ↦ rw good (rw e (rw good refl))
      | inr bad ↦
          let absent : lookup j m ≡ none = lookup-mem j m (grind (arith, fresh, e)) in
          rw bad (rw e (rw bad (lookup-retain p j m d ∙ ap (kept p) absent)))
    ]
    | inr e ↦ elim (Bool-cases (p v)) [
      | inl good ↦ rw good (rw e (lookup-retain p j m d))
      | inr bad ↦ rw bad (rw e (lookup-retain p j m d))
    ]
  ]

  mem-remove :
      (j k : ℕ) (m : List (ℕ × V)) → mem j (keys m) ≡ false → mem j (keys (remove k m)) ≡ false
  unfolding remove
  mem-remove j k [] h = h
  mem-remove j k ((i, v) ∷ m) h = ground (arith, h, mem-remove j k m (ground (arith, h)))

  mem-removed : (k : ℕ) (m : List (ℕ × V)) → mem k (keys (remove k m)) ≡ false
  unfolding remove
  mem-removed k [] = refl
  mem-removed k ((i, v) ∷ m) = ground (arith, mem-removed k m)

  remove-IsDistinct : (k : ℕ) (m : List (ℕ × V)) → IsDistinct m → IsDistinct (remove k m)
  unfolding remove
  remove-IsDistinct k [] d = tt
  remove-IsDistinct k ((i, v) ∷ m) (fresh, d) = elim (Bool-cases (i == k)) [
    | inl e ↦ rw e (remove-IsDistinct k m d)
    | inr e ↦ rw e (mem-remove i k m fresh, remove-IsDistinct k m d)
  ]

  pub insert-IsDistinct :
      (k : ℕ) (v : V) (m : List (ℕ × V)) → IsDistinct m → IsDistinct (insert k v m)
  unfolding insert
  insert-IsDistinct k v m d = (mem-removed k m, remove-IsDistinct k m d)
