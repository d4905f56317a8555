-- ===== src/Index/Names.antt =====
-- The `BTreeMap`s of crates/termlm-indexer, and of crates/termlm-core/src/cache, that are keyed by a
-- `String`.
use termlm.Base.{
  false, true, List, [], ◌∷◌, Option, none, some, ◌≡◌, arith, refl, if◌then◌else◌, Bool-cases, inl,
  inr, ap, sym, ◌∙◌,
}
use termlm.Base.Text.{Text, eq_text, eq_text_iff}

pub eq_text_refl : (a : Text) → eq_text a a ≡ true
eq_text_refl a = (eq_text_iff a a).1 refl

module _ {ℓ} {V : Type ℓ} where
  unfoldable pub find : Text → List (Text × V) → Option V
  find key [] = none
  find key ((k, v) ∷ rest) = if eq_text k key then some v else find key rest

  unfoldable pub delete : Text → List (Text × V) → List (Text × V)
  delete key [] = []
  delete key ((k, v) ∷ rest) =
      let others = delete key rest in if eq_text k key then others else (k, v) ∷ others

  unfoldable pub put : Text → V → List (Text × V) → List (Text × V)
  put key v m = (key, v) ∷ delete key m

  find-delete :
      (k j : Text) (m : List (Text × V)) → eq_text k j ≡ false → find j (delete k m) ≡ find j m
  unfolding find delete
  find-delete k j [] other = refl
  find-delete k j ((i, v) ∷ m) other = elim (Bool-cases (eq_text i k)) [
    | inl e ↦
        let same : eq_text i j ≡ false = ap (λ x. eq_text x j) ((eq_text_iff i k).0 e) ∙ other in
        rw (e, same) (find-delete k j m other)
    | inr e ↦ rw e (ground (arith, find-delete k j m other))
  ]

  pub find-put :
      (k j : Text) (v : V) (m : List (Text × V))
      → find j (put k v m) ≡ (if eq_text k j then some v else find j m)
  unfolding find put
  find-put k j v m = ground (arith, find-delete k j m)

  find-delete-same : (k : Text) (m : List (Text × V)) → find k (delete k m) ≡ none
  unfolding find delete
  find-delete-same k [] = refl
  find-delete-same k ((i, v) ∷ m) = elim (Bool-cases (eq_text i k)) [
    | inl e ↦ rw e (find-delete-same k m)
    | inr e ↦ rw (e, e) (find-delete-same k m)
  ]

  pub find-after_delete :
      (k j : Text) (m : List (Text × V))
      → find j (delete k m) ≡ (if eq_text k j then none else find j m)
  find-after_delete k j m = elim (Bool-cases (eq_text k j)) [
    | inl e ↦
        rw e (ap (λ x. find x (delete k m)) (sym ((eq_text_iff k j).0 e)) ∙ find-delete-same k m)
    | inr e ↦ rw e (find-delete k j m e)
  ]
