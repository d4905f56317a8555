-- ===== src/Shell/Loop.antt =====
-- How the scanner's loop unfolds, by what a step does with the lookahead.
use termlm.Base.{ℕ, Bool, true, false, [], ◌∷◌, Option, none, some, ◌≡◌, refl, Bool-cases, inl, inr}
use termlm.Base.Text.{Text}
use termlm.Shell.{Scanner, step, scan_loop}

pub scan_loop-takes :
    (s : Scanner) (c d : ℕ) (rest : Text)
    → (step s c (some d)).1 ≡ true
    → scan_loop s (c ∷ d ∷ rest) ≡ scan_loop (step s c (some d)).0 rest
unfolding scan_loop
scan_loop-takes s c d rest h = rw (h, scan_loop)

pub scan_loop-keeps :
    (s : Scanner) (c d : ℕ) (rest : Text)
    → (step s c (some d)).1 ≡ false
    → scan_loop s (c ∷ d ∷ rest) ≡ scan_loop (step s c (some d)).0 (d ∷ rest)
unfolding scan_loop
scan_loop-keeps s c d rest h = rw (h, scan_loop)

-- A character whose step does not depend on the one after it.
pub scan_loop-cons :
    (s s' : Scanner) (c : ℕ) (rest : Text)
    → ((next : Option ℕ) → step s c next ≡ (s', false))
    → scan_loop s (c ∷ rest) ≡ scan_loop s' rest
scan_loop-cons s s' c [] h = unfold scan_loop in ap_0 (h none)
  where
    ap_0 : {x y : Scanner × Bool} → x ≡ y → x.0 ≡ y.0
    ap_0 e = cc
scan_loop-cons s s' c (d ∷ rest) h =
    let e = h (some d) in rw (scan_loop-keeps s c d rest (rw e refl)) (rw e refl)

-- What every step keeps, the loop keeps.
pub scan_loop_inv {ℓ} :
    (P : Scanner → Type ℓ)
    → ((s : Scanner) (c : ℕ) (next : Option ℕ) → P s → P (step s c next).0)
    → (s : Scanner) (t : Text) → P s
    → P (scan_loop s t)
scan_loop_inv P keep s [] h = unfold scan_loop in h
scan_loop_inv P keep s (c ∷ []) h = unfold scan_loop in keep s c none h
scan_loop_inv P keep s (c ∷ d ∷ rest) h =
    let s' = (step s c (some d)).0 in
    let taken = scan_loop_inv P keep s' rest (keep s c (some d) h) in
    let kept = scan_loop_inv P keep s' (d ∷ rest) (keep s c (some d) h) in
    elim (Bool-cases (step s c (some d)).1) [
      | inl e ↦ rw (scan_loop-takes s c d rest e) taken
      | inr e ↦ rw (scan_loop-keeps s c d rest e) kept
    ]
