-- ===== src/Probe/Split.antt =====
-- What `split_simple_readonly_pipeline` returns: the text cut at some of its `|`, each part trimmed.
use termlm.Base.{
  ℕ, List, [], ◌∷◌, ◌++◌, map, ◌≡◌, ◌≢◌, refl, sym, ap, ◌∙◌, ◌⊎◌, inl, inr, arith, append_assoc,
  append-nil,
}
use termlm.Base.Text.{Text, trim}
use termlm.Probe.{
  Result, ok, err, ◌>>=◌, Splitter, split_start, split_step, split_loop, end_segment,
  split_simple_readonly_pipeline,
}

-- `parts` joined by `|`, in front of `rest`
abbrev pub join_pipes : List Text → Text
join_pipes [] = []
join_pipes (p ∷ []) = p
join_pipes (p ∷ q ∷ ps) = p ++ b'|' ∷ join_pipes (q ∷ ps)

-- The text from the current segment on is `parts` joined by `|`, and `segments` grows by the
-- trimmed parts.
record Splits (s : Splitter) (t : Text) (segments : List Text) : Type 0 where
  parts : List Text
  not_empty : parts ≢ []
  joined : s.current ++ t ≡ join_pipes parts
  grown : segments ≡ s.segments ++ map trim parts

end_segment-eq_ok :
    (s : Splitter) {segments : List Text}
    → end_segment s ≡ ok segments
    → segments ≡ s.segments ++ trim s.current ∷ []
unfolding end_segment
end_segment-eq_ok s h = ground arith

-- A step pushes the character, or cuts at a `|`.
split_step-eq_ok :
    (s : Splitter) (c : ℕ) {s' : Splitter}
    → split_step s c ≡ ok s'
    → ((s'.current ≡ s.current ++ c ∷ []) × (s'.segments ≡ s.segments))
      ⊎ ((c ≡ b'|') × (s'.current ≡ []) × (end_segment s ≡ ok s'.segments))
unfolding split_step
split_step-eq_ok s c h = ground arith

pub >>=-eq_ok :
    {X Y : Type 0} (first : Result X) (next : X → Result Y) {value : Y}
    → (first >>= next) ≡ ok value
    → (x : X) × (first ≡ ok x) × (next x ≡ ok value)
>>=-eq_ok (ok x) next h = (x, refl, h)
>>=-eq_ok (err message) next h = cc

join_pipes-cons :
    (p : Text) (ps : List Text) → ps ≢ [] → join_pipes (p ∷ ps) ≡ p ++ b'|' ∷ join_pipes ps
join_pipes-cons p [] h = absurd (h refl)
join_pipes-cons p (q ∷ ps) h = refl

Splits-step :
    (s s' : Splitter) (c : ℕ) (rest : Text) {segments : List Text}
    → ((s'.current ≡ s.current ++ c ∷ []) × (s'.segments ≡ s.segments))
      ⊎ ((c ≡ b'|') × (s'.current ≡ []) × (end_segment s ≡ ok s'.segments))
    → Splits s' rest segments
    → Splits s (c ∷ rest) segments
Splits-step s s' c rest (inl (pushed, same)) w = record {
  parts = w.parts;
  not_empty = w.not_empty;
  joined = sym (append_assoc s.current (c ∷ []) rest) ∙ rw (← pushed) w.joined;
  grown = w.grown ∙ ap (λ l. l ++ map trim w.parts) same;
}
Splits-step s s' c rest (inr (pipe, fresh, ended)) w = record {
  parts = s.current ∷ w.parts;
  not_empty = λ e. cc;
  joined =
      rw (pipe, join_pipes-cons s.current w.parts w.not_empty)
        (ap (λ l. s.current ++ b'|' ∷ l) (rw fresh at w.joined));
  grown =
      w.grown
      ∙ ap (λ l. l ++ map trim w.parts) (end_segment-eq_ok s ended)
      ∙ append_assoc s.segments (trim s.current ∷ []) (map trim w.parts);
}

split_loop-Splits :
    (s : Splitter) (t : Text) {segments : List Text}
    → split_loop s t ≡ ok segments
    → Splits s t segments
unfolding split_loop
split_loop-Splits s [] h = record {
  parts = s.current ∷ [];
  not_empty = λ e. cc;
  joined = append-nil s.current;
  grown = end_segment-eq_ok s h;
}
split_loop-Splits s (c ∷ rest) h =
    let (s', now, later) = >>=-eq_ok (split_step s c) (λ s'. split_loop s' rest) h in
    Splits-step s s' c rest (split_step-eq_ok s c now) (split_loop-Splits s' rest later)

-- The segments are the parts of the command between some of its `|`, trimmed.
pub split-parts :
    (cmd : Text) {segments : List Text}
    → split_simple_readonly_pipeline cmd ≡ ok segments
    → (parts : List Text) × (parts ≢ []) × (cmd ≡ join_pipes parts) × (segments ≡ map trim parts)
unfolding split_simple_readonly_pipeline
split-parts cmd h =
    let w = split_loop-Splits split_start cmd h in (w.parts, w.not_empty, w.joined, w.grown)
