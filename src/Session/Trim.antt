-- ===== src/Session/Trim.antt =====
-- The conversation that `trim_session_conversation` keeps.
use termlm.Base.{
  ℕ, ◌+◌, ◌-◌, ◌*◌, ◌≤◌, ◌<◌, List, [], ◌∷◌, ◌++◌, ◌≡◌, ◌∙◌, ◌⊎◌, inl, inr, refl, ap, arith, ltb,
  Bool-cases, length, take, min, length-take, length-append,
}
use termlm.Base.Text.{Text}
use termlm.Shell.{usize_max, saturating_add}
use termlm.Session.{
  estimate_tokens, trim_to_tokens, ellipsis, SessionTurn, SessionConversation, count_turns,
  drop_turns, trim_session_conversation,
}

-- The tokens of turns, with no bound on the sum.
abbrev pub turn_tokens : SessionTurn → ℕ
turn_tokens turn = estimate_tokens turn.user + estimate_tokens turn.assistant

abbrev pub sum_tokens : List SessionTurn → ℕ
sum_tokens [] = 0
sum_tokens (turn ∷ rest) = turn_tokens turn + sum_tokens rest

abbrev pub conversation_tokens : SessionConversation → ℕ
conversation_tokens conv = estimate_tokens conv.system_prompt + sum_tokens conv.turns

count_turns-sum :
    (total : ℕ) (turns : List SessionTurn)
    → total + sum_tokens turns ≤ usize_max
    → count_turns total turns ≡ total + sum_tokens turns
unfolding count_turns
count_turns-sum total [] h = omega arith
count_turns-sum total (turn ∷ rest) h =
    let next =
      saturating_add (saturating_add total (estimate_tokens turn.user))
        (estimate_tokens turn.assistant) in
    let exact : next ≡ total + turn_tokens turn = omega arith in
    omega (arith, exact, count_turns-sum next rest (omega (arith, exact)))

-- `kept` is what is left of the turns: a suffix, whose tokens fit unless it is empty, and no turn
-- was dropped that would have fitted.
pub record Keeps (base budget : ℕ) (turns kept : List SessionTurn) : Type 0 where
  pub dropped : List SessionTurn
  pub splits : turns ≡ dropped ++ kept
  pub fits : (kept ≡ []) ⊎ (base + sum_tokens kept ≤ budget)
  pub needed :
      (dropped ≡ [])
      ⊎ ((before : List SessionTurn) × (last : SessionTurn) × (dropped ≡ before ++ last ∷ [])
          × (budget < base + turn_tokens last + sum_tokens kept))

drop_turns-Keeps :
    (base total budget : ℕ) (turns : List SessionTurn)
    → total ≡ base + sum_tokens turns
    → Keeps base budget turns (drop_turns total budget turns)
unfolding drop_turns
drop_turns-Keeps base total budget [] e = record {
  dropped = [];
  splits = refl;
  fits = inl refl;
  needed = inl refl;
}
drop_turns-Keeps base total budget (turn ∷ rest) e =
    let left = total - estimate_tokens turn.user - estimate_tokens turn.assistant in
    let later = drop_turns-Keeps base left budget rest (omega arith) in
    elim (Bool-cases (ltb budget total)) [
      | inl over ↦
          rw over
            (Keeps-cons base budget turn rest (drop_turns left budget rest) later (ground arith))
      | inr fine ↦
          rw fine
            (record { dropped = []; splits = refl; fits = inr (ground arith); needed = inl refl })
    ]
  where
    Keeps-cons :
        (base budget : ℕ) (turn : SessionTurn) (rest kept : List SessionTurn)
        → Keeps base budget rest kept
        → budget < base + turn_tokens turn + sum_tokens rest
        → Keeps base budget (turn ∷ rest) kept
    Keeps-cons base budget turn rest kept k over = record {
      dropped = turn ∷ k.dropped;
      splits = ap (◌∷◌ turn) k.splits;
      fits = k.fits;
      needed = elim k.needed [
        | inl none_dropped ↦ inr ([], turn, ap (◌∷◌ turn) none_dropped, whole none_dropped)
        | inr (before, last, e, h) ↦ inr (turn ∷ before, last, ap (◌∷◌ turn) e, h)
      ];
    }
      where
        whole : k.dropped ≡ [] → budget < base + turn_tokens turn + sum_tokens kept
        whole e = let same : rest ≡ kept = k.splits ∙ ap (λ l. l ++ kept) e in rw same at over

-- The trimmed conversation keeps its system prompt and a suffix of its turns. The suffix is empty
-- or fits the budget together with the system prompt, and it is the longest such one: with the
-- last dropped turn it would not fit. (The token counts are assumed to fit a `usize`.)
pub trim_session_conversation-Keeps :
    (conv : SessionConversation) (token_budget : ℕ)
    → conversation_tokens conv ≤ usize_max
    → ((trim_session_conversation conv token_budget).system_prompt ≡ conv.system_prompt)
      × Keeps
          (estimate_tokens conv.system_prompt)
          token_budget
          conv.turns
          (trim_session_conversation conv token_budget).turns
unfolding trim_session_conversation
trim_session_conversation-Keeps conv token_budget h = (
  refl,
  drop_turns-Keeps (estimate_tokens conv.system_prompt) _ token_budget conv.turns
      (count_turns-sum (estimate_tokens conv.system_prompt) conv.turns h),
)

trim_to_tokens-cases :
    (text : Text) (max_tokens : ℕ)
    → 0 < max_tokens
    → ((trim_to_tokens text max_tokens ≡ text) × (length text ≤ min (max_tokens * 4) usize_max))
      ⊎ ((trim_to_tokens text max_tokens
            ≡ take (min (max_tokens * 4) usize_max - 1) text ++ ellipsis ∷ [])
          × (min (max_tokens * 4) usize_max < length text))
unfolding trim_to_tokens
trim_to_tokens-cases text max_tokens h = ground arith

-- the characters that are kept for so many tokens
abbrev pub char_limit : ℕ → ℕ
char_limit max_tokens = min (max_tokens * 4) usize_max

-- A text cut to `max_tokens`, at least one, is estimated at no more and has at most
-- four characters for each token. A text of at most four
-- characters for each token is left as it is; a longer one is its prefix of one character less
-- than that, with an ellipsis behind. (The number of characters is bounded by that of a `usize`.)
pub trim_to_tokens_fits :
    (text : Text) (max_tokens : ℕ)
    → 0 < max_tokens
    → (estimate_tokens (trim_to_tokens text max_tokens) ≤ max_tokens)
      × (length (trim_to_tokens text max_tokens) ≤ max_tokens * 4)
      × (((length text ≤ char_limit max_tokens) × (trim_to_tokens text max_tokens ≡ text))
          ⊎ ((char_limit max_tokens < length text)
              × (trim_to_tokens text max_tokens
                  ≡ take (char_limit max_tokens - 1) text ++ ellipsis ∷ [])))
unfolding estimate_tokens
trim_to_tokens_fits text max_tokens h =
    let k = char_limit max_tokens - 1 in
    let count : length (take k text ++ ellipsis ∷ []) ≡ min k (length text) + 1 =
      length-append (take k text) (ellipsis ∷ []) ∙ ap (λ n. n + 1) (length-take k text) in
    elim (trim_to_tokens-cases text max_tokens h) [
      | inl (same, fits) ↦ rw same (omega arith, omega arith, inl (fits, refl))
      | inr (cut, long) ↦ rw cut (omega (arith, count), omega (arith, count), inr (long, refl))
    ]
