-- ===== src/Index/Found.antt =====
-- What a look-up of documentation answers.
use termlm.Base.{
  ℕ, ◌+◌, ◌≤◌, Bool, true, false, not, List, [], ◌∷◌, ◌++◌, Option, none, some, ltb, leb, ◌≡◌, ◌∙◌,
  refl, sym, arith, if◌then◌else◌, any, All, length, take, zero, suc, length-append, length-take,
  Bool-cases, inl, inr, if_true, if_not,
}
use mathlib.Core.Path.{subst}
use termlm.Base.Text.{eq_text, is_empty}
use termlm.Planning.Round.{insert_text, text_ltb}
use termlm.Index.Bytes.{Bytes}
use termlm.Index.Names.{eq_text_refl}
use termlm.Index.Records.{Chunk}
use termlm.Index.Lookup.{
  LookupResult, Lookup, found, suggestions, insert_by, sort_by, sorted_names, distance_to,
  fuzzy_suggestions, matching_chunks, is_of_command, is_char_boundary, truncation_hint, bounded,
  lookup_command_docs,
}

-- Some chunk is of the command.
abbrev pub IsIndexed : List Chunk → Bytes → Type 0
IsIndexed chunks name = any (is_of_command name) chunks ≡ true

matching_chunks-empty :
    (p : Chunk → Bool) (chunks : List Chunk)
    → is_empty (matching_chunks p chunks) ≡ not (any p chunks)
unfolding matching_chunks
matching_chunks-empty p [] = refl
matching_chunks-empty p (c ∷ chunks) = ground (arith, matching_chunks-empty p chunks)

module _ (Q : Bytes → Type 0) where
  All-if : (b : Bool) (xs ys : List Bytes) → All Q xs → All Q ys → All Q (if b then xs else ys)
  All-if true xs ys h k = h
  All-if false xs ys h k = k

  insert_text-All : (t : Bytes) (us : List Bytes) → Q t → All Q us → All Q (insert_text t us)
  unfolding insert_text
  insert_text-All t [] q h = (q, tt)
  insert_text-All t (u ∷ us) q (v, h) =
      All-if (eq_text t u) (u ∷ us) _ (v, h)
        (All-if (text_ltb t u) (t ∷ u ∷ us) (u ∷ insert_text t us) (q, (v, h))
          (v, insert_text-All t us q h))

  insert_by-All :
      (key : Bytes → ℕ) (x : Bytes) (ys : List Bytes) → Q x → All Q ys → All Q (insert_by key x ys)
  unfolding insert_by
  insert_by-All key x [] q h = (q, tt)
  insert_by-All key x (y ∷ ys) q (v, h) =
      All-if (leb (key x) (key y)) (x ∷ y ∷ ys) (y ∷ insert_by key x ys) (q, (v, h))
        (v, insert_by-All key x ys q h)

  sort_by-All : (key : Bytes → ℕ) (xs : List Bytes) → All Q xs → All Q (sort_by key xs)
  unfolding sort_by
  sort_by-All key [] h = tt
  sort_by-All key (x ∷ xs) (q, h) = insert_by-All key x (sort_by key xs) q (sort_by-All key xs h)

  All-take : (n : ℕ) (xs : List Bytes) → All Q xs → All Q (take n xs)
  All-take zero xs h = tt
  All-take (suc n) [] h = tt
  All-take (suc n) (x ∷ xs) (q, h) = (q, All-take n xs h)

  All-mono :
      {R : Bytes → Type 0} → ((x : Bytes) → R x → Q x) → (xs : List Bytes) → All R xs → All Q xs
  All-mono f [] h = tt
  All-mono f (x ∷ xs) (r, h) = (f x r, All-mono f xs h)

sorted_names-IsIndexed : (chunks : List Chunk) → All (IsIndexed chunks) (sorted_names chunks)
unfolding sorted_names
sorted_names-IsIndexed [] = tt
sorted_names-IsIndexed (c ∷ chunks) =
    insert_text-All (IsIndexed (c ∷ chunks)) c.command_name (sorted_names chunks)
      (rw (eq_text_refl c.command_name) refl)
      (All-mono (IsIndexed (c ∷ chunks)) (λ name h. ground (arith, h)) (sorted_names chunks)
        (sorted_names-IsIndexed chunks))

-- What an answer says.
abbrev pub Answers : List Chunk → Bytes → ℕ → Lookup → Type 0
Answers chunks name max_bytes (found r) =
    IsIndexed chunks name
    × (r.name ≡ name)
    × (length r.text ≤ max_bytes + length truncation_hint)
    × (r.truncated ≡ false → length r.text ≤ max_bytes)
Answers chunks name max_bytes (suggestions names) =
    (any (is_of_command name) chunks ≡ false) × (length names ≤ 5) × All (IsIndexed chunks) names

bounded-Answers :
    (chunks : List Chunk) (name : Bytes) (section : Option Bytes) (max_bytes : ℕ) (out : Bytes)
    {answer : Lookup}
    → IsIndexed chunks name
    → bounded name section max_bytes out ≡ some answer
    → Answers chunks name max_bytes answer
unfolding bounded
bounded-Answers chunks name section max_bytes out {answer} indexed h =
    elim (Bool-cases (ltb max_bytes (length out))) [
      | inl over ↦ elim (Bool-cases (is_char_boundary out max_bytes)) [
        | inl fits ↦
            answers (found cut) (sym (if_true _ _ _ fits) ∙ (sym (if_true _ _ _ over) ∙ h))
              cut_answers
        | inr splits ↦
            absurd (none-some (sym (if_not _ _ _ splits) ∙ (sym (if_true _ _ _ over) ∙ h)))
      ]
      | inr within ↦
          answers (found whole) (sym (if_not _ _ _ within) ∙ h)
            (indexed, refl, ground (arith, within), λ _. ground (arith, within))
    ]
  where
    cut : LookupResult
    cut = record {
      name = name;
      section = section;
      text = take max_bytes out ++ truncation_hint;
      truncated = true;
    }

    whole : LookupResult
    whole = record { name = name; section = section; text = out; truncated = false }

    cut_answers : Answers chunks name max_bytes (found cut)
    cut_answers = (
      indexed,
      refl,
      omega (arith, length-append (take max_bytes out) truncation_hint, length-take max_bytes out),
      λ e. absurd (ground (arith, e)),
    )

    none-some : none ≡ some answer → ⊥
    none-some e = cc

    answers :
        (a : Lookup)
        → some a ≡ some answer
        → Answers chunks name max_bytes a
        → Answers chunks name max_bytes answer
    answers a e k =
        let same : a ≡ answer = cc in subst (λ l. Answers chunks name max_bytes l) same k

-- A look-up that ends answers with documentation where a chunk of the command is stored, of the
-- asked name, within the bytes allowed unless it is marked as truncated, and at most the hint longer then;
-- where no chunk of the command is stored it answers with at most five names, each of a stored chunk.
pub lookup_command_docs-Answers :
    (chunks : List Chunk) (name : Bytes) (section : Option Bytes) (max_bytes : ℕ) {answer : Lookup}
    → lookup_command_docs chunks name section max_bytes ≡ some answer
    → Answers chunks name max_bytes answer
unfolding lookup_command_docs fuzzy_suggestions
lookup_command_docs-Answers chunks name section max_bytes {answer} h =
    let matching = matching_chunks (is_of_command name) chunks in
    let none_matches = matching_chunks-empty (is_of_command name) chunks in
    elim (Bool-cases (is_empty matching)) [
      | inl e ↦
          subst (λ l. Answers chunks name max_bytes l) (some-injective (sym (if_true _ _ _ e) ∙ h))
            (
              by_not _ (sym none_matches ∙ e),
              omega (arith, length-take 5 (sort_by (distance_to name) (sorted_names chunks))),
              All-take _ 5 _ (sort_by-All _ (distance_to name) _ (sorted_names-IsIndexed chunks)),
            )
      | inr e ↦
          bounded-Answers chunks name section max_bytes _ (by_not' _ (sym none_matches ∙ e))
            (sym (if_not _ _ _ e) ∙ h)
    ]
  where
    some-injective : {a b : Lookup} → some a ≡ some b → a ≡ b
    some-injective e = cc

    by_not : (b : Bool) → not b ≡ true → b ≡ false
    by_not true e = cc
    by_not false e = refl

    by_not' : (b : Bool) → not b ≡ false → b ≡ true
    by_not' true e = refl
    by_not' false e = cc
