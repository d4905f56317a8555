-- ===== src/WebCache/Recall.antt =====
-- An insertion keeps what it inserts.
use termlm.Base.{
  ℕ, zero, suc, ◌≤◌, true, false, ◌||◌, List, [], ◌∷◌, ◌++◌, some, ◌≡◌, ◌∙◌, inl, inr, refl, sym,
  ap, arith, ltb, Bool-cases, All,
}
use termlm.Base.Text.{Text, eq_text, eq_text_iff, byte_len}
use termlm.WebCache.{
  CacheEntry, Entries, find, delete, WebCache, without, size_of, drop_entry, discard, evict, store,
  insert,
}
use mathlib.Core.Path.{subst}
use termlm.WebCache.Keys.{eq_text_refl, eq_text-same, mem, has, Distinct, sum_sizes, mem-without}
use termlm.WebCache.Bounds.{IsValid, discard-IsValid, store-IsValid}

find-delete : (k j : Text) (m : Entries) → eq_text k j ≡ false → find j (delete k m) ≡ find j m
unfolding find delete
find-delete k j [] other = refl
find-delete k j ((i, entry) ∷ m) other = elim (Bool-cases (eq_text i k)) [
  | inl e ↦ rw e (ground (arith, find-delete k j m other, eq_text-same i k j e, other))
  | inr e ↦ rw e (ground (arith, find-delete k j m other))
]

without-append :
    (k j : Text) (o : List Text)
    → eq_text j k ≡ false
    → without k (o ++ j ∷ []) ≡ without k o ++ j ∷ []
unfolding without
without-append k j [] other = rw other refl
without-append k j (i ∷ o) other = elim (Bool-cases (eq_text i k)) [
  | inl e ↦ rw e (without-append k j o other)
  | inr e ↦ rw e (ap (◌∷◌ i) (without-append k j o other))
]

eq_text-sym : (a b : Text) → eq_text a b ≡ false → eq_text b a ≡ false
eq_text-sym a b e = elim (Bool-cases (eq_text b a)) [
  | inr f ↦ f
  | inl f ↦
      absurd (ground (arith, e, ap (λ x. eq_text a x) ((eq_text_iff b a).0 f), eq_text_refl a))
]

keyed : (key i : Text) → mem i (key ∷ []) ≡ true → i ≡ key
keyed key i found = sym ((eq_text_iff key i).0 (ground (arith, found)))

-- Entries that all have one key are at most one.
only_key :
    (key : Text) (entry : CacheEntry) (m : Entries)
    → Distinct m
    → All (λ (e : Text × CacheEntry). mem e.0 (key ∷ []) ≡ true) m
    → find key m ≡ some entry
    → sum_sizes m ≡ entry.size_bytes
unfolding find
only_key key entry [] distinct ordered found = absurd (ground (arith, found))
only_key key entry ((i, first) ∷ []) distinct ordered found =
    let same : eq_text i key ≡ true = (eq_text_iff i key).1 (keyed key i ordered.0) in
    let sizes : first.size_bytes ≡ entry.size_bytes = ap size_of (rw same at found) in
    omega (arith, sizes)
only_key key entry ((i, first) ∷ (j, next) ∷ m) distinct ordered found =
    let path : j ≡ i = keyed key j ordered.1.0 ∙ sym (keyed key i ordered.0) in
    let same : eq_text j i ≡ true = (eq_text_iff j i).1 path in
    let other : (eq_text j i || has i m) ≡ false = distinct.0 in
    absurd (ground (arith, same, other))

-- The loop stops before it evicts the last key of the order, whose entry fits the bound.
evict-find :
    (fuel : ℕ) (older : List Text) (cache : WebCache) (key : Text) (entry : CacheEntry)
    → IsValid (record cache { order = older ++ key ∷ [] })
    → mem key older ≡ false
    → find key cache.entries ≡ some entry
    → entry.size_bytes ≤ cache.max_bytes
    → find key (evict fuel (record cache { order = older ++ key ∷ [] })).entries ≡ some entry
unfolding evict discard drop_entry
evict-find zero older cache key entry v fresh found small = found
evict-find (suc fuel) [] cache key entry v fresh found small =
    let sum = only_key key entry cache.entries v.distinct v.ordered found in
    let count : cache.total_bytes ≡ sum_sizes cache.entries = v.counted in
    let fits : ltb cache.max_bytes cache.total_bytes ≡ false = ground (arith, sum, count, small) in
    rw fits found
evict-find (suc fuel) (k ∷ older) cache key entry v fresh found small =
    elim (Bool-cases (ltb cache.max_bytes cache.total_bytes)) [
      | inr fits ↦ rw fits found
      | inl over ↦
          let later =
            evict-find fuel (without k older) next key entry
              (subst (λ o. IsValid (record next { order = o })) order_of valid)
              (ground (arith, fresh, mem-without k key older))
              (find-delete k key cache.entries other ∙ found) small in
          rw over
            (ap (λ o. find key (evict fuel (record next { order = o })).entries) order_of ∙ later)
    ]
  where
    popped : WebCache
    popped = record cache { order = older ++ key ∷ [] }

    next : WebCache
    next = discard k popped

    valid : IsValid next
    valid = discard-IsValid k popped v.distinct v.counted v.ordered

    other : eq_text k key ≡ false
    other = ground (arith, fresh)

    order_of : without k (older ++ key ∷ []) ≡ without k older ++ key ∷ []
    order_of = without-append k key older (eq_text-sym k key other)

-- A body that fits the bound is found after its insertion into a valid cache, with its size and the
-- instant of its insertion, whatever the insertion has evicted.
pub find-insert :
    (key body : Text) (now : ℕ) (cache : WebCache)
    → IsValid cache
    → byte_len body ≤ cache.max_bytes
    → find key (insert key body now cache).entries
      ≡ some (record { body = body; size_bytes = byte_len body; created_at = now })
unfolding insert store drop_entry find
find-insert key body now cache v small =
    evict-find _ (without key cache.order) (store key body now cache) key _
      (store-IsValid key body now cache v)
      (ground (arith, mem-without key key cache.order, eq_text_refl key))
      (rw (eq_text_refl key) refl) small
