-- ===== src/WebCache/Bounds.antt =====
-- The invariant of the cache and its bound.
use termlm.Base.{
  ℕ, zero, suc, ◌≤◌, true, false, List, [], ◌∷◌, ◌++◌, ◌≡◌, ◌∙◌, inl, inr, refl, ap, arith, ltb,
  Bool-cases, All, length,
}
use termlm.Base.Text.{Text, eq_text, eq_text_iff}
use termlm.WebCache.{
  CacheEntry, Entries, delete, WebCache, without, drop_entry, discard, evict, store, insert,
}
use termlm.WebCache.Keys.{
  eq_text_refl, eq_text-same, mem, Distinct, sum_sizes, mem-without, mem-append, has-delete,
  Distinct-delete, sum_sizes-delete,
}

-- Each key has one entry, the bytes are counted, and every entry stands in the order.
pub record IsValid (cache : WebCache) : Type 0 where
  pub distinct : Distinct cache.entries
  pub counted : cache.total_bytes ≡ sum_sizes cache.entries
  pub ordered : All (λ (e : Text × CacheEntry). mem e.0 cache.order ≡ true) cache.entries

pub ordered-delete :
    (k : Text) (o : List Text) (m : Entries)
    → All (λ (e : Text × CacheEntry). mem e.0 (k ∷ o) ≡ true) m
    → All (λ (e : Text × CacheEntry). mem e.0 (without k o) ≡ true) (delete k m)
unfolding delete
ordered-delete k o [] h = tt
ordered-delete k o ((i, entry) ∷ m) (found, h) = elim (Bool-cases (eq_text i k)) [
  | inl e ↦ rw e (ordered-delete k o m h)
  | inr e ↦ rw e (
    elim (Bool-cases (eq_text k i)) [
      | inl f ↦ absurd (
          ground (
            arith,
            e,
            eq_text-same k i i f,
            eq_text_refl i,
            f,
            ap (λ x. eq_text i x) ((eq_text_iff k i).0 f),
          ))
      | inr f ↦ ground (arith, found, f, mem-without k i o)
    ],
    ordered-delete k o m h,
  )
]

-- an entry in the order stands in a longer one
pub ordered-more :
    (k : Text) (o : List Text) (m : Entries)
    → All (λ (e : Text × CacheEntry). mem e.0 o ≡ true) m
    → All (λ (e : Text × CacheEntry). mem e.0 (k ∷ o) ≡ true) m
ordered-more k o [] h = tt
ordered-more k o (e ∷ m) (found, h) = (ground (arith, found), ordered-more k o m h)

pub ordered-append :
    (k : Text) (o : List Text) (m : Entries)
    → All (λ (e : Text × CacheEntry). mem e.0 o ≡ true) m
    → All (λ (e : Text × CacheEntry). mem e.0 (o ++ k ∷ []) ≡ true) m
ordered-append k o [] h = tt
ordered-append k o ((i, entry) ∷ m) (found, h) =
    (ground (arith, found, mem-append i k o), ordered-append k o m h)

-- The key `k` has just been taken off the order, or stands in it still.
pub discard-IsValid :
    (k : Text) (cache : WebCache)
    → Distinct cache.entries
    → cache.total_bytes ≡ sum_sizes cache.entries
    → All (λ (e : Text × CacheEntry). mem e.0 (k ∷ cache.order) ≡ true) cache.entries
    → IsValid (discard k cache)
unfolding discard drop_entry
discard-IsValid k cache distinct counted ordered = record {
  distinct = Distinct-delete k cache.entries distinct;
  counted = omega (arith, counted, sum_sizes-delete k cache.entries distinct);
  ordered = ordered-delete k cache.order cache.entries ordered;
}

pub length-without : (k : Text) (o : List Text) → length (without k o) ≤ length o
unfolding without
length-without k [] = omega arith
length-without k (i ∷ o) = ground (arith, length-without k o)

-- without an order there is no entry
pub empty_order : (cache : WebCache) → IsValid cache → cache.order ≡ [] → cache.total_bytes ≡ 0
empty_order cache v none_left = v.counted ∙ no_entry cache.entries (rw none_left at v.ordered)
  where
    no_entry :
        (m : Entries) → All (λ (e : Text × CacheEntry). mem e.0 [] ≡ true) m → sum_sizes m ≡ 0
    no_entry [] h = refl
    no_entry (e ∷ m) (found, h) = absurd (ground (arith, found))

abbrev Evicted : ℕ → WebCache → Type 0
Evicted fuel cache =
    IsValid (evict fuel cache)
    × ((evict fuel cache).total_bytes ≤ cache.max_bytes)
    × ((evict fuel cache).max_bytes ≡ cache.max_bytes)

-- Enough fuel for the loop is the length of the order: then the bytes are within the bound.
pub evict-IsValid :
    (fuel : ℕ) (order : List Text) (cache : WebCache)
    → IsValid (record cache { order = order })
    → length order ≤ fuel
    → Evicted fuel (record cache { order = order })
unfolding evict discard drop_entry
evict-IsValid zero [] cache v enough =
    let none_left = empty_order (record cache { order = [] }) v refl in
    (v, omega (arith, none_left), refl)
evict-IsValid zero (k ∷ rest) cache v enough = absurd (omega arith)
evict-IsValid (suc fuel) [] cache v enough =
    let none_left = empty_order (record cache { order = [] }) v refl in
    let fits : ltb cache.max_bytes cache.total_bytes ≡ false = ground (arith, none_left) in
    rw fits (v, omega (arith, none_left), refl)
evict-IsValid (suc fuel) (k ∷ rest) cache v enough =
    elim (Bool-cases (ltb cache.max_bytes cache.total_bytes)) [
      | inl over ↦ rw over (
          evict-IsValid fuel (without k rest) (discard k (record cache { order = rest }))
            (discard-IsValid k (record cache { order = rest }) v.distinct v.counted v.ordered)
            (omega (arith, length-without k rest)))
      | inr fits ↦ rw fits (v, ground arith, refl)
    ]

pub store-IsValid :
    (key body : Text) (now : ℕ) (cache : WebCache)
    → IsValid cache
    → IsValid (store key body now cache)
unfolding store drop_entry
store-IsValid key body now cache v =
    let less =
      ordered-delete key cache.order cache.entries
        (ordered-more key cache.order cache.entries v.ordered) in
    record {
      distinct = (
        ground (arith, has-delete key key cache.entries, eq_text_refl key),
        Distinct-delete key cache.entries v.distinct,
      );
      counted = omega (arith, v.counted, sum_sizes-delete key cache.entries v.distinct);
      ordered = (
        ground (arith, mem-append key key (without key cache.order), eq_text_refl key),
        ordered-append key (without key cache.order) (delete key cache.entries) less,
      );
    }

-- An insertion into a valid cache leaves a valid one: each key with one entry that stands in the
-- order of eviction, and the bytes counted as the sum of the entries' sizes. They are no more than
-- the bound, which stays the same, also where the new body alone is too large.
pub insert-IsValid :
    (key body : Text) (now : ℕ) (cache : WebCache)
    → IsValid cache
    → IsValid (insert key body now cache)
      × ((insert key body now cache).total_bytes ≤ cache.max_bytes)
      × ((insert key body now cache).max_bytes ≡ cache.max_bytes)
unfolding insert
insert-IsValid key body now cache v =
    let stored = store key body now cache in
    let (valid, fits, same) =
      evict-IsValid (length stored.order) stored.order stored (store-IsValid key body now cache v)
        (omega arith) in
    (valid, unfold store in fits, unfold store in same)
