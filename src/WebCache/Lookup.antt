-- ===== src/WebCache/Lookup.antt =====
-- What a lookup in the cache returns.
use termlm.Base.{
  ℕ, ◌+◌, ◌≤◌, ◌<◌, Bool, true, false, [], ◌∷◌, ◌++◌, Option, none, some, ◌≡◌, ◌⊎◌, inl, inr, refl,
  arith, ltb, if◌then◌else◌, All,
}
use termlm.Base.Text.{Text}
use termlm.WebCache.{
  CacheEntry, Entries, find, WebCache, without, drop_entry, discard, refresh, get,
}
use termlm.WebCache.Keys.{eq_text_refl, mem, has, mem-without, mem-append, has-delete}
use termlm.WebCache.Bounds.{IsValid, discard-IsValid, ordered-more}

find-has : (key : Text) (m : Entries) → find key m ≡ none → has key m ≡ false
unfolding find
find-has key [] h = refl
find-has key ((i, entry) ∷ m) h = ground (arith, h, find-has key m)

refresh-IsValid : (key : Text) (cache : WebCache) → IsValid cache → IsValid (refresh key cache)
unfolding refresh
refresh-IsValid key cache v = record {
  distinct = v.distinct;
  counted = v.counted;
  ordered = kept cache.entries v.ordered;
}
  where
    kept :
        (m : Entries)
        → All (λ (e : Text × CacheEntry). mem e.0 cache.order ≡ true) m
        → All (λ (e : Text × CacheEntry). mem e.0 (without key cache.order ++ key ∷ []) ≡ true) m
    kept [] h = tt
    kept ((i, entry) ∷ m) (found, h) = (
      ground
          (arith, found, mem-append i key (without key cache.order), mem-without key i cache.order),
      kept m h,
    )

-- What a lookup of a key returns and leaves.
abbrev pub Looked : Text → ℕ → WebCache → Option Text × WebCache → Type 0
Looked key now cache result =
    IsValid result.1
    × (((entry : CacheEntry) × (find key cache.entries ≡ some entry)
          × (now ≤ entry.created_at + cache.ttl)
          × (result.0 ≡ some entry.body)
          × (result.1.entries ≡ cache.entries))
        ⊎ (((find key cache.entries ≡ none)
              ⊎ ((entry : CacheEntry) × (find key cache.entries ≡ some entry)
                  × (entry.created_at + cache.ttl < now)))
            × (result.0 ≡ none)
            × (has key result.1.entries ≡ false)))

-- A lookup in a valid cache leaves a valid one. Either the key has an entry that is not older than
-- the time to live, whose body is returned with the entries kept, or it has none or an older one:
-- then nothing is returned, and no entry of the key is left.
pub get-IsValid :
    (key : Text) (now : ℕ) (cache : WebCache)
    → IsValid cache
    → Looked key now cache (get key now cache)
unfolding get
get-IsValid key now cache v = looked (find key cache.entries) refl
  where
    aged :
        (entry : CacheEntry)
        → find key cache.entries ≡ some entry
        → (old : Bool) → ltb (entry.created_at + cache.ttl) now ≡ old
        → Looked key now cache
            (if old then (none, discard key cache) else (some entry.body, refresh key cache))
    aged entry found true old = (
      discard-IsValid key cache v.distinct v.counted
          (ordered-more key cache.order cache.entries v.ordered),
      inr (
        inr (entry, found, ground (arith, old)),
        refl,
        unfold discard drop_entry in
            ground (arith, has-delete key key cache.entries, eq_text_refl key),
      ),
    )
    aged entry found false fresh = (
      refresh-IsValid key cache v,
      inl (entry, found, ground (arith, fresh), refl, unfold refresh in refl),
    )

    looked :
        (o : Option CacheEntry)
        → find key cache.entries ≡ o
        → Looked key now cache (elim o [
          | none ↦ (none, cache)
          | some entry ↦
              if ltb (entry.created_at + cache.ttl) now
              then (none, discard key cache)
              else (some entry.body, refresh key cache)
        ])
    looked none e = (v, inr (inl e, refl, find-has key cache.entries e))
    looked (some entry) e = aged entry e (ltb (entry.created_at + cache.ttl) now) refl
