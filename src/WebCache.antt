-- ===== src/WebCache.antt =====
-- The cache of web pages and searches, crates/termlm-web/src/cache.rs. The clock is an argument of
-- the operations that read it; an instant and `ttl` are counted in the same unit.
pub mod Keys
pub mod Bounds
pub mod Lookup
pub mod Recall
use termlm.Base.{
  ℕ, zero, suc, ◌+◌, ◌-◌, Bool, List, [], ◌∷◌, ◌++◌, Option, none, some, ltb, if◌then◌else◌, length,
}
use termlm.Base.Text.{Text, eq_text, byte_len}

pub record CacheEntry : Type 0 where
  pub body : Text
  pub size_bytes : ℕ
  pub created_at : ℕ

abbrev pub Entries : Type 0
Entries = List (Text × CacheEntry)

-- the map of the entries, a `BTreeMap<String, CacheEntry>`
unfoldable pub find : Text → Entries → Option CacheEntry
find key [] = none
find key ((k, entry) ∷ rest) = if eq_text k key then some entry else find key rest

unfoldable pub delete : Text → Entries → Entries
delete key [] = []
delete key ((k, entry) ∷ rest) =
    let others = delete key rest in if eq_text k key then others else (k, entry) ∷ others

pub record WebCache : Type 0 where
  pub entries : Entries
  pub order : List Text
  pub max_bytes : ℕ
  pub total_bytes : ℕ
  pub ttl : ℕ

unfoldable pub new : ℕ → ℕ → WebCache
new max_bytes ttl = record {
  entries = [];
  order = [];
  max_bytes = max_bytes;
  total_bytes = 0;
  ttl = ttl;
}

-- `order.retain(|k| k != key)`
unfoldable pub without : Text → List Text → List Text
without key [] = []
without key (k ∷ rest) =
    let others = without key rest in if eq_text k key then others else k ∷ others

abbrev pub size_of : Option CacheEntry → ℕ
size_of none = 0
size_of (some entry) = entry.size_bytes

-- `entries.remove(key)`, with the bytes taken back
unfoldable pub drop_entry : Text → WebCache → WebCache
drop_entry key cache = record cache {
  entries = delete key cache.entries;
  total_bytes = cache.total_bytes - size_of (find key cache.entries);
}

unfoldable pub discard : Text → WebCache → WebCache
unfolding drop_entry
discard key cache = drop_entry key (record cache { order = without key cache.order })

unfoldable pub refresh : Text → WebCache → WebCache
refresh key cache = record cache { order = without key cache.order ++ key ∷ [] }

-- `get` at the instant `now`
unfoldable pub get : Text → ℕ → WebCache → Option Text × WebCache
unfolding discard refresh
get key now cache = elim (find key cache.entries) [
  | none ↦ (none, cache)
  | some entry ↦
      if ltb (entry.created_at + cache.ttl) now
      then (none, discard key cache)
      else (some entry.body, refresh key cache)
]

-- The loop that evicts the oldest, on fuel: each round takes a key off the order.
unfoldable pub evict : ℕ → WebCache → WebCache
unfolding discard
evict zero cache = cache
evict (suc fuel) cache =
    if ltb cache.max_bytes cache.total_bytes
    then elim cache.order [
      | [] ↦ cache
      | k ∷ rest ↦ evict fuel (discard k (record cache { order = rest }))
    ]
    else cache

-- `insert` up to the loop
unfoldable pub store : Text → Text → ℕ → WebCache → WebCache
unfolding drop_entry
store key body now cache =
    let size = byte_len body in
    let dropped = drop_entry key (record cache { order = without key cache.order }) in
    record dropped {
      entries =
          (key, record { body = body; size_bytes = size; created_at = now }) ∷ dropped.entries;
      order = dropped.order ++ key ∷ [];
      total_bytes = dropped.total_bytes + size;
    }

unfoldable pub insert : Text → Text → ℕ → WebCache → WebCache
unfolding store evict
insert key body now cache =
    let stored = store key body now cache in evict (length stored.order) stored
