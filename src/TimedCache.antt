-- ===== src/TimedCache.antt =====
-- The cache of crates/termlm-core/src/cache/mod.rs, whose entries expire. An instant is a number of
-- nanoseconds and an argument; the abstract cache is a function of the key and the time of the look.
use termlm.Base.{
  ℕ, ◌-◌, ◌≤◌, Bool, true, false, List, [], Option, none, some, leb, ◌≡◌, ◌∙◌, refl, sym, ap, arith,
  if◌then◌else◌, if_true, if_not, Bool-cases, inl, inr,
}
use termlm.Base.Text.{Text, eq_text, eq_text_iff}
use termlm.Index.Names.{find, delete, put, find-put, find-after_delete}

pub record TimedCache (V : Type 0) : Type 0 where
  pub entries : List (Text × (ℕ × V))
  pub ttl : ℕ

module _ {V : Type 0} where
  unfoldable pub new : ℕ → TimedCache V
  new ttl = record { entries = []; ttl = ttl }

  -- the value of an entry, while it is fresh
  unfoldable pub fresh : ℕ → ℕ → Option (ℕ × V) → Option V
  fresh now ttl none = none
  fresh now ttl (some entry) = if leb (now - entry.0) ttl then some entry.1 else none

  abbrev kept : TimedCache V → Text → Option V → TimedCache V
  kept cache key none = record cache { entries = delete key cache.entries }
  kept cache key (some _) = cache

  unfoldable pub get : ℕ → Text → TimedCache V → Option V × TimedCache V
  get now key cache =
      let value = fresh now cache.ttl (find key cache.entries) in (value, kept cache key value)

  unfoldable pub insert : ℕ → Text → V → TimedCache V → TimedCache V
  insert now key value cache = record cache { entries = put key (now, value) cache.entries }

  -- The abstract cache: what a look at a time finds under a key.
  abbrev pub view : TimedCache V → ℕ → Text → Option V
  view cache later key = fresh later cache.ttl (find key cache.entries)

  expired_stays :
      (now later ttl : ℕ) (o : Option (ℕ × V))
      → now ≤ later
      → fresh now ttl o ≡ none
      → fresh later ttl o ≡ none
  unfolding fresh
  expired_stays now later ttl none h e = refl
  expired_stays now later ttl (some (at, v)) h e = elim (Bool-cases (leb (now - at) ttl)) [
    | inl young ↦ absurd (some-none (sym (if_true _ _ _ young) ∙ e))
    | inr old ↦ if_not (leb (later - at) ttl) (some v) none (ground (arith, old))
  ]
    where
      some-none : some v ≡ none → ⊥
      some-none k = cc

  kept-view :
      (now later : ℕ) (key j : Text) (cache : TimedCache V) (value : Option V)
      → now ≤ later
      → fresh now cache.ttl (find key cache.entries) ≡ value
      → view (kept cache key value) later j ≡ view cache later j
  kept-view now later key j cache (some v) h e = refl
  kept-view now later key j cache none h e =
      ap (fresh later cache.ttl) (find-after_delete key j cache.entries)
      ∙ by_key (eq_text key j) refl
    where
      by_key :
          (b : Bool)
          → eq_text key j ≡ b
          → fresh later cache.ttl (if b then none else find j cache.entries)
            ≡ fresh later cache.ttl (find j cache.entries)
      by_key true same =
          let gone = expired_stays now later cache.ttl (find key cache.entries) h e in
          let here : find key cache.entries ≡ find j cache.entries =
            ap (λ k. find k cache.entries) ((eq_text_iff key j).0 same) in
          let nothing : fresh later cache.ttl none ≡ none = unfold fresh in refl in
          nothing ∙ sym (ap (fresh later cache.ttl) (sym here) ∙ gone)
      by_key false other = refl

  -- The cache implements the abstract one, while the clock does not go back: a new cache finds
  -- nothing; a look-up gives what the abstract cache has under the key at that time, and changes
  -- nothing that is found then or later; and after an insertion the key finds the new value until it is
  -- older than the time to live, and every other key what it found before.
  pub TimedCache-refines :
      (now later ttl : ℕ) (key j : Text) (value : V) (cache : TimedCache V)
      → now ≤ later
      → (view (new ttl) later j ≡ none)
        × ((get now key cache).0 ≡ view cache now key)
        × (view (get now key cache).1 later j ≡ view cache later j)
        × (view (insert now key value cache) later j ≡ (
            if eq_text key j
            then (if leb (later - now) cache.ttl then some value else none)
            else view cache later j))
  unfolding new get insert
  TimedCache-refines now later ttl key j value cache h = (
    unfold fresh find in refl,
    refl,
    kept-view now later key j cache _ h refl,
    ap (fresh later cache.ttl) (find-put key j (now, value) cache.entries) ∙ by_key (eq_text key j),
  )
    where
      by_key :
          (b : Bool)
          → fresh later cache.ttl (if b then some (now, value) else find j cache.entries) ≡ (
              if b
              then (if leb (later - now) cache.ttl then some value else none)
              else view cache later j)
      by_key true = unfold fresh in refl
      by_key false = refl
