-- ===== src/Index/Bytes.antt =====
-- Byte strings, integers in little-endian order, and the readers of
-- crates/termlm-indexer/src/store.rs that stand on a cursor. A `usize` has 64 bits. A slice is
-- `take` and `drop`; the code tests its bounds first.
use termlm.Base.{
  ℕ, zero, suc, ◌+◌, ◌-◌, ◌*◌, ◌/◌, ◌%◌, ◌^◌, ◌≤◌, ◌<◌, false, List, [], ◌∷◌, ◌++◌, Option, none,
  some, String, ◌≡◌, ◌∙◌, refl, sym, ap, arith, ltb, if◌then◌else◌, length, take, drop,
  length-append, take-length, drop-length,
}
use termlm.Shell.{usize_max}

abbrev pub Bytes : Type 0
Bytes = List ℕ

-- `to_le_bytes` of an integer of `n` bytes
unfoldable pub le_bytes : ℕ → ℕ → Bytes
le_bytes zero v = []
le_bytes (suc n) v = v % 256 ∷ le_bytes n (v / 256)

-- `from_le_bytes`
unfoldable pub le_value : Bytes → ℕ
le_value [] = 0
le_value (b ∷ bs) = b + 256 * le_value bs

-- An integer of at most `n` bytes.
abbrev pub Fits : ℕ → ℕ → Type 0
Fits zero v = v ≡ 0
Fits (suc n) v = Fits n (v / 256)

pub length-le_bytes : (n v : ℕ) → length (le_bytes n v) ≡ n
unfolding le_bytes
length-le_bytes zero v = refl
length-le_bytes (suc n) v = ap suc (length-le_bytes n (v / 256))

pub le_value-le_bytes : (n v : ℕ) → Fits n v → le_value (le_bytes n v) ≡ v
unfolding le_bytes le_value
le_value-le_bytes zero v h = sym h
le_value-le_bytes (suc n) v h = omega (arith, le_value-le_bytes n (v / 256) h)

pub u32-Fits : (v : ℕ) → v < 2 ^ 32 → Fits 4 v
u32-Fits v h = omega arith

pub u64-Fits : (v : ℕ) → v < 2 ^ 64 → Fits 8 v
u64-Fits v h = omega arith

module _ {ℓ} {A : Type ℓ} where
  pub drop_nil : (n : ℕ) → drop {A = A} n [] ≡ []
  drop_nil zero = refl
  drop_nil (suc n) = refl

  pub drop-drop : (b k : ℕ) (xs : List A) → drop k (drop b xs) ≡ drop (b + k) xs
  drop-drop zero k xs = let e : 0 + k ≡ k = omega arith in rw e
  drop-drop (suc b) k [] = drop_nil k ∙ sym (drop_nil (suc b + k))
  drop-drop (suc b) k (x ∷ xs) =
      let e : suc b + k ≡ suc (b + k) = omega arith in rw e (drop-drop b k xs)

  pub take_all : (xs : List A) → take (length xs) xs ≡ xs
  take_all [] = refl
  take_all (x ∷ xs) = ap (◌∷◌ x) (take_all xs)

  pub length-drop : (n : ℕ) (xs : List A) → length (drop n xs) ≡ length xs - n
  length-drop zero xs = omega arith
  length-drop (suc n) [] = omega arith
  length-drop (suc n) (x ∷ xs) = omega (arith, length-drop n xs)

  -- A slice that lies in a list lies in a longer one.
  pub slice-append :
      (off len : ℕ) (xs ys : List A)
      → off + len ≤ length xs
      → take len (drop off (xs ++ ys)) ≡ take len (drop off xs)
  slice-append zero zero xs ys h = refl
  slice-append zero (suc len) [] ys h = absurd (omega arith)
  slice-append zero (suc len) (x ∷ xs) ys h = ap (◌∷◌ x) (slice-append zero len xs ys (omega arith))
  slice-append (suc off) len [] ys h = absurd (omega arith)
  slice-append (suc off) len (x ∷ xs) ys h = slice-append off len xs ys (omega arith)

-- The integer of `n` bytes that starts at `base`.
unfoldable pub le_at : ℕ → Bytes → ℕ → ℕ
le_at n raw base = le_value (take n (drop base raw))

pub le_at-le_bytes :
    (n : ℕ) (raw : Bytes) (base v : ℕ) (rest : Bytes)
    → drop base raw ≡ le_bytes n v ++ rest
    → Fits n v
    → le_at n raw base ≡ v
unfolding le_at
le_at-le_bytes n raw base v rest e h =
    ap (λ l. le_value (take n l)) e ∙ ap le_value (take_of n v) ∙ le_value-le_bytes n v h
  where
    take_of : (n v : ℕ) → take n (le_bytes n v ++ rest) ≡ le_bytes n v
    take_of n v =
        ap (λ k. take k (le_bytes n v ++ rest)) (sym (length-le_bytes n v))
        ∙ take-length (le_bytes n v) rest

-- `anyhow::Result`, with the message of the error
pub data Result {ℓ} (A : Type ℓ) : Type ℓ where
  ok : A → Result A
  err : String → Result A

infixl 5 ◌>>=◌
abbrev pub ◌>>=◌ {ℓ κ} : {X : Type ℓ} {Y : Type κ} → Result X → (X → Result Y) → Result Y
ok x >>= next = next x
err message >>= next = err message

-- `try_from` of a count, below `bound`
abbrev pub checked : ℕ → ℕ → String → Result ℕ
checked bound n message = if ltb n bound then ok n else err message

unfoldable pub read_blob_bytes : Bytes → ℕ → ℕ → Option Bytes
read_blob_bytes blob off len =
    let end = off + len in
    if ltb usize_max end
    then none
    else if ltb (length blob) end
    then none
    else some (take len (drop off blob))

-- The readers: what stands at the cursor, and the cursor behind it.
abbrev pub Reader {ℓ} : Type ℓ → Type ℓ
Reader A = Bytes → ℕ → Result (A × ℕ)

-- the shape of all five
unfoldable pub read_fixed : ℕ → String → Reader Bytes
read_fixed n message raw cursor =
    if ltb (length raw - cursor) n then err message else ok (take n (drop cursor raw), cursor + n)

unfoldable pub read_int : ℕ → String → Reader ℕ
unfolding read_fixed
read_int n message raw cursor = do
  (bytes, next) ← read_fixed n message raw cursor
  ok (le_value bytes, next)

unfoldable pub read_u32 : Reader ℕ
unfolding read_int
read_u32 = read_int 4 "buffer underflow reading u32"

unfoldable pub read_u64 : Reader ℕ
unfolding read_int
read_u64 = read_int 8 "buffer underflow reading u64"

-- the bit pattern of an `i64`
unfoldable pub read_i64 : Reader ℕ
unfolding read_int
read_i64 = read_int 8 "buffer underflow reading i64"

unfoldable pub read_u8 : Reader ℕ
unfolding read_int
read_u8 = read_int 1 "buffer underflow reading u8"

-- `rest` stands at the cursor.
abbrev pub Stands : Bytes → ℕ → Bytes → Type 0
Stands raw cursor rest = (drop cursor raw ≡ rest) × (cursor ≤ length raw)

pub Stands-skip :
    (raw : Bytes) (cursor : ℕ) (front rest : Bytes)
    → Stands raw cursor (front ++ rest)
    → Stands raw (cursor + length front) rest
Stands-skip raw cursor front rest (e, h) =
    let size = sym (length-drop cursor raw) ∙ (ap length e ∙ length-append front rest) in
    (
      sym (drop-drop cursor (length front) raw)
          ∙ (ap (drop (length front)) e ∙ drop-length front rest),
      omega (arith, size),
    )

pub read_fixed-append :
    (message : String) (raw : Bytes) (cursor : ℕ) (front rest : Bytes)
    → Stands raw cursor (front ++ rest)
    → read_fixed (length front) message raw cursor ≡ ok (front, cursor + length front)
unfolding read_fixed
read_fixed-append message raw cursor front rest (e, h) =
    let size = sym (length-drop cursor raw) ∙ (ap length e ∙ length-append front rest) in
    let enough : ltb (length raw - cursor) (length front) ≡ false = ground (arith, size) in
    let bytes : take (length front) (drop cursor raw) ≡ front =
      ap (take (length front)) e ∙ take-length front rest in
    rw (enough, bytes) refl

pub read_int-le_bytes :
    (n : ℕ) (message : String) (raw : Bytes) (cursor v : ℕ) (rest : Bytes)
    → Stands raw cursor (le_bytes n v ++ rest)
    → Fits n v
    → (read_int n message raw cursor ≡ ok (v, cursor + n)) × Stands raw (cursor + n) rest
unfolding read_int
read_int-le_bytes n message raw cursor v rest s h =
    let size = length-le_bytes n v in
    let got : read_fixed n message raw cursor ≡ ok (le_bytes n v, cursor + n) =
      rw size at (read_fixed-append message raw cursor (le_bytes n v) rest s) in
    (
      ap (λ (r : Result (Bytes × ℕ)). r >>= λ p. ok (le_value p.0, p.1)) got
          ∙ ap (λ x. ok (x, cursor + n)) (le_value-le_bytes n v h),
      rw size at (Stands-skip raw cursor (le_bytes n v) rest s),
    )

-- A chain that succeeds succeeds in its first part.
pub >>=-ok {ℓ κ} :
    {X : Type ℓ} {Y : Type κ} (first : Result X) (next : X → Result Y) {value : Y}
    → (first >>= next) ≡ ok value
    → (x : X) × (first ≡ ok x) × (next x ≡ ok value)
>>=-ok (ok x) next h = (x, refl, h)
>>=-ok (err message) next h = cc
