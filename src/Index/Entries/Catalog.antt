-- ===== src/Index/Entries/Catalog.antt =====
-- What the catalog of paths says of its blob.
use termlm.Base.{
  ℕ, ◌+◌, ◌^◌, ◌≤◌, ◌<◌, List, [], ◌∷◌, ◌++◌, some, ◌≡◌, ◌∙◌, refl, sym, ap, arith, if◌then◌else◌,
  Bool-cases, inl, inr, length, take, drop, length-append, drop-length, All,
}
use mathlib.Core.Path.{subst}
use termlm.Base.Text.{eq_text, eq_text_iff}
use termlm.Index.Bytes.{Bytes, Result, ok, >>=-ok, slice-append, take_all}
use termlm.Index.Utf8.{from_utf8_lossy}
use termlm.Index.Names.{find, put, find-put, eq_text_refl}
use termlm.Index.Records.{BinaryEntry}
use termlm.Index.Entries.{
  PathCatalog, catalog_step, catalog_loop, empty_catalog, build_path_catalog,
}

-- `path` stands at the place in the blob.
abbrev pub IsAt : Bytes → Bytes → ℕ × ℕ → Type 0
IsAt blob path place =
    (place.0 + place.1 ≤ length blob)
    × (take place.1 (drop place.0 blob) ≡ path)
    × (place.0 < 2 ^ 64)
    × (place.1 < 2 ^ 32)

abbrev pub Placed : PathCatalog → Type 0
Placed catalog =
    (path : Bytes) (place : ℕ × ℕ)
    → find path catalog.offsets ≡ some place
    → IsAt catalog.blob path place

abbrev pub Has : PathCatalog → Bytes → Type 0
Has catalog path = (place : ℕ × ℕ) × (find path catalog.offsets ≡ some place)

catalog_step-ok :
    (catalog : PathCatalog) (entry : BinaryEntry) {next : PathCatalog}
    → catalog_step catalog entry ≡ ok next
    → (length catalog.blob < 2 ^ 64)
      × (length (from_utf8_lossy entry.path) < 2 ^ 32)
      × (record {
        blob = catalog.blob ++ from_utf8_lossy entry.path;
        offsets =
            put
              (from_utf8_lossy entry.path)
              (length catalog.blob, length (from_utf8_lossy entry.path))
              catalog.offsets;
      }
          ≡ next)
unfolding catalog_step
catalog_step-ok catalog entry h = ground arith

-- The parts of a longer blob stay where they are.
IsAt-append :
    (blob more path : Bytes) (place : ℕ × ℕ) → IsAt blob path place → IsAt (blob ++ more) path place
IsAt-append blob more path place (within, same, off_fits, len_fits) = (
  omega (arith, length-append blob more),
  slice-append place.0 place.1 blob more within ∙ same,
  off_fits,
  len_fits,
)

-- the part that is appended
IsAt-end :
    (blob path : Bytes)
    → length blob < 2 ^ 64
    → length path < 2 ^ 32
    → IsAt (blob ++ path) path (length blob, length path)
IsAt-end blob path h k = (
  omega (arith, length-append blob path),
  ap (take (length path)) (drop-length blob path) ∙ take_all path,
  h,
  k,
)

-- One step: the path has a place, the others keep theirs.
catalog_step-Placed :
    (catalog : PathCatalog) (entry : BinaryEntry) {next : PathCatalog}
    → catalog_step catalog entry ≡ ok next
    → Placed catalog
    → Placed next
      × Has next (from_utf8_lossy entry.path)
      × ((path : Bytes) → Has catalog path → Has next path)
catalog_step-Placed catalog entry h placed =
    let (off_fits, len_fits, same) = catalog_step-ok catalog entry h in
    subst
      (λ c.
        Placed c
        × Has c (from_utf8_lossy entry.path)
        × ((path : Bytes) → Has catalog path → Has c path))
      same (at_place off_fits len_fits, (place, found), kept)
  where
    text : Bytes
    text = from_utf8_lossy entry.path

    place : ℕ × ℕ
    place = (length catalog.blob, length text)

    looked :
        (path : Bytes)
        → find path (put text place catalog.offsets)
          ≡ (if eq_text text path then some place else find path catalog.offsets)
    looked path = find-put text path place catalog.offsets

    found : find text (put text place catalog.offsets) ≡ some place
    found = looked text ∙ rw (eq_text_refl text) refl

    kept :
        (path : Bytes)
        → Has catalog path
        → (p : ℕ × ℕ) × (find path (put text place catalog.offsets) ≡ some p)
    kept path (old, e) = elim (Bool-cases (eq_text text path)) [
      | inl same ↦ (place, looked path ∙ rw same refl)
      | inr other ↦ (old, looked path ∙ rw other e)
    ]

    some-injective : {a b : ℕ × ℕ} → some a ≡ some b → a ≡ b
    some-injective e = cc

    at_place :
        length catalog.blob < 2 ^ 64
        → length text < 2 ^ 32
        → (path : Bytes) (p : ℕ × ℕ) → find path (put text place catalog.offsets) ≡ some p
        → IsAt (catalog.blob ++ text) path p
    at_place h k path p e = elim (Bool-cases (eq_text text path)) [
      | inl same ↦
          let path_of : text ≡ path = (eq_text_iff text path).0 same in
          let place_of : place ≡ p = some-injective (sym (looked path ∙ rw same refl) ∙ e) in
          subst (λ q. IsAt (catalog.blob ++ text) path q) place_of
            (subst (λ t. IsAt (catalog.blob ++ text) t place) path_of
              (IsAt-end catalog.blob text h k))
      | inr other ↦
          IsAt-append catalog.blob text path p
            (placed path p (sym (looked path ∙ rw other refl) ∙ e))
    ]

catalog_loop-Placed :
    (catalog : PathCatalog) (entries : List BinaryEntry) {last : PathCatalog}
    → catalog_loop catalog entries ≡ ok last
    → Placed catalog
    → Placed last
      × All (λ (e : BinaryEntry). Has last (from_utf8_lossy e.path)) entries
      × ((path : Bytes) → Has catalog path → Has last path)
unfolding catalog_loop
catalog_loop-Placed catalog [] h placed =
    subst (λ c. Placed c × Unit {0} × ((path : Bytes) → Has catalog path → Has c path))
      (ok-injective h) (placed, tt, λ path has. has)
  where
    ok-injective : {a b : PathCatalog} → Result.ok a ≡ ok b → a ≡ b
    ok-injective e = cc
catalog_loop-Placed catalog (entry ∷ rest) h placed =
    let (next, stepped, later) = >>=-ok (catalog_step catalog entry) _ h in
    let (placed', has, kept) = catalog_step-Placed catalog entry stepped placed in
    let (placed'', others, kept') = catalog_loop-Placed next rest later placed' in
    (placed'', (kept' _ has, others), λ path old. kept' path (kept path old))

-- Each entry's path stands in the blob at its place.
pub build_path_catalog-Placed :
    (entries : List BinaryEntry) {catalog : PathCatalog}
    → build_path_catalog entries ≡ ok catalog
    → Placed catalog × All (λ (e : BinaryEntry). Has catalog (from_utf8_lossy e.path)) entries
unfolding build_path_catalog find
build_path_catalog-Placed entries h =
    let (placed, has, _) =
      catalog_loop-Placed empty_catalog entries h (λ path place e. absurd (cc)) in
    (placed, has)
