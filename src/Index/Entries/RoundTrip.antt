-- ===== src/Index/Entries/RoundTrip.antt =====
-- entries.bin is read back with paths.bin as it was written.
use mathlib.Core.Path.{subst}
use termlm.Base.{
  ℕ, ◌+◌, ◌*◌, ◌^◌, ◌≤◌, ◌<◌, true, false, List, [], ◌∷◌, ◌++◌, Option, none, some, map, ◌≡◌, ◌∙◌,
  refl, sym, ap, arith, ltb, length, take, drop, All,
}
use termlm.Base.Text.{eq_text}
use termlm.Shell.{usize_max}
use termlm.Index.Bytes.{
  Bytes, Result, ok, >>=-ok, le_bytes, le_at, le_at-le_bytes, u32-Fits, u64-Fits, drop-drop,
  read_blob_bytes,
}
use termlm.Index.Utf8.{is_utf8, from_utf8, from_utf8_lossy, from_utf8_lossy-is_utf8}
use termlm.Index.Names.{find, eq_text_refl}
use termlm.Index.Records.{BinaryEntry, Chunk}
use termlm.Index.Entries.{
  PathRow, PathCatalog, EntryStats, stats_or, no_stats, entries_magic, entry_record_bytes,
  entry_row, place_or, entry_rows, build_path_catalog, write_paths_bin, build_entry_stats,
  write_entries_bin, derive_command_name, read_blob_str, read_entry, read_entry_rows,
  read_entries_v1,
}
use termlm.Index.Entries.Catalog.{IsAt, Has, Placed, build_path_catalog-Placed}

-- The numbers of an entry fit their fields, and its path is a `String`.
pub record IsStorable (e : BinaryEntry) : Type 0 where
  pub path_valid : is_utf8 e.path ≡ true
  pub mtime_fits : e.mtime_secs < 2 ^ 64
  pub size_fits : e.size < 2 ^ 64
  pub inode_fits : e.inode < 2 ^ 64

-- An entry with the name that its path gives.
abbrev pub renamed : BinaryEntry → BinaryEntry
renamed e = record e { name = derive_command_name e.path }

read_blob_bytes-IsAt :
    (blob path : Bytes) (place : ℕ × ℕ)
    → length blob ≤ usize_max
    → IsAt blob path place
    → read_blob_bytes blob place.0 place.1 ≡ some path
unfolding read_blob_bytes
read_blob_bytes-IsAt blob path place small (within, same, _, _) =
    let fits : ltb usize_max (place.0 + place.1) ≡ false = ground arith in
    let inside : ltb (length blob) (place.0 + place.1) ≡ false = ground arith in
    rw (fits, inside) (ap some same)

read_blob_str-IsAt :
    (blob path : Bytes) (place : ℕ × ℕ)
    → length blob ≤ usize_max
    → IsAt blob path place
    → is_utf8 path ≡ true
    → read_blob_str blob place.0 place.1 ≡ some path
unfolding read_blob_str from_utf8
read_blob_str-IsAt blob path place small at_place valid =
    ap (λ o. elim o as (λ _. Option Bytes) [ none ↦ none | some bytes ↦ from_utf8 bytes ])
      (read_blob_bytes-IsAt blob path place small at_place)
    ∙ rw valid refl

read_entry-entry_row :
    (raw blob : Bytes) (base : ℕ) (place : ℕ × ℕ) (s : EntryStats) (e : BinaryEntry) (rest : Bytes)
    → drop base raw ≡ entry_row place s e ++ rest
    → length blob ≤ usize_max
    → IsAt blob e.path place
    → IsStorable e
    → read_entry raw blob base ≡ renamed e
unfolding read_entry le_bytes
read_entry-entry_row raw blob base place s e rest stands small at_place v =
    let off = le_at-le_bytes 8 raw base place.0 _ stands (u64-Fits place.0 at_place.2) in
    let len =
      le_at-le_bytes 4 raw (base + 8) place.1 _ (sym (drop-drop base 8 raw) ∙ ap (drop 8) stands)
        (u32-Fits place.1 at_place.3) in
    let mtime =
      le_at-le_bytes 8 raw (base + 12) e.mtime_secs _
        (sym (drop-drop base 12 raw) ∙ ap (drop 12) stands) (u64-Fits e.mtime_secs v.mtime_fits) in
    let size =
      le_at-le_bytes 8 raw (base + 20) e.size _ (sym (drop-drop base 20 raw) ∙ ap (drop 20) stands)
        (u64-Fits e.size v.size_fits) in
    let inode =
      le_at-le_bytes 8 raw (base + 28) e.inode _ (sym (drop-drop base 28 raw) ∙ ap (drop 28) stands)
        (u64-Fits e.inode v.inode_fits) in
    rw
      (
        off,
        len,
        mtime,
        size,
        inode,
        read_blob_str-IsAt blob e.path place small at_place v.path_valid,
      )
      refl

-- The rows from `base` on.
read_entry_rows-entry_rows :
    (raw blob : Bytes) (offsets : List PathRow) (stats : List (Bytes × EntryStats))
    (es : List BinaryEntry) (base : ℕ)
    → drop base raw ≡ entry_rows offsets stats es
    → length blob ≤ usize_max
    → Placed (record { blob = blob; offsets = offsets })
    → All
        (λ (e : BinaryEntry).
          Has (record { blob = blob; offsets = offsets }) (from_utf8_lossy e.path))
        es
    → All IsStorable es
    → read_entry_rows raw blob (length es) base ≡ map renamed es
unfolding read_entry_rows entry_rows
read_entry_rows-entry_rows raw blob offsets stats [] base stands small placed has v = refl
read_entry_rows-entry_rows raw blob offsets stats (e ∷ es) base stands small placed (h, has)
      (w, v) =
    let s = stats_or no_stats (find (from_utf8_lossy e.path) stats) in
    let (place, found) = h in
    let path = from_utf8_lossy-is_utf8 e.path w.path_valid in
    let here : drop base raw ≡ entry_row place s e ++ entry_rows offsets stats es =
      stands ∙ ap (λ o. entry_row (place_or o) s e ++ entry_rows offsets stats es) found in
    let at_place = subst (λ t. IsAt blob t place) path (placed _ place found) in
    let first = read_entry-entry_row raw blob base place s e _ here small at_place w in
    let next : drop (base + entry_record_bytes) raw ≡ entry_rows offsets stats es =
      sym (drop-drop base 60 raw)
      ∙ (ap (drop 60) here ∙ drop_row place s e (entry_rows offsets stats es)) in
    ap (λ x. x ∷ read_entry_rows raw blob (length es) (base + entry_record_bytes)) first
    ∙ ap (λ l. renamed e ∷ l)
        (read_entry_rows-entry_rows raw blob offsets stats es (base + entry_record_bytes) next small
          placed has v)
  where
    drop_row :
        (place : ℕ × ℕ) (s : EntryStats) (e : BinaryEntry) (rest : Bytes)
        → drop 60 (entry_row place s e ++ rest) ≡ rest
    drop_row place s e rest = unfold le_bytes in refl

length-entry_rows :
    (offsets : List PathRow) (stats : List (Bytes × EntryStats)) (es : List BinaryEntry)
    → length (entry_rows offsets stats es) ≡ length es * entry_record_bytes
unfolding entry_rows
length-entry_rows offsets stats [] = refl
length-entry_rows offsets stats (e ∷ es) =
    let path = from_utf8_lossy e.path in
    let row =
      row_size (place_or (find path offsets)) (stats_or no_stats (find path stats)) e
        (entry_rows offsets stats es) in
    omega (arith, row, length-entry_rows offsets stats es)
  where
    row_size :
        (place : ℕ × ℕ) (s : EntryStats) (e : BinaryEntry) (rest : Bytes)
        → length (entry_row place s e ++ rest) ≡ 60 + length rest
    row_size place s e rest = unfold le_bytes in omega arith

write_entries_bin-ok :
    (entries : List BinaryEntry) (chunks : List Chunk) {catalog : PathCatalog}
    → build_path_catalog entries ≡ ok catalog
    → write_entries_bin entries chunks
      ≡ ok (
          entries_magic
          ++ (le_bytes 4 (length entries)
              ++ entry_rows catalog.offsets (build_entry_stats chunks) entries))
unfolding write_entries_bin
write_entries_bin-ok entries chunks built = rw built refl

-- A file with a sound head is read row by row.
read_entries_v1-head :
    (raw blob rows : Bytes) (count : ℕ)
    → raw ≡ entries_magic ++ (le_bytes 4 count ++ rows)
    → length rows ≡ count * entry_record_bytes
    → count < 2 ^ 32
    → read_entries_v1 raw blob ≡ ok (read_entry_rows raw blob count 12)
unfolding read_entries_v1
read_entries_v1-head raw blob rows count same size small =
    let counted : le_at 4 raw 8 ≡ count =
      le_at-le_bytes 4 raw 8 count rows (ap (drop 8) same) (u32-Fits count small) in
    let long : length raw ≡ 12 + length rows = ap length same ∙ head_size count rows in
    let enough : ltb (length raw) 12 ≡ false = ground arith in
    let magic : eq_text (take 8 raw) entries_magic ≡ true =
      ap (λ r. eq_text (take 8 r) entries_magic) same ∙ eq_text_refl entries_magic in
    let no_overflow : ltb usize_max (count * 60) ≡ false = ground arith in
    let no_overflow' : ltb usize_max (12 + count * 60) ≡ false = ground arith in
    let whole : ltb (length raw) (12 + count * 60) ≡ false = ground arith in
    rw (counted, enough, magic, no_overflow, no_overflow', whole) refl
  where
    head_size :
        (count : ℕ) (rows : Bytes)
        → length (entries_magic ++ (le_bytes 4 count ++ rows)) ≡ 12 + length rows
    head_size count rows = unfold le_bytes in omega arith

ok-injective : {a b : Bytes} → Result.ok a ≡ ok b → a ≡ b
ok-injective e = cc

read_back :
    (entries : List BinaryEntry) (chunks : List Chunk) (catalog : PathCatalog) {raw : Bytes}
    → build_path_catalog entries ≡ ok catalog
    → write_entries_bin entries chunks ≡ ok raw
    → length catalog.blob ≤ usize_max
    → length entries < 2 ^ 32
    → All IsStorable entries
    → read_entries_v1 raw catalog.blob ≡ ok (map renamed entries)
read_back entries chunks catalog {raw} built written small few storable =
    let rows = entry_rows catalog.offsets (build_entry_stats chunks) entries in
    let same : raw ≡ entries_magic ++ (le_bytes 4 (length entries) ++ rows) =
      ok-injective (sym written ∙ write_entries_bin-ok entries chunks built) in
    let (placed, has) = build_path_catalog-Placed entries built in
    let behind : drop 12 raw ≡ rows = ap (drop 12) same ∙ unfold le_bytes in refl in
    read_entries_v1-head raw catalog.blob rows (length entries) same
      (length-entry_rows catalog.offsets (build_entry_stats chunks) entries) few
    ∙ ap ok (
        read_entry_rows-entry_rows raw catalog.blob catalog.offsets (build_entry_stats chunks)
          entries 12 behind small placed has storable)

-- Where paths.bin and entries.bin were written without an error, paths.bin has at most 2 ^ 64 - 1
-- bytes, and there are fewer than 2 ^ 32 entries, with valid paths and numbers that fit their
-- fields, the reader gives back the same entries in the same order, each with the name that its
-- path gives.
pub read_entries_v1-write_entries_bin :
    (entries : List BinaryEntry) (chunks : List Chunk) {blob raw : Bytes}
    → write_paths_bin entries ≡ ok blob
    → write_entries_bin entries chunks ≡ ok raw
    → length blob ≤ usize_max
    → length entries < 2 ^ 32
    → All IsStorable entries
    → read_entries_v1 raw blob ≡ ok (map renamed entries)
unfolding write_paths_bin
read_entries_v1-write_entries_bin entries chunks {blob} {raw} paths written small few storable =
    let (catalog, built, same) = >>=-ok (build_path_catalog entries) _ paths in
    let here : catalog.blob ≡ blob = ok-injective same in
    subst (λ b. read_entries_v1 raw b ≡ ok (map renamed entries)) here
      (read_back entries chunks catalog built written (rw here small) few storable)
