-- ===== src/Index/Entries.antt =====
-- paths.bin and entries.bin of crates/termlm-indexer/src/store.rs: `build_path_catalog`,
-- `build_entry_stats`, `write_paths_bin`, `write_entries_bin`, `read_entries_v1`. What is written to a file is the
-- result of its writer.
pub mod Catalog
pub mod RoundTrip
use termlm.Base.{
  ℕ, zero, suc, ◌+◌, ◌*◌, ◌%◌, ◌^◌, ◌-◌, min, Bool, true, false, not, ◌&&◌, List, [], ◌∷◌, ◌++◌,
  Option, none, some, ltb, ◌==◌, if◌then◌else◌, length, take, drop,
}
use termlm.Base.Text.{codes, eq_text, is_empty}
use termlm.Index.Bytes.{Bytes, Result, ok, err, ◌>>=◌, checked, le_bytes, le_at, read_blob_bytes}
use termlm.Index.Utf8.{from_utf8, from_utf8_lossy}
use termlm.Index.Names.{find, put}
use termlm.Index.Records.{BinaryEntry, Chunk}
use termlm.Shell.{usize_max}

abbrev pub PathRow : Type 0
PathRow = Bytes × (ℕ × ℕ)

pub record PathCatalog : Type 0 where
  pub blob : Bytes
  pub offsets : List PathRow

unfoldable pub catalog_step : PathCatalog → BinaryEntry → Result PathCatalog
catalog_step catalog entry = do
  let path = from_utf8_lossy entry.path
  off ← checked (2 ^ 64) (length catalog.blob) "paths blob offset overflow"
  len ← checked (2 ^ 32) (length path) "path length overflow"
  ok (record { blob = catalog.blob ++ path; offsets = put path (off, len) catalog.offsets })

unfoldable pub catalog_loop : PathCatalog → List BinaryEntry → Result PathCatalog
catalog_loop catalog [] = ok catalog
catalog_loop catalog (entry ∷ rest) = catalog_step catalog entry >>= λ next. catalog_loop next rest

abbrev pub empty_catalog : PathCatalog
empty_catalog = record { blob = []; offsets = [] }

unfoldable pub build_path_catalog : List BinaryEntry → Result PathCatalog
build_path_catalog entries = catalog_loop empty_catalog entries

unfoldable pub write_paths_bin : List BinaryEntry → Result Bytes
write_paths_bin entries = do catalog ← build_path_catalog entries; ok catalog.blob

pub record EntryStats : Type 0 where
  pub chunk_first : ℕ
  pub chunk_count : ℕ
  pub doc_off : ℕ
  pub doc_len : ℕ

abbrev pub no_stats : EntryStats
no_stats = record { chunk_first = 0; chunk_count = 0; doc_off = 0; doc_len = 0 }

abbrev u32_max : ℕ
u32_max = 2 ^ 32 - 1

abbrev u64_max : ℕ
u64_max = 2 ^ 64 - 1

abbrev pub stats_or : EntryStats → Option EntryStats → EntryStats
stats_or s none = s
stats_or s (some found) = found

unfoldable pub count_chunk : ℕ → ℕ → EntryStats → EntryStats
count_chunk offset byte_len entry = record {
  chunk_first = entry.chunk_first;
  chunk_count = min (entry.chunk_count + 1) u32_max;
  doc_off = if entry.doc_len == 0 then offset else entry.doc_off;
  doc_len = min (entry.doc_len + byte_len) u64_max;
}

unfoldable pub stats_loop :
    ℕ → ℕ → List (Bytes × EntryStats) → List Chunk → List (Bytes × EntryStats)
unfolding count_chunk
stats_loop idx offset stats [] = stats
stats_loop idx offset stats (chunk ∷ rest) =
    let byte_len = length chunk.text in
    let fresh : EntryStats = record no_stats { chunk_first = idx % 2 ^ 32 } in
    let entry = stats_or fresh (find chunk.path stats) in
    stats_loop (idx + 1) (min (offset + byte_len) u64_max)
      (put chunk.path (count_chunk offset byte_len entry) stats) rest

unfoldable pub build_entry_stats : List Chunk → List (Bytes × EntryStats)
unfolding stats_loop
build_entry_stats chunks = stats_loop 0 0 [] chunks

abbrev pub entries_magic : Bytes
entries_magic = codes "TLME0001"

abbrev pub entry_record_bytes : ℕ
entry_record_bytes = 60

-- one row of the table
abbrev pub entry_row : ℕ × ℕ → EntryStats → BinaryEntry → Bytes
entry_row place s e =
    le_bytes 8 place.0
    ++ (le_bytes 4 place.1
        ++ (le_bytes 8 e.mtime_secs
            ++ (le_bytes 8 e.size
                ++ (le_bytes 8 e.inode
                    ++ (le_bytes 8 s.doc_off
                        ++ (le_bytes 8 s.doc_len
                            ++ (le_bytes 4 s.chunk_first ++ le_bytes 4 s.chunk_count)))))))

abbrev pub place_or : Option (ℕ × ℕ) → ℕ × ℕ
place_or none = (0, 0)
place_or (some place) = place

unfoldable pub entry_rows : List PathRow → List (Bytes × EntryStats) → List BinaryEntry → Bytes
entry_rows offsets stats [] = []
entry_rows offsets stats (e ∷ rest) =
    let path = from_utf8_lossy e.path in
    entry_row (place_or (find path offsets)) (stats_or no_stats (find path stats)) e
    ++ entry_rows offsets stats rest

unfoldable pub write_entries_bin : List BinaryEntry → List Chunk → Result Bytes
write_entries_bin entries chunks = do
  catalog ← build_path_catalog entries
  ok (
      entries_magic
      ++ (le_bytes 4 (length entries)
          ++ entry_rows catalog.offsets (build_entry_stats chunks) entries))

-- `Path::file_name`: the last component that is neither empty nor `.`, unless it is `..`
abbrev cons_part : ℕ → List Bytes → List Bytes
cons_part c [] = (c ∷ []) ∷ []
cons_part c (p ∷ ps) = (c ∷ p) ∷ ps

unfoldable pub components : Bytes → List Bytes
components [] = [] ∷ []
components (c ∷ cs) = let rest = components cs in if c == b'/' then [] ∷ rest else cons_part c rest

abbrev is_named : Bytes → Bool
is_named part = not (is_empty part) && not (eq_text part (codes "."))

unfoldable pub last_named : List Bytes → Option Bytes → Option Bytes
last_named [] found = found
last_named (part ∷ rest) found = last_named rest (if is_named part then some part else found)

unfoldable pub file_name : Bytes → Option Bytes
unfolding components last_named
file_name path = elim (last_named (components path) none) [
  | none ↦ none
  | some part ↦ if eq_text part (codes "..") then none else some part
]

unfoldable pub derive_command_name : Bytes → Bytes
derive_command_name path = elim (file_name path) [ none ↦ path | some name ↦ name ]

unfoldable pub read_blob_str : Bytes → ℕ → ℕ → Option Bytes
read_blob_str blob off len = elim (read_blob_bytes blob off len) [
  | none ↦ none
  | some bytes ↦ from_utf8 bytes
]

abbrev pub text_or_empty : Option Bytes → Bytes
text_or_empty none = []
text_or_empty (some text) = text

-- the row at `base`; the file is long enough for it
unfoldable pub read_entry : Bytes → Bytes → ℕ → BinaryEntry
read_entry raw paths_blob base =
    let path =
      text_or_empty (read_blob_str paths_blob (le_at 8 raw base) (le_at 4 raw (base + 8))) in
    record {
      name = derive_command_name path;
      path = path;
      mtime_secs = le_at 8 raw (base + 12);
      size = le_at 8 raw (base + 20);
      inode = le_at 8 raw (base + 28);
    }

unfoldable pub read_entry_rows : Bytes → Bytes → ℕ → ℕ → List BinaryEntry
read_entry_rows raw paths_blob zero base = []
read_entry_rows raw paths_blob (suc count) base =
    read_entry raw paths_blob base
    ∷ read_entry_rows raw paths_blob count (base + entry_record_bytes)

unfoldable pub read_entries_v1 : Bytes → Bytes → Result (List BinaryEntry)
read_entries_v1 raw paths_blob =
    let count = le_at 4 raw 8 in
    let row_bytes = count * entry_record_bytes in
    if ltb (length raw) 12
    then err "entries.bin too short"
    else if not (eq_text (take 8 raw) entries_magic)
    then err "entries.bin has unsupported magic"
    else if ltb usize_max row_bytes
    then err "entries size overflow"
    else if ltb usize_max (12 + row_bytes)
    then err "entries file size overflow"
    else if ltb (length raw) (12 + row_bytes)
    then err "entries.bin truncated"
    else ok (read_entry_rows raw paths_blob count 12)
