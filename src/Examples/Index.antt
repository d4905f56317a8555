-- ===== src/Examples/Index.antt =====
-- The theorems on the index's files at concrete inputs.
use termlm.Base.{true, List, [], ◌∷◌, ◌++◌, map, ◌≡◌, refl, ◌^◌, ◌<◌, All, arith}
use termlm.Base.Text.{codes, eq_text}
use termlm.Index.Bytes.{Bytes, ok}
use termlm.Index.Records.{BinaryEntry}
use termlm.Index.Utf8.{is_utf8, completes, ranges_after, from_utf8_lossy}
use termlm.Index.Entries.{
  write_paths_bin, build_path_catalog, catalog_loop, catalog_step, write_entries_bin,
  read_entries_v1, derive_command_name, file_name, components, last_named,
}
use termlm.Index.Entries.RoundTrip.{IsStorable, renamed, read_entries_v1-write_entries_bin}
use termlm.Index.Names.{put, delete}

abbrev ls : BinaryEntry
ls = record {
  name = codes "ls";
  path = codes "/bin/ls";
  mtime_secs = 1700000000;
  size = 142144;
  inode = 77;
}

abbrev cafe : BinaryEntry
cafe = record {
  name = codes "stale";
  path = codes "/opt/caf" ++ 0xc3 ∷ 0xa9 ∷ [];
  mtime_secs = 5;
  size = 9;
  inode = 2 ^ 40;
}

abbrev found : List BinaryEntry
found = ls ∷ cafe ∷ []

abbrev paths : Bytes
paths = ls.path ++ cafe.path

paths_written : write_paths_bin found ≡ ok paths
unfolding write_paths_bin build_path_catalog catalog_loop catalog_step from_utf8_lossy put delete
    eq_text
paths_written = refl

written : (file : Bytes) × (write_entries_bin found [] ≡ ok file)
unfolding write_entries_bin build_path_catalog catalog_loop catalog_step from_utf8_lossy put delete
    eq_text
written = (_, refl)

storable :
    (e : BinaryEntry)
    → is_utf8 e.path ≡ true
    → e.mtime_secs < 2 ^ 64
    → e.size < 2 ^ 64
    → e.inode < 2 ^ 64
    → IsStorable e
storable e valid mtime size inode = record {
  path_valid = valid;
  mtime_fits = mtime;
  size_fits = size;
  inode_fits = inode;
}

found-IsStorable : All IsStorable found
unfolding is_utf8 completes ranges_after
found-IsStorable = (
  storable ls refl (omega arith) (omega arith) (omega arith),
  (storable cafe refl (omega arith) (omega arith) (omega arith), tt),
)

read_entries_v1-write_entries_bin_example : read_entries_v1 written.0 paths ≡ ok (map renamed found)
read_entries_v1-write_entries_bin_example =
    read_entries_v1-write_entries_bin found [] paths_written written.1 (omega arith) (omega arith)
      found-IsStorable

-- the names come from the paths
names :
    map (λ (e : BinaryEntry). (renamed e).name) found
    ≡ codes "ls" ∷ (codes "caf" ++ 0xc3 ∷ 0xa9 ∷ []) ∷ []
unfolding derive_command_name file_name components last_named eq_text
names = refl
