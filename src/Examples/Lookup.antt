-- ===== src/Examples/Lookup.antt =====
-- Look-ups of documentation.
use termlm.Base.{ℕ, false, List, [], ◌∷◌, ◌++◌, none, some, ◌≡◌, refl, reverse}
use termlm.Base.Text.{Text, codes, eq_text, to_ascii_lowercase}
use termlm.Planning.Round.{insert_text, text_ltb}
use termlm.Index.Records.{Chunk}
use termlm.Index.Levenshtein.{
  levenshtein, rows_loop, row_loop, count_from, edit_distance, levenshtein-edit_distance,
}
use termlm.Index.Lookup.{
  found, suggestions, chars_loop, is_char_boundary, insert_by, sort_by, sorted_names,
  fuzzy_suggestions, matching_chunks, first_per_section, first_chunk_per_section, select_chunks,
  render_chunks, bounded, lookup_command_docs,
}
use termlm.Index.Found.{Answers, lookup_command_docs-Answers}

three : levenshtein (codes "kitten") (codes "sitting") ≡ 3
unfolding levenshtein rows_loop row_loop count_from
three = refl

levenshtein-edit_distance_example :
    levenshtein (codes "gti") (codes "git")
    ≡ edit_distance (reverse (codes "gti")) (reverse (codes "git"))
levenshtein-edit_distance_example = levenshtein-edit_distance (codes "gti") (codes "git")

abbrev chunk : Text → ℕ → Text → Text → Chunk
chunk name index section text = record {
  command_name = name;
  path = codes "/bin/" ++ name;
  extraction_method = codes "man";
  section_name = section;
  chunk_index = index;
  total_chunks = 2;
  doc_hash = [];
  extracted_at = record { secs = 0; nanos = 0 };
  text = text;
}

abbrev chunks : List Chunk
chunks =
    chunk (codes "git") 1 (codes "OPTIONS") (codes "-v")
    ∷ chunk (codes "git") 0 (codes "NAME") (codes "git")
    ∷ chunk (codes "tar") 0 (codes "NAME") (codes "tar")
    ∷ []

docs :
    lookup_command_docs chunks (codes "git") (some (codes "options")) 100
    ≡ some (
        found (record {
          name = codes "git";
          section = some (codes "options");
          text = codes "### OPTIONS\n-v";
          truncated = false;
        }))
unfolding lookup_command_docs bounded render_chunks select_chunks matching_chunks sort_by insert_by
    eq_text to_ascii_lowercase
docs = refl

lookup_command_docs-Answers_example : Answers chunks (codes "git") 100 (
    found (record {
      name = codes "git";
      section = some (codes "options");
      text = codes "### OPTIONS\n-v";
      truncated = false;
    }))
lookup_command_docs-Answers_example =
    lookup_command_docs-Answers chunks (codes "git") (some (codes "options")) 100 docs

-- the nearest name comes first
near :
    lookup_command_docs chunks (codes "gti") none 100
    ≡ some (suggestions (codes "git" ∷ codes "tar" ∷ []))
unfolding lookup_command_docs fuzzy_suggestions sorted_names matching_chunks sort_by insert_by
    insert_text text_ltb eq_text chars_loop levenshtein rows_loop row_loop count_from
near = refl

-- A text that is cut inside a character: the code panics.
cut_inside :
    lookup_command_docs
      (chunk (codes "git") 0 (codes "NAME") (0xc3 ∷ 0xa9 ∷ []) ∷ [])
      (codes "git")
      none
      10
    ≡ none
unfolding lookup_command_docs bounded is_char_boundary render_chunks select_chunks
    first_chunk_per_section first_per_section matching_chunks sort_by insert_by eq_text
    to_ascii_lowercase
cut_inside = refl
