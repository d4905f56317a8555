-- ===== src/Index/Lookup.antt =====
-- `lookup_command_docs` of crates/termlm-indexer/src/lookup.rs: the documentation of a command, or
-- the names that are near to it. `none` is the panic of `String::truncate` inside a character.
use termlm.Base.{
  ℕ, zero, suc, ◌+◌, ◌-◌, ◌*◌, ◌%◌, Bool, true, false, not, ◌&&◌, List, [], ◌∷◌, ◌++◌, Option, none,
  some, ltb, leb, if◌then◌else◌, any, length, take, reverse,
}
use termlm.Base.Text.{Text, codes, eq_text, is_empty, to_ascii_lowercase}
use termlm.Planning.Round.{insert_text}
use termlm.Index.Bytes.{Bytes}
use termlm.Index.Records.{Chunk}
use termlm.Index.Levenshtein.{levenshtein}

-- `chars` of a `String`: a byte of the form 10xxxxxx goes on a character
abbrev push_byte : Text → ℕ → Text
push_byte [] b = b ∷ []
push_byte (c ∷ cs) b = if leb 0x80 b && leb b 0xbf then (c * 64 + b % 64) ∷ cs else b ∷ c ∷ cs

-- the bits of a first byte
abbrev lead : ℕ → ℕ
lead b =
    if leb 0xf0 b
    then b - 0xf0
    else if leb 0xe0 b
    then b - 0xe0
    else if leb 0xc0 b
    then b - 0xc0
    else b

-- the characters so far, the last one first
unfoldable pub chars_loop : Text → Bytes → Text
chars_loop held [] = held
chars_loop held (b ∷ bytes) = chars_loop (push_byte held (if leb 0xc0 b then lead b else b)) bytes

-- a boundary of a character
unfoldable pub is_char_boundary : Bytes → ℕ → Bool
is_char_boundary [] zero = true
is_char_boundary [] (suc n) = false
is_char_boundary (b ∷ bytes) zero = not (leb 0x80 b && leb b 0xbf)
is_char_boundary (b ∷ bytes) (suc n) = is_char_boundary bytes n

pub record LookupResult : Type 0 where
  pub name : Bytes
  pub section : Option Bytes
  pub text : Bytes
  pub truncated : Bool

pub data Lookup : Type 0 where
  found : LookupResult → Lookup
  suggestions : List Bytes → Lookup

-- `sort_by_key`, which is stable
module _ {A : Type 0} (key : A → ℕ) where
  unfoldable pub insert_by : A → List A → List A
  insert_by x [] = x ∷ []
  insert_by x (y ∷ ys) =
      let rest = insert_by x ys in if leb (key x) (key y) then x ∷ y ∷ ys else y ∷ rest

  unfoldable pub sort_by : List A → List A
  sort_by [] = []
  sort_by (x ∷ xs) = insert_by x (sort_by xs)

-- `sort` and `dedup`
unfoldable pub sorted_names : List Chunk → List Bytes
sorted_names [] = []
sorted_names (c ∷ chunks) = insert_text c.command_name (sorted_names chunks)

abbrev pub distance_to : Bytes → Bytes → ℕ
distance_to needle name =
    levenshtein (reverse (chars_loop [] name)) (reverse (chars_loop [] needle))

unfoldable pub fuzzy_suggestions : List Chunk → Bytes → ℕ → List Bytes
fuzzy_suggestions chunks needle limit =
    take limit (sort_by (distance_to needle) (sorted_names chunks))

unfoldable pub matching_chunks : (Chunk → Bool) → List Chunk → List Chunk
matching_chunks p [] = []
matching_chunks p (c ∷ chunks) =
    let others = matching_chunks p chunks in if p c then c ∷ others else others

abbrev pub is_of_command : Bytes → Chunk → Bool
is_of_command name c = eq_text c.command_name name

abbrev pub is_of_section : Bytes → Chunk → Bool
is_of_section section c = eq_text (to_ascii_lowercase c.section_name) (to_ascii_lowercase section)

unfoldable pub first_per_section : List Bytes → List Chunk → List Chunk
first_per_section seen [] = []
first_per_section seen (c ∷ chunks) =
    let key = to_ascii_lowercase c.section_name in
    let known = any (eq_text key) seen in
    let others = first_per_section (if known then seen else key ∷ seen) chunks in
    if known then others else c ∷ others

unfoldable pub first_chunk_per_section : List Chunk → List Chunk
first_chunk_per_section chunks = first_per_section [] chunks

unfoldable pub select_chunks : Option Bytes → List Chunk → List Chunk
select_chunks none matching = first_chunk_per_section matching
select_chunks (some section) matching =
    let hits = matching_chunks (is_of_section section) matching in
    if is_empty hits then first_chunk_per_section matching else hits

unfoldable pub render_chunks : Bytes → List Chunk → Bytes
render_chunks out [] = out
render_chunks out (c ∷ chunks) =
    render_chunks
      ((if is_empty out then out else out ++ codes "\n\n")
        ++ (codes "### " ++ (c.section_name ++ (b'\n' ∷ c.text))))
      chunks

-- `…` in UTF-8 and the hint behind it
abbrev pub truncation_hint : Bytes
truncation_hint = b'\n' ∷ 0xe2 ∷ 0x80 ∷ 0xa6 ∷ codes " [truncated; specify section= for more]"

unfoldable pub bounded : Bytes → Option Bytes → ℕ → Bytes → Option Lookup
bounded name section max_bytes out =
    if ltb max_bytes (length out)
    then (if is_char_boundary out max_bytes
        then some (
            found (record {
              name = name;
              section = section;
              text = take max_bytes out ++ truncation_hint;
              truncated = true;
            }))
        else none)
    else some (found (record { name = name; section = section; text = out; truncated = false }))

unfoldable pub lookup_command_docs : List Chunk → Bytes → Option Bytes → ℕ → Option Lookup
lookup_command_docs chunks name section max_bytes =
    let matching = matching_chunks (is_of_command name) chunks in
    if is_empty matching
    then some (suggestions (fuzzy_suggestions chunks name 5))
    else bounded name section max_bytes
        (render_chunks [] (select_chunks section (sort_by (λ (c : Chunk). c.chunk_index) matching)))
