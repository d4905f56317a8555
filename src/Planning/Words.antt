-- ===== src/Planning/Words.antt =====
-- The findings of crates/termlm-core/src/planning/mod.rs, and its tests of the words and flags of a
-- text.
use termlm.Base.{
  ℕ, Bool, not, ◌&&◌, ◌||◌, List, [], ◌∷◌, ◌++◌, map, String, ltb, ◌==◌, if◌then◌else◌, any,
}
use termlm.Base.Text.{
  Text, codes, contains, contains_char, starts_with, eq_text, byte_len, split_by, split_whitespace,
  first_piece, is_ascii_alphanumeric,
}

pub record ValidationFinding : Type 0 where
  pub kind : Text
  pub detail : Text

abbrev pub finding : String → String → ValidationFinding
finding kind detail = record { kind = codes kind; detail = codes detail }

abbrev pub is_kind : String → ValidationFinding → Bool
is_kind kind f = eq_text f.kind (codes kind)

-- `contains` and `starts_with` of a literal
unfoldable pub has : Text → String → Bool
has text needle = contains text (codes needle)

unfoldable pub begins : Text → String → Bool
begins text prefix = starts_with text (codes prefix)

-- one of the literals
unfoldable pub is_one_of : List String → Text → Bool
is_one_of words text = any (λ word. eq_text text (codes word)) words

unfoldable pub prompt_contains_word : Text → String → Bool
prompt_contains_word prompt word =
    any (λ token. eq_text token (codes word))
      (split_by (λ ch. not (is_ascii_alphanumeric ch)) prompt)

unfoldable pub command_contains_word : Text → String → Bool
command_contains_word command word =
    any (λ token. eq_text token (codes word))
      (split_by (λ ch. not (is_ascii_alphanumeric ch || ch == b'_' || ch == b'-')) command)

unfoldable pub is_single_dash_word_option : Text → Bool
is_single_dash_word_option token =
    is_one_of
      ("-maxdepth" ∷ "-mindepth" ∷ "-type" ∷ "-name" ∷ "-iname" ∷ "-regex" ∷ "-iregex" ∷ "-exec"
        ∷ "-path" ∷ "-prune" ∷ "-print" ∷ "-print0" ∷ "-mtime" ∷ "-mmin" ∷ "-size" ∷ "-empty"
        ∷ "-newer" ∷ "-perm" ∷ "-user" ∷ "-group" ∷ "-delete" ∷ [])
      token

-- the characters after the dash, a flag each
abbrev short_flags : Text → List Text
short_flags [] = []
short_flags (_ ∷ chars) = map (λ ch. b'-' ∷ ch ∷ []) chars

-- the flags of one token other than `--`
unfoldable pub token_flags : Text → List Text
token_flags token =
    if begins token "--" && ltb 2 (byte_len token)
    then first_piece (split_by (λ ch. ch == b'=') token) ∷ []
    else if begins token "-" && ltb 1 (byte_len token)
    then (if begins token "--"
        then []
        else if is_single_dash_word_option token
        then token ∷ []
        else if ltb 2 (byte_len token) && not (contains_char token b'=')
        then short_flags token
        else token ∷ [])
    else []

unfoldable pub flags_of : List Text → List Text
flags_of [] = []
flags_of (token ∷ rest) =
    let others = flags_of rest in
    if eq_text token (codes "--") then [] else token_flags token ++ others

unfoldable pub extract_flags : Text → List Text
extract_flags command = flags_of (split_whitespace command)

unfoldable pub command_has_flag : Text → ℕ → String → Bool
command_has_flag command short long =
    any (λ flag. eq_text flag (b'-' ∷ short ∷ []) || eq_text flag (codes long))
      (extract_flags command)
