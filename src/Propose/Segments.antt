-- ===== src/Propose/Segments.antt =====
-- `extract_command_names` and `split_shell_command_segments` of crates/termlm-core/src/main.rs.
use termlm.Base.{
  ℕ, Bool, true, false, ◌&&◌, ◌||◌, List, [], ◌∷◌, ◌++◌, Option, none, some, leb, ◌==◌,
  if◌then◌else◌, any, length,
}
use termlm.Base.Text.{Text, eq_text, trim, non_empty}
use termlm.Shell.{parse_command}

-- the segments so far, and the text since the last of them
pub record Split : Type 0 where
  pub segments : List Text
  pub current : Text
  pub quote : Option ℕ
  pub escaped : Bool
  pub skip_next : Bool

abbrev pub initial : Split
initial = record { segments = []; current = []; quote = none; escaped = false; skip_next = false }

abbrev opens : Text → ℕ → Bool
opens [] c = false
opens (d ∷ _) c = d == c

abbrev is_closed_by : Option ℕ → ℕ → Bool
is_closed_by none c = false
is_closed_by (some active) c = c == active

abbrev is_some : Option ℕ → Bool
is_some none = false
is_some (some _) = true

unfoldable pub split_step : Split → ℕ → Text → Split
split_step s ch rest =
    let more = record s { current = s.current ++ ch ∷ [] } in
    let cut = record s { segments = s.segments ++ trim s.current ∷ []; current = [] } in
    if s.skip_next
    then record s { skip_next = false }
    else if s.escaped
    then record more { escaped = false }
    else if ch == b'\\'
    then record more { escaped = true }
    else if is_some s.quote
    then record more { quote = if is_closed_by s.quote ch then none else s.quote }
    else if ch == b'\'' || ch == b'"'
    then record more { quote = some ch }
    else if ch == b'|' || ch == b';'
    then cut
    else if ch == b'&' && opens rest b'&'
    then record cut { skip_next = true }
    else more

unfoldable pub split_rest : Split → Text → Split
split_rest s [] = s
split_rest s (ch ∷ rest) = split_rest (split_step s ch rest) rest

unfoldable pub split_shell_command_segments : Text → List Text
split_shell_command_segments command =
    let s = split_rest initial command in non_empty (s.segments ++ trim s.current ∷ [])

-- the names so far, and whether there are enough
abbrev push_name : ℕ → List Text → Option Text → List Text × Bool
push_name max_commands out none = (out, false)
push_name max_commands out (some token) =
    let pushed = out ++ token ∷ [] in
    if any (λ c. eq_text c token) out
    then (out, false)
    else (pushed, leb max_commands (length pushed))

unfoldable pub names_loop : ℕ → List Text → List Text → List Text
names_loop max_commands out [] = out
names_loop max_commands out (segment ∷ rest) =
    let next = push_name max_commands out (parse_command segment).first_token in
    elim next.1 [ true ↦ next.0 | false ↦ names_loop max_commands next.0 rest ]

unfoldable pub extract_command_names : Text → ℕ → List Text
extract_command_names command max_commands =
    names_loop max_commands [] (split_shell_command_segments command)
