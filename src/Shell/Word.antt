-- ===== src/Shell/Word.antt =====
-- `shell_quote_word` of crates/termlm-core/src/main.rs, which writes a word for the shell.
use termlm.Base.{Bool, ◌||◌, ℕ, [], ◌∷◌, ◌++◌, ◌==◌, if◌then◌else◌, all}
use termlm.Base.Text.{Text, codes, is_ascii_alphanumeric}

-- `value.replace(from, to)` for a single character `from`
unfoldable pub replace_char : ℕ → Text → Text → Text
replace_char from to [] = []
replace_char from to (c ∷ cs) =
    if c == from then to ++ replace_char from to cs else c ∷ replace_char from to cs

unfoldable pub is_plain_char : ℕ → Bool
unfolding is_ascii_alphanumeric
is_plain_char c =
    is_ascii_alphanumeric c || c == b'/' || c == b'.' || c == b'_' || c == b'-' || c == b'+'

unfoldable pub shell_quote_word : Text → Text
unfolding is_plain_char replace_char
shell_quote_word value =
    if all is_plain_char value
    then value
    else b'\'' ∷ (replace_char b'\'' (codes "'\\''") value ++ b'\'' ∷ [])
