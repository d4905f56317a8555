-- ===== src/ShellRegistry.antt =====
-- The shells that are registered with the daemon, crates/termlm-core/src/shell_registry.rs, with what
-- crates/termlm-protocol/src/lib.rs says of a shell. A `Uuid` is a number.
use termlm.Base.{ℕ, length, List, Option, some}
use termlm.Base.Text.{Text}
use termlm.Base.Maps.{lookup, insert as insert_entry, remove as remove_entry, modify}

pub data ShellKind : Type 0 where
  zsh bash fish : ShellKind
  other : Text → ShellKind

pub record AliasDef : Type 0 where
  pub name : Text
  pub expansion : Text

pub record FunctionDef : Type 0 where
  pub name : Text
  pub body_prefix : Text

pub record ShellContext : Type 0 where
  pub shell_id : ℕ
  pub shell_kind : ShellKind
  pub context_hash : Text
  pub aliases : List AliasDef
  pub functions : List FunctionDef
  pub builtins : List Text

pub record ShellSession : Type 0 where
  pub shell_pid : ℕ
  pub tty : Text
  pub shell_kind : ShellKind
  pub shell_version : Text
  pub env_subset : List (Text × Text)
  pub context : Option ShellContext

pub record ShellRegistry : Type 0 where
  pub sessions : List (ℕ × ShellSession)

unfoldable pub insert : ℕ → ShellSession → ShellRegistry → ShellRegistry
insert shell_id session registry = record registry {
  sessions = insert_entry shell_id session registry.sessions;
}

unfoldable pub remove : ℕ → ShellRegistry → ShellRegistry
remove shell_id registry = record registry { sessions = remove_entry shell_id registry.sessions }

abbrev pub with_context : ShellContext → ShellSession → ShellSession
with_context context session = record session { context = some context }

unfoldable pub set_context : ℕ → ShellContext → ShellRegistry → ShellRegistry
set_context shell_id context registry = record registry {
  sessions = modify shell_id (with_context context) registry.sessions;
}

unfoldable pub get : ℕ → ShellRegistry → Option ShellSession
get shell_id registry = lookup shell_id registry.sessions

unfoldable pub len : ShellRegistry → ℕ
len registry = length registry.sessions
