-- ===== src/Examples/ShellRegistry.antt =====
-- Two registered shells.
use termlm.Base.{ℕ, [], ◌∷◌, some, none, ◌≡◌, refl}
use termlm.Base.Text.{codes}
use termlm.Base.Maps
use termlm.Base.Maps.{lookup, modify}
use termlm.ShellRegistry.{
  zsh, ShellContext, ShellSession, ShellRegistry, insert, remove, set_context, get, len,
  with_context,
}

abbrev a_session : ℕ → ShellSession
a_session pid = record {
  shell_pid = pid;
  tty = codes "tty1";
  shell_kind = zsh;
  shell_version = codes "5.9";
  env_subset = [];
  context = none;
}

abbrev a_context : ShellContext
a_context = record {
  shell_id = 1;
  shell_kind = zsh;
  context_hash = codes "h";
  aliases = [];
  functions = [];
  builtins = [];
}

abbrev two_shells : ShellRegistry
two_shells = record { sessions = (1, a_session 10) ∷ (2, a_session 20) ∷ [] }

-- a context is stored with a session that is there, and with no other
set_context-found :
    get 2 (set_context 2 a_context two_shells) ≡ some (with_context a_context (a_session 20))
unfolding get set_context lookup modify
set_context-found = refl

set_context-absent : get 3 (set_context 3 a_context two_shells) ≡ none
unfolding get set_context lookup modify
set_context-absent = refl

-- a shell that is registered again is counted once
insert-again : len (insert 2 (a_session 30) two_shells) ≡ 2
unfolding len insert Maps.insert Maps.remove
insert-again = refl

remove-one : get 1 (remove 1 two_shells) ≡ none
unfolding get remove lookup Maps.remove
remove-one = refl
