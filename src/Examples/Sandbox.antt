-- ===== src/Examples/Sandbox.antt =====
-- A sandbox under /w, on a file system without links.
use termlm.Base.{map, List, ◌++◌, ◌≢◌, ◌⊎◌, sym, ap, false, [], ◌∷◌, Option, none, some, ◌≡◌, refl}
use termlm.Base.Text.{Text, codes, eq_text}
use termlm.Sandbox.{
  FilePath, or_path, cur_dir, parent_dir, normal, pop, normalize_loop, normalize_lexical_path,
  same_component, has_prefix, starts_with, join, canonical_or_normalized, resolve_path_within_root,
  task_cwd_for_sandbox,
}
use termlm.Sandbox.Bounds.{
  absolute_path, Walks, origin, task_cwd_for_sandbox-confined, resolve_path_within_root-Walks,
}

abbrev no_file : FilePath → Option FilePath
no_file path = none

-- `..` and then a name, out of the sandbox
abbrev escape : FilePath
escape = record {
  is_absolute = false;
  components = parent_dir ∷ cur_dir ∷ normal (codes "etc") ∷ [];
}

escaped_cwd :
    task_cwd_for_sandbox no_file (some (absolute_path (codes "w" ∷ []))) escape
    ≡ absolute_path (codes "w" ∷ [])
unfolding task_cwd_for_sandbox canonical_or_normalized normalize_lexical_path normalize_loop pop
    join starts_with has_prefix same_component eq_text absolute_path
escaped_cwd = refl

abbrev inside : List Text → FilePath
inside parts = record { is_absolute = false; components = map normal parts }

inner_cwd :
    task_cwd_for_sandbox no_file (some (absolute_path (codes "w" ∷ []))) (inside (codes "a" ∷ []))
    ≡ absolute_path (codes "w" ∷ codes "a" ∷ [])
unfolding task_cwd_for_sandbox canonical_or_normalized normalize_lexical_path normalize_loop pop
    join starts_with has_prefix same_component eq_text absolute_path
inner_cwd = refl

-- a file system on which every path leads out of the sandbox
abbrev linked : FilePath → Option FilePath
linked path = some (absolute_path (codes "etc" ∷ []))

linked-names :
    (path found : FilePath)
    → linked path ≡ some found
    → (parts : List Text) × (found ≡ absolute_path parts)
linked-names path found e = (codes "etc" ∷ [], sym (ap (λ o. or_path found o) e))

task_cwd_for_sandbox-confined_example :
    (rest : List Text) × (task_cwd_for_sandbox linked (some (absolute_path (codes "w" ∷ []))) escape
      ≡ absolute_path (codes "w" ∷ [] ++ rest))
task_cwd_for_sandbox-confined_example =
    task_cwd_for_sandbox-confined linked linked-names (codes "w" ∷ []) escape

resolve_path_within_root-Walks_example :
    (end : List Text) × Walks (origin (codes "w" ∷ []) escape) escape.components end
    × (((rest : List Text) × (end ≡ codes "w" ∷ [] ++ rest)
          × (resolve_path_within_root no_file (absolute_path (codes "w" ∷ [])) escape
              ≡ some (absolute_path end)))
        ⊎ (((rest : List Text) → end ≢ codes "w" ∷ [] ++ rest)
            × (resolve_path_within_root no_file (absolute_path (codes "w" ∷ [])) escape ≡ none)))
resolve_path_within_root-Walks_example =
    resolve_path_within_root-Walks no_file (λ parts. refl) (codes "w" ∷ []) escape
