-- ===== src/Sandbox.antt =====
-- The sandbox of a task's working directory in crates/termlm-core/src/main.rs. A path is the list of
-- its components, as `Path::components` gives them on Unix; what the file system says of a path is
-- the parameter `canonicalize`.
pub mod Bounds
use termlm.Base.{
  Bool, true, false, not, ◌&&◌, List, [], ◌∷◌, ◌++◌, map, Option, none, some, ◌≡◌, ◌∙◌, refl, sym,
  ap, arith, if◌then◌else◌, if_true, if_not, All, Bool-cases, inl, inr, append_assoc, append-nil,
}
use termlm.Base.Text.{Text, eq_text}
use termlm.Index.Names.{eq_text_refl}

pub data Component : Type 0 where
  cur_dir parent_dir : Component
  normal : Text → Component

-- whether the components begin at the root
pub record FilePath : Type 0 where
  pub is_absolute : Bool
  pub components : List Component

-- `PathBuf::pop`, which leaves the root and the empty path
unfoldable pub pop : List Text → List Text
pop [] = []
pop (part ∷ []) = []
pop (part ∷ next ∷ parts) = part ∷ pop (next ∷ parts)

-- the loop over the components, `out` what has been pushed behind the root
unfoldable pub normalize_loop : List Text → List Component → List Text
normalize_loop out [] = out
normalize_loop out (cur_dir ∷ rest) = normalize_loop out rest
normalize_loop out (parent_dir ∷ rest) = normalize_loop (pop out) rest
normalize_loop out (normal part ∷ rest) = normalize_loop (out ++ part ∷ []) rest

-- `.` where nothing is left of a relative path
abbrev pub or_dot : Bool → List Text → List Component
or_dot true [] = []
or_dot false [] = cur_dir ∷ []
or_dot absolute (part ∷ parts) = map normal (part ∷ parts)

unfoldable pub normalize_lexical_path : FilePath → FilePath
normalize_lexical_path path = record {
  is_absolute = path.is_absolute;
  components = or_dot path.is_absolute (normalize_loop [] path.components);
}

unfoldable pub same_component : Component → Component → Bool
same_component cur_dir cur_dir = true
same_component parent_dir parent_dir = true
same_component (normal a) (normal b) = eq_text a b
same_component _ _ = false

unfoldable pub has_prefix : List Component → List Component → Bool
has_prefix cs [] = true
has_prefix [] (r ∷ root) = false
has_prefix (c ∷ cs) (r ∷ root) = same_component c r && has_prefix cs root

abbrev pub same_kind : Bool → Bool → Bool
same_kind true b = b
same_kind false b = not b

-- `Path::starts_with`
unfoldable pub starts_with : FilePath → FilePath → Bool
starts_with path root =
    same_kind path.is_absolute root.is_absolute && has_prefix path.components root.components

-- `root.join(requested)`: an absolute path replaces the root
unfoldable pub join : FilePath → FilePath → FilePath
join root requested =
    if requested.is_absolute
    then requested
    else record root { components = root.components ++ requested.components }

abbrev pub or_path : FilePath → Option FilePath → FilePath
or_path path none = path
or_path path (some canonical) = canonical

module _ (canonicalize : FilePath → Option FilePath) where
  unfoldable pub canonical_or_normalized : FilePath → FilePath
  canonical_or_normalized path =
      let normalized = normalize_lexical_path path in or_path normalized (canonicalize normalized)

  unfoldable pub resolve_path_within_root : FilePath → FilePath → Option FilePath
  resolve_path_within_root root requested =
      let root_path = canonical_or_normalized root in
      let candidate_path = canonical_or_normalized (join root_path requested) in
      if starts_with candidate_path root_path then some candidate_path else none

  unfoldable pub task_cwd_for_sandbox : Option FilePath → FilePath → FilePath
  task_cwd_for_sandbox none requested = requested
  task_cwd_for_sandbox (some root) requested =
      let candidate = canonical_or_normalized (join root requested) in
      if starts_with candidate root then candidate else root
