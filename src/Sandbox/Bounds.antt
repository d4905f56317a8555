-- ===== src/Sandbox/Bounds.antt =====
-- The bounds of the sandbox: what a path resolved under a root can be.
use termlm.Base.{
  true, false, List, [], ◌∷◌, ◌++◌, map, Option, none, some, ◌≡◌, ◌≢◌, ◌∙◌, ◌⊎◌, refl, sym, ap,
  arith, if◌then◌else◌, if_true, if_not, Bool-cases, inl, inr, append_assoc, append-nil,
}
use mathlib.Core.Path.{subst}
use termlm.Base.Text.{Text, eq_text_iff}
use termlm.Index.Names.{eq_text_refl}
use termlm.Sandbox.{
  Component, cur_dir, parent_dir, normal, FilePath, pop, normalize_loop, or_dot,
  normalize_lexical_path, same_component, has_prefix, starts_with, join, or_path,
  canonical_or_normalized, resolve_path_within_root, task_cwd_for_sandbox,
}

-- the absolute path of these names
unfoldable pub absolute_path : List Text → FilePath
absolute_path parts = record { is_absolute = true; components = map normal parts }

-- A walk from directory to directory, each given by the names on the way from `/`: `.` stays, a
-- name goes down, and `..` goes up, but at `/`, where it stays.
pub data Walks : List Text → List Component → List Text → Type 0 where
  stop : {at : List Text} → Walks at [] at
  stay : {at end : List Text} {cs : List Component} → Walks at cs end → Walks at (cur_dir ∷ cs) end
  down :
      {at end : List Text} {part : Text} {cs : List Component}
      → Walks (at ++ part ∷ []) cs end
      → Walks at (normal part ∷ cs) end
  top :
      {at end : List Text} {cs : List Component}
      → at ≡ []
      → Walks [] cs end
      → Walks at (parent_dir ∷ cs) end
  up :
      {at outer end : List Text} {cs : List Component} (last : Text)
      → at ≡ outer ++ last ∷ []
      → Walks outer cs end
      → Walks at (parent_dir ∷ cs) end

pop-push : (out : List Text) (part : Text) → pop (out ++ part ∷ []) ≡ out
unfolding pop
pop-push [] part = refl
pop-push (x ∷ []) part = refl
pop-push (x ∷ y ∷ out) part = ap (λ o. x ∷ o) (pop-push (y ∷ out) part)

pop-cases : (at : List Text) → (at ≡ []) ⊎ ((last : Text) × (at ≡ pop at ++ last ∷ []))
unfolding pop
pop-cases [] = inl refl
pop-cases (x ∷ []) = inr (x, refl)
pop-cases (x ∷ y ∷ at) = elim (pop-cases (y ∷ at)) [
  | inl e ↦ absurd (cc)
  | inr (last, e) ↦ inr (last, ap (◌∷◌ x) e)
]

-- The lexical loop is a walk.
normalize_loop-Walks : (at : List Text) (cs : List Component) → Walks at cs (normalize_loop at cs)
unfolding normalize_loop
normalize_loop-Walks at [] = stop
normalize_loop-Walks at (cur_dir ∷ cs) = stay (normalize_loop-Walks at cs)
normalize_loop-Walks at (normal part ∷ cs) = down (normalize_loop-Walks (at ++ part ∷ []) cs)
normalize_loop-Walks at (parent_dir ∷ cs) =
    by_place (pop-cases at) (normalize_loop-Walks (pop at) cs)
  where
    by_place :
        (at ≡ []) ⊎ ((last : Text) × (at ≡ pop at ++ last ∷ []))
        → Walks (pop at) cs (normalize_loop (pop at) cs)
        → Walks at (parent_dir ∷ cs) (normalize_loop (pop at) cs)
    by_place (inl e) w =
        let same : pop at ≡ [] = ap pop e ∙ (unfold pop in refl) in
        top e (subst (λ a. Walks a cs (normalize_loop (pop at) cs)) same w)
    by_place (inr (last, e)) w = up last e w

-- names are pushed one after the other
normalize_loop-normal :
    (out parts : List Text) → normalize_loop out (map normal parts) ≡ out ++ parts
unfolding normalize_loop
normalize_loop-normal out [] = sym (append-nil out)
normalize_loop-normal out (part ∷ parts) =
    normalize_loop-normal (out ++ part ∷ []) parts ∙ append_assoc out (part ∷ []) parts

normalize_loop-append :
    (out : List Text) (cs ds : List Component)
    → normalize_loop out (cs ++ ds) ≡ normalize_loop (normalize_loop out cs) ds
unfolding normalize_loop
normalize_loop-append out [] ds = refl
normalize_loop-append out (cur_dir ∷ cs) ds = normalize_loop-append out cs ds
normalize_loop-append out (parent_dir ∷ cs) ds = normalize_loop-append (pop out) cs ds
normalize_loop-append out (normal part ∷ cs) ds = normalize_loop-append (out ++ part ∷ []) cs ds

map-append : (xs ys : List Text) → map normal (xs ++ ys) ≡ map normal xs ++ map normal ys
map-append [] ys = refl
map-append (x ∷ xs) ys = ap (λ t. normal x ∷ t) (map-append xs ys)

-- A path with a root in front begins with the root.
has_prefix-append : (root cs : List Component) → has_prefix (root ++ cs) root ≡ true
unfolding has_prefix same_component
has_prefix-append [] cs = refl
has_prefix-append (cur_dir ∷ root) cs = has_prefix-append root cs
has_prefix-append (parent_dir ∷ root) cs = has_prefix-append root cs
has_prefix-append (normal a ∷ root) cs = rw (eq_text_refl a) (has_prefix-append root cs)

-- What begins with the names of a root has names behind them.
has_prefix-split :
    (end root : List Text)
    → has_prefix (map normal end) (map normal root) ≡ true
    → (rest : List Text) × (end ≡ root ++ rest)
unfolding has_prefix same_component
has_prefix-split end [] h = (end, refl)
has_prefix-split [] (r ∷ root) h = cc
has_prefix-split (e ∷ end) (r ∷ root) h =
    let (rest, splits) = has_prefix-split end root (ground (arith, h)) in
    (rest, ap (λ t. t ∷ end) ((eq_text_iff e r).0 (ground (arith, h))) ∙ ap (◌∷◌ r) splits)

starts_with-split :
    (end root : List Text)
    → starts_with (absolute_path end) (absolute_path root) ≡ true
    → (rest : List Text) × (end ≡ root ++ rest)
unfolding starts_with absolute_path
starts_with-split end root h = has_prefix-split end root h

starts_with-append :
    (root rest : List Text) → starts_with (absolute_path (root ++ rest)) (absolute_path root) ≡ true
unfolding starts_with absolute_path
starts_with-append root rest =
    rw (map-append root rest) (has_prefix-append (map normal root) (map normal rest))

or_dot-absolute : (out : List Text) → or_dot true out ≡ map normal out
or_dot-absolute [] = refl
or_dot-absolute (part ∷ out) = refl

-- an absolute path whose loop leaves `parts` is the absolute path of `parts`
normalize_lexical_path-absolute :
    (cs : List Component) (parts : List Text)
    → normalize_loop [] cs ≡ parts
    → normalize_lexical_path (record { is_absolute = true; components = cs }) ≡ absolute_path parts
unfolding normalize_lexical_path absolute_path
normalize_lexical_path-absolute cs parts e =
    ap (λ ds. record { is_absolute = true; components = ds })
      (ap (or_dot true) e ∙ or_dot-absolute parts)

-- where a request starts from
abbrev pub origin : List Text → FilePath → List Text
origin root requested = if requested.is_absolute then [] else root

-- A request joined to a root ends where the walk from its origin ends.
normalize_lexical_path-join :
    (root : List Text) (requested : FilePath)
    → normalize_lexical_path (join (absolute_path root) requested)
      ≡ absolute_path (normalize_loop (origin root requested) requested.components)
unfolding join absolute_path
normalize_lexical_path-join root requested = elim (Bool-cases requested.is_absolute) [
  | inl e ↦ rw e (normalize_lexical_path-absolute requested.components _ refl)
  | inr e ↦ rw e (
      normalize_lexical_path-absolute (map normal root ++ requested.components) _ (
        normalize_loop-append [] (map normal root) requested.components
        ∙ ap (λ at. normalize_loop at requested.components) (normalize_loop-normal [] root)))
]

module _ (canonicalize : FilePath → Option FilePath) where
  -- `Path::canonicalize` gives absolute paths of names
  module _
      (canonical : (path found : FilePath)
        → canonicalize path ≡ some found
        → (parts : List Text) × (found ≡ absolute_path parts)) where
    canonical_or_normalized-names :
        (root : List Text) (requested : FilePath)
        → (parts : List Text) × (canonical_or_normalized canonicalize
              (join (absolute_path root) requested)
            ≡ absolute_path parts)
    unfolding canonical_or_normalized
    canonical_or_normalized-names root requested = by_answer (canonicalize normalized) refl
      where
        normalized : FilePath
        normalized = normalize_lexical_path (join (absolute_path root) requested)

        by_answer :
            (o : Option FilePath)
            → canonicalize normalized ≡ o
            → (parts : List Text) × (or_path normalized o ≡ absolute_path parts)
        by_answer none e = (_, normalize_lexical_path-join root requested)
        by_answer (some found) e = canonical normalized found e

    -- Whatever the file system answers, so long as its canonical paths are absolute paths of names:
    -- under a root of names, the working directory of a task is an absolute path of names that has
    -- the root in front. So it has no `.` and no `..` in it, whether the request is relative or
    -- absolute, or has `..` in it.
    pub task_cwd_for_sandbox-confined :
        (root : List Text) (requested : FilePath)
        → (rest : List Text) × (task_cwd_for_sandbox canonicalize
              (some (absolute_path root))
              requested
            ≡ absolute_path (root ++ rest))
    unfolding task_cwd_for_sandbox
    task_cwd_for_sandbox-confined root requested =
        let (parts, named) = canonical_or_normalized-names root requested in
        let (rest, chosen) =
          by_test parts (Bool-cases (starts_with (absolute_path parts) (absolute_path root))) in
        (
          rest,
          ap (λ c. if starts_with c (absolute_path root) then c else absolute_path root) named
              ∙ chosen,
        )
      where
        by_test :
            (parts : List Text)
            → (starts_with (absolute_path parts) (absolute_path root) ≡ true)
              ⊎ (starts_with (absolute_path parts) (absolute_path root) ≡ false)
            → (rest : List Text) × ((if starts_with (absolute_path parts) (absolute_path root)
                  then absolute_path parts
                  else absolute_path root)
                ≡ absolute_path (root ++ rest))
        by_test parts (inl e) =
            let (rest, splits) = starts_with-split parts root e in
            (rest, if_true _ _ _ e ∙ ap absolute_path splits)
        by_test parts (inr e) = ([], if_not _ _ _ e ∙ ap absolute_path (sym (append-nil root)))

  -- No link stands on an absolute path of names: the file system does not know it, or it is its own
  -- canonical path.
  module _
      (no_links : (parts : List Text)
        → or_path (absolute_path parts) (canonicalize (absolute_path parts))
          ≡ absolute_path parts) where
    canonical_or_normalized-join :
        (root : List Text) (requested : FilePath)
        → canonical_or_normalized canonicalize (join (absolute_path root) requested)
          ≡ absolute_path (normalize_loop (origin root requested) requested.components)
    unfolding canonical_or_normalized
    canonical_or_normalized-join root requested =
        ap (λ p. or_path p (canonicalize p)) (normalize_lexical_path-join root requested)
        ∙ no_links _

    canonical_or_normalized-root :
        (root : List Text)
        → canonical_or_normalized canonicalize (absolute_path root) ≡ absolute_path root
    unfolding canonical_or_normalized absolute_path
    canonical_or_normalized-root root =
        ap (λ p. or_path p (canonicalize p))
          (normalize_lexical_path-absolute (map normal root) root (normalize_loop-normal [] root))
        ∙ no_links root

    -- Where no link stands on a path, under a root of names: a request walks, from the root or, if it
    -- is absolute, from `/`, to a directory `end`. Where `end` has the root in front, the request
    -- resolves to the absolute path of `end`, and where not, it is refused.
    pub resolve_path_within_root-Walks :
        (root : List Text) (requested : FilePath)
        → (end : List Text) × Walks (origin root requested) requested.components end
          × (((rest : List Text) × (end ≡ root ++ rest)
                × (resolve_path_within_root canonicalize (absolute_path root) requested
                    ≡ some (absolute_path end)))
              ⊎ (((rest : List Text) → end ≢ root ++ rest)
                  × (resolve_path_within_root canonicalize (absolute_path root) requested ≡ none)))
    unfolding resolve_path_within_root
    resolve_path_within_root-Walks root requested = (
      end,
      normalize_loop-Walks (origin root requested) requested.components,
      elim (Bool-cases (starts_with (absolute_path end) (absolute_path root))) [
        | inl e ↦
            let (rest, splits) = starts_with-split end root e in
            inl (rest, splits, resolved ∙ if_true _ _ _ e)
        | inr e ↦ inr (outside e, resolved ∙ if_not _ _ _ e)
      ],
    )
      where
        end : List Text
        end = normalize_loop (origin root requested) requested.components

        take_below : FilePath → FilePath → Option FilePath
        take_below candidate below = if starts_with candidate below then some candidate else none

        resolved :
            resolve_path_within_root canonicalize (absolute_path root) requested
            ≡ take_below (absolute_path end) (absolute_path root)
        resolved =
            ap (λ r. take_below (canonical_or_normalized canonicalize (join r requested)) r)
              (canonical_or_normalized-root root)
            ∙ ap (λ p. take_below p (absolute_path root))
                (canonical_or_normalized-join root requested)

        outside :
            starts_with (absolute_path end) (absolute_path root) ≡ false
            → (rest : List Text) → end ≢ root ++ rest
        outside e rest splits = absurd (
            ground (
              arith,
              e,
              starts_with-append root rest,
              ap (λ p. starts_with (absolute_path p) (absolute_path root)) splits,
            ))
