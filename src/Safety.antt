-- ===== src/Safety.antt =====
-- The immutable safety floor of crates/termlm-safety/src/floor.rs, and the critical commands of
-- crates/termlm-safety/src/critical.rs. Whether a regular expression
-- matches is the `regex` crate's, a parameter here.
use termlm.Base.{Bool, List, [], ◌∷◌, Option, none, some, String, if◌then◌else◌, any}
use termlm.Base.Text.{Text}

abbrev pub floor_patterns : List String
floor_patterns =
    "^\\s*rm\\s+-[a-zA-Z]*r[a-zA-Z]*\\s+/(\\s|$)"
    ∷ "^\\s*rm\\s+-[a-zA-Z]*r[a-zA-Z]*\\s+(\\$HOME|~)(/|\\s|$)"
    ∷ "^\\s*rm\\s+-[a-zA-Z]*r[a-zA-Z]*\\s+/\\*"
    ∷ "^\\s*:\\(\\)\\s*\\{\\s*:\\s*\\|\\s*:\\s*&\\s*\\}\\s*;\\s*:"
    ∷ "\\bdd\\s+.*of=/dev/(disk|rdisk|sd|nvme)" ∷ ">\\s*/dev/(disk|rdisk|sd|nvme)"
    ∷ "\\bmkfs(\\.\\w+)?\\s+/dev/" ∷ "^\\s*sudo\\s+rm\\s+-[a-zA-Z]*r"
    ∷ "\\brm\\s+-[a-zA-Z]*r[a-zA-Z]*\\s+/(System|Library|usr|bin|sbin|etc|var)(/|\\s|$)"
    ∷ "\\b(chmod|chown)\\s+-R\\s+\\S+\\s+/(\\s|$)" ∷ ">\\s*/(System|Library|usr|bin|sbin|etc)/"
    ∷ "\\bdiskutil\\s+(eraseDisk|eraseVolume|secureErase)" ∷ "\\bcsrutil\\s+disable"
    ∷ "\\bspctl\\s+--master-disable" ∷ "\\bnvram\\s+-c" ∷ []

pub record SafetyFloorMatch : Type 0 where
  pub pattern : String
  pub command : Text

-- `Regex::new(pattern).is_match(cmd)`
module _ (is_match : String → Text → Bool) where
  -- `find` over the patterns in their order
  unfoldable pub find_pattern : List String → Text → Option SafetyFloorMatch
  find_pattern [] cmd = none
  find_pattern (p ∷ ps) cmd =
      if is_match p cmd then some (record { pattern = p; command = cmd }) else find_pattern ps cmd

  unfoldable pub matches_safety_floor : Text → Option SafetyFloorMatch
  matches_safety_floor cmd = find_pattern floor_patterns cmd

-- `CriticalMatcher`: the patterns of the configuration, `is_match` for those that compile
unfoldable pub is_critical : (Text → Text → Bool) → List Text → Text → Bool
is_critical is_match regexes cmd = any (λ re. is_match re cmd) regexes
