-- ===== src/Discovery/Plan/Dirs.antt =====
-- The directories of internal/engine/discovery_plan.go against their order of precedence.
use facts.Base.{Bool, true, false, not, ◌&&◌, ◌≡◌, refl, List, [], ◌∷◌, is_nil, if◌then◌else◌}
use facts.Base.Text.{Text}
use facts.Discovery.Plan.{
  Config, DiscoveryDefaults, EngineConfig, DiscoveryPlan, discovery_external_dirs, plan_dirs,
}

-- The first list that is not empty.
abbrev pub first_of : List (List Text) → List Text
first_of [] = []
first_of (dirs ∷ others) = if is_nil dirs then first_of others else dirs

-- The directories of a plan are the first that are given of its own, the config's and, for an engine
-- that follows the system and a plan that takes external facts, the defaults.
pub plan_dirs_lem :
    (e : EngineConfig) (defaults : DiscoveryDefaults) (config : Config) (plan : DiscoveryPlan)
    → plan_dirs e defaults config plan
      ≡ first_of (
          plan.external_dirs
          ∷ config.external_dirs
          ∷ (if e.system_defaults && not plan.no_external_facts
              then defaults.external_fact_dirs
              else [])
          ∷ [])
unfolding plan_dirs discovery_external_dirs
plan_dirs_lem e defaults config plan =
    by_cases plan.external_dirs config.external_dirs
      (e.system_defaults && not plan.no_external_facts)
  where
    tail : (d : List Text) → d ≡ first_of (d ∷ [])
    tail [] = refl
    tail (x ∷ d) = refl

    by_cases :
        (a b : List Text) (s : Bool)
        → (if not (is_nil a)
            then a
            else if not (is_nil b)
            then b
            else if s
            then (if s && is_nil a && is_nil b then defaults.external_fact_dirs else [])
            else [])
          ≡ first_of (a ∷ b ∷ (if s then defaults.external_fact_dirs else []) ∷ [])
    by_cases (x ∷ a) b s = refl
    by_cases [] (x ∷ b) s = refl
    by_cases [] [] false = refl
    by_cases [] [] true = tail defaults.external_fact_dirs
