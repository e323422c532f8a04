-- ===== src/Discovery/Disabled.antt =====
-- `DisabledUnion` of internal/engine/groups.go, `unionDisabledFacts` of internal/engine/discovery_plan.go
-- and `ambientDisableSource` of internal/engine/engine.go: the disabled facts and their sources. The
-- environment is read once.
pub mod Ambient
use facts.Base.{
  Bool, true, false, not, ◌||◌, List, [], ◌∷◌, ◌++◌, Option, none, some, map, keep, any,
  if◌then◌else◌,
}
use facts.Base.Text.{Text, text, text_eq}
use facts.Base.Text.Unicode.{Unicode}
use facts.Groups.{
  FactGroup, disabled_facts_with_groups, fact_hierarchy_covers, fact_hierarchy_match,
}
use facts.Groups.Environment.{Outcome, returns, ◌>>=◌, environment_disabled_facts}
use facts.Discovery.Descriptors.{builtin_fact_groups}

abbrev pub disabled_source_env : Text
disabled_source_env = text "FACTS_DISABLE"

abbrev pub disabled_source_config : Text
disabled_source_config = text "the configuration file"

-- The names that a list of entries disables.
unfoldable pub expand : List Text → List FactGroup → List Text
expand entries configured = disabled_facts_with_groups builtin_fact_groups entries configured

-- `DisabledUnion` of the disabled entries and the groups of a config, and of more entries
unfoldable pub disabled_union :
    Unicode → List Text → List FactGroup → List Text → List Text → Outcome (List Text)
disabled_union u config_disabled groups extra_disabled environ =
    environment_disabled_facts u environ
    >>= (λ env. returns (expand (config_disabled ++ (extra_disabled ++ env)) groups))

-- A map from names to sources: the list of its writes, the last one first.
abbrev pub Sources : Type 0
Sources = List (Text × Text)

unfoldable pub source_of : Sources → Text → Option Text
source_of [] name = none
source_of ((n, source) ∷ sources) name =
    if text_eq n name then some source else source_of sources name

-- `ambient[name] = source` for each name
unfoldable pub note_source : Text → List Text → Sources → Sources
note_source source names ambient = map (λ name. (name, source)) names ++ ambient

-- The deletes of `unionDisabledFacts` for one name of the command line.
unfoldable pub drop_covered : Text → Sources → Sources
drop_covered name ambient =
    keep (λ e. not (text_eq name e.0 || fact_hierarchy_covers name e.0)) ambient

unfoldable pub drop_all : List Text → Sources → Sources
drop_all [] ambient = ambient
drop_all (name ∷ names) ambient = drop_all names (drop_covered name ambient)

-- The ambient map, from the entries of the config, of the environment and of the command line.
unfoldable pub ambient_sources : List FactGroup → List Text → List Text → List Text → Sources
unfolding note_source drop_all
ambient_sources groups config_disabled env extra_disabled =
    drop_all (expand extra_disabled groups) (
      note_source disabled_source_env (expand env groups)
        (note_source disabled_source_config (expand config_disabled groups) []))

-- `unionDisabledFacts`: the disabled set, and the ambient map
unfoldable pub union_disabled_facts :
    Unicode
    → List Text
    → List FactGroup
    → List Text
    → Bool
    → List Text
    → Outcome (List Text × Sources)
unfolding disabled_union ambient_sources
union_disabled_facts u config_disabled groups extra_disabled include_env host_environ =
    let environ = if include_env then host_environ else [] in
    disabled_union u config_disabled groups extra_disabled environ >>= (λ disabled.
      environment_disabled_facts u environ
      >>= (λ env. returns (disabled, ambient_sources groups config_disabled env extra_disabled)))

-- `ambientDisableSource`
unfoldable pub ambient_disable_source : Text → Sources → Option Text
unfolding source_of
ambient_disable_source name ambient = elim (fact_hierarchy_match name (source_of ambient)) [
  | none ↦ none
  | some (_, source) ↦ some source
]
