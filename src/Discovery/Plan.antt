-- ===== src/Discovery/Plan.antt =====
-- internal/engine/discovery_plan.go: from the configuration of an engine to the plan of a discovery.
-- `ParseConfig` is a parameter: the parsed config or an error. Copies of slices and maps are their
-- values.
pub mod Dirs
use facts.Base.{
  Bool, true, false, not, ◌&&◌, ◌||◌, List, [], ◌∷◌, Option, none, some, is_nil, if◌then◌else◌,
}
use facts.Base.Text.{Text, mem_text}
use facts.Base.Text.Unicode.{Unicode}
use facts.Groups.{FactGroup}
use facts.Groups.Ttl.{FactTtl}
use facts.Groups.Environment.{Outcome, returns, ◌>>=◌}
use facts.Discovery.Disabled.{Sources, union_disabled_facts}

-- `Config` of internal/engine/config.go
pub record Config : Type 0 where
  pub disabled : List Text
  pub external_dirs : List Text
  pub debug : Bool
  pub verbose : Bool
  pub log_level : Text
  pub no_external_facts : Bool
  pub force_dot_resolution : Bool
  pub sequential : Bool
  pub sequential_set : Bool
  pub ttls : List FactTtl
  pub fact_groups : List FactGroup

-- `Config{}`
abbrev pub empty_config : Config
empty_config = record {
  disabled = [];
  external_dirs = [];
  debug = false;
  verbose = false;
  log_level = [];
  no_external_facts = false;
  force_dot_resolution = false;
  sequential = false;
  sequential_set = false;
  ttls = [];
  fact_groups = [];
}

-- `DiscoveryDefaults`
pub record DiscoveryDefaults : Type 0 where
  pub native_config_path : Text
  pub compatible_config_path : Text
  pub cache_path : Text
  pub external_fact_dirs : List Text

-- `EngineConfig`, without the logger and the registered facts; a disabled set that is not nil is
-- the list of its members.
pub record EngineConfig : Type 0 where
  pub config_file : Text
  pub external_dirs : List Text
  pub use_cache : Bool
  pub system_defaults : Bool
  pub defaults : Option DiscoveryDefaults
  pub cli_compat : Bool
  pub no_external_facts : Bool
  pub disabled_facts : Option (List Text)
  pub extra_disabled : List Text
  pub config_loaded : Bool
  pub config : Config
  pub include_typed_dotted : Bool

pub data LoaderMode : Type 0 where
  loader_library : LoaderMode
  loader_cli : LoaderMode

-- `discoveryPlan`
pub record DiscoveryPlan : Type 0 where
  pub external_dirs : List Text
  pub cache_path : Text
  pub no_external_facts : Bool
  pub disabled_facts : List Text
  pub ambient_disabled : Sources
  pub use_cache : Bool
  pub cache_ttls : List FactTtl
  pub cache_groups : List FactGroup
  pub loader_mode : LoaderMode
  pub include_env : Bool
  pub queries : List Text
  pub include_typed_dotted : Bool

-- A parsed config, or the failure of the parser.
pub data Parsed : Type 0 where
  parsed : Config → Parsed
  unparsed : Parsed

-- What `configForDiscovery` returns.
pub data ConfigResult : Type 0 where
  found_config : Config → ConfigResult
  no_config : ConfigResult
  config_failure : ConfigResult

of_parsed : Parsed → ConfigResult
of_parsed (parsed config) = found_config config
of_parsed unparsed = config_failure

-- `configForDiscovery`
unfoldable pub config_for_discovery :
    (Text → DiscoveryDefaults → Parsed) → EngineConfig → DiscoveryDefaults → ConfigResult
unfolding of_parsed
config_for_discovery parse_config e defaults =
    if e.config_loaded
    then found_config e.config
    else if is_nil e.config_file && not e.system_defaults
    then no_config
    else of_parsed (parse_config e.config_file defaults)

abbrev empty_defaults : DiscoveryDefaults
empty_defaults = record {
  native_config_path = [];
  compatible_config_path = [];
  cache_path = [];
  external_fact_dirs = [];
}

-- `defaultsForDiscovery`; `current` is `CurrentDiscoveryDefaults()`
unfoldable pub defaults_for_discovery : DiscoveryDefaults → EngineConfig → DiscoveryDefaults
defaults_for_discovery current e = elim e.defaults [
  | some defaults ↦ defaults
  | none ↦ if e.system_defaults || e.use_cache then current else empty_defaults
]

-- `DiscoveryExternalDirs`
unfoldable pub discovery_external_dirs : Config → List Text → Bool → Bool → List Text → List Text
discovery_external_dirs config explicit no_external_facts system_defaults defaults =
    if no_external_facts || config.no_external_facts
    then []
    else if not (is_nil explicit)
    then explicit
    else if not (is_nil config.external_dirs)
    then config.external_dirs
    else if system_defaults
    then defaults
    else []

-- The config that the rest of the plan reads: the zero value where there is none.
abbrev pub config_of : ConfigResult → Config
config_of (found_config config) = config
config_of no_config = empty_config
config_of config_failure = empty_config

-- The plan before the disabled facts and the directories are filled in.
unfoldable pub start_plan :
    EngineConfig → DiscoveryDefaults → ConfigResult → List Text → DiscoveryPlan
start_plan e defaults result queries = record {
  external_dirs = e.external_dirs;
  cache_path = defaults.cache_path;
  no_external_facts = e.no_external_facts || (config_of result).no_external_facts;
  disabled_facts = elim e.disabled_facts [ some names ↦ names | none ↦ [] ];
  ambient_disabled = [];
  use_cache = e.use_cache;
  cache_ttls = if e.use_cache then (config_of result).ttls else [];
  cache_groups = (config_of result).fact_groups;
  loader_mode = if e.cli_compat then loader_cli else loader_library;
  include_env = e.cli_compat || e.system_defaults;
  queries = queries;
  include_typed_dotted =
      (e.cli_compat && (config_of result).force_dot_resolution) || e.include_typed_dotted;
}

-- `plan.externalDirs` at the end of `planDiscoveryWithDefaults`
unfoldable pub plan_dirs : EngineConfig → DiscoveryDefaults → Config → DiscoveryPlan → List Text
unfolding discovery_external_dirs
plan_dirs e defaults config plan =
    let system_defaults = e.system_defaults && not plan.no_external_facts in
    let default_dirs =
      if system_defaults && is_nil plan.external_dirs && is_nil config.external_dirs
      then defaults.external_fact_dirs
      else [] in
    discovery_external_dirs (record config { no_external_facts = false }) plan.external_dirs false
      system_defaults default_dirs

is_failure : ConfigResult → Bool
is_failure config_failure = true
is_failure _ = false

-- The plan with the disabled facts: those that are set, or those of all sources.
disable : Unicode → EngineConfig → Config → List Text → DiscoveryPlan → Outcome DiscoveryPlan
disable u e config environ plan = elim e.disabled_facts [
  | some _ ↦ returns plan
  | none ↦
      union_disabled_facts u config.disabled config.fact_groups e.extra_disabled plan.include_env
        environ
      >>= (λ d. returns (record plan { disabled_facts = d.0; ambient_disabled = d.1 }))
]

-- `planDiscoveryWithDefaults`: the plan, and whether the config could not be parsed
unfoldable pub plan_discovery_with_defaults :
    Unicode
    → (Text → DiscoveryDefaults → Parsed)
    → List Text
    → EngineConfig
    → List Text
    → DiscoveryDefaults
    → Outcome (DiscoveryPlan × Bool)
unfolding config_for_discovery start_plan disable plan_dirs is_failure
plan_discovery_with_defaults u parse_config environ e queries defaults =
    let result = config_for_discovery parse_config e defaults in
    let config = config_of result in
    disable u e config environ (start_plan e defaults result queries) >>= (λ plan.
      returns (record plan { external_dirs = plan_dirs e defaults config plan }, is_failure result))

-- `planDiscovery`
unfoldable pub plan_discovery :
    Unicode
    → (Text → DiscoveryDefaults → Parsed)
    → List Text
    → DiscoveryDefaults
    → EngineConfig
    → List Text
    → Outcome (DiscoveryPlan × Bool)
unfolding plan_discovery_with_defaults defaults_for_discovery
plan_discovery u parse_config environ current e queries =
    plan_discovery_with_defaults u parse_config environ e queries (defaults_for_discovery current e)
