-- ===== src/Discovery/Tests.antt =====
-- The theorems on discovery at concrete inputs, and runs of the table of the core facts.
use mathlib.Core.List.{Perm}
use facts.Base.{true, false, ◌≡◌, refl, List, [], ◌∷◌, none, some, All, map}
use facts.Base.Text.{Text, text, text_eq, mem_text, contains, has_prefix}
use facts.Base.Text.Unicode.{ascii}
use facts.Base.Text.Split.{cut}
use facts.Value.{Value, null, str, end, field}
use facts.Fact.{ResolvedFact}
use facts.Groups.{
  FactGroup, filter_disabled_facts, root_name, disabled_facts_with_groups, fact_hierarchy_covers,
}
use facts.Groups.Environment.{returns, environment_disabled_facts}
use facts.Discovery.Descriptors.{
  CoreFactDescriptor, core_fact_descriptors, resolve_core_fact_descriptors, builtin_fact_groups,
}
use facts.Discovery.Descriptors.Gating.{
  IsEmittedBy, assemble_all, resolve_core_fact_descriptors-filter,
}
use facts.Discovery.Disabled.{
  expand, union_disabled_facts, Sources, disabled_source_config, drop_covered,
}
use facts.Discovery.Disabled.Ambient.{IsIn, IsClear, union_disabled_facts-ambient}
use facts.Discovery.Plan.{
  empty_config, DiscoveryDefaults, EngineConfig, DiscoveryPlan, start_plan, found_config,
}
use facts.Discovery.Cache.{CacheFiles, resolve_facts}
use facts.Discovery.CacheGroups.{PathLibrary, FactCache, cache_group_for_fact, prefixes_of}
use facts.Discovery.CacheGroups.{nanoseconds_per_second, ttl_duration}
use facts.Discovery.CacheGroups.Duration.{ttl_duration-bounds}
use Prim.Native.Nat.{◌+◌, ◌*◌, ◌^◌, ◌≤◌, ◌<◌}
use native.Mathlib.Omega.{arith}
use facts.Discovery.CacheGroups.Longest.{IsWithin, IsChosen, cache_group_for_fact-longest}
use facts.Discovery.Cache.Accounted.{named, resolve_facts-names}

abbrev fact_of : Text → Value → ResolvedFact
fact_of name value = record { name = name; value = value; user_query = []; type = []; file = [] }

-- Each descriptor gives one fact for each of its roots.
assemble_roots : CoreFactDescriptor → List ResolvedFact
assemble_roots d = map (λ root. fact_of root (str root)) d.emitted_roots

table_emitted : All (λ d. IsEmittedBy d (assemble_roots d)) core_fact_descriptors
unfolding assemble_roots root_name mem_text text_eq cut
table_emitted = (
  (refl, tt),
  (
    (refl, tt),
    (
      (refl, tt),
      (
        (refl, tt),
        (
          (refl, tt),
          (
            (refl, tt),
            (
              (refl, tt),
              (
                (refl, (refl, (refl, (refl, tt)))),
                (
                  (refl, tt),
                  (
                    (refl, (refl, (refl, (refl, (refl, tt))))),
                    (
                      (refl, tt),
                      (
                        (refl, tt),
                        (
                          (refl, (refl, tt)),
                          (
                            (refl, tt),
                            (
                              (refl, tt),
                              (
                                (refl, tt),
                                (
                                  (refl, tt),
                                  (
                                    (refl, tt),
                                    (
                                      (refl, tt),
                                      (
                                        (refl, tt),
                                        (
                                          (refl, tt),
                                          (
                                            (refl, (refl, tt)),
                                            ((refl, (refl, (refl, tt))), ((refl, (refl, tt)), tt)),
                                          ),
                                        ),
                                      ),
                                    ),
                                  ),
                                ),
                              ),
                            ),
                          ),
                        ),
                      ),
                    ),
                  ),
                ),
              ),
            ),
          ),
        ),
      ),
    ),
  ),
)

resolve_core_fact_descriptors-filter_example :
    filter_disabled_facts
      (resolve_core_fact_descriptors assemble_roots (text "ssh" ∷ []) core_fact_descriptors)
      (text "ssh" ∷ [])
    ≡ filter_disabled_facts (assemble_all assemble_roots core_fact_descriptors) (text "ssh" ∷ [])
resolve_core_fact_descriptors-filter_example =
    resolve_core_fact_descriptors-filter assemble_roots (text "ssh" ∷ []) core_fact_descriptors
      table_emitted

groups_run :
    map (λ (g : FactGroup). g.name) builtin_fact_groups
    ≡ text "memory"
      ∷ text "networking"
      ∷ text "operating system"
      ∷ text "packages"
      ∷ text "path"
      ∷ text "processor"
      ∷ []
unfolding builtin_fact_groups text_eq
groups_run = refl

abbrev ambient_run : Sources
ambient_run = (text "ssh", disabled_source_config) ∷ []

union_run :
    union_disabled_facts ascii (text "ssh" ∷ text "dmi" ∷ []) [] (text "dmi" ∷ []) false []
    ≡ returns (text "ssh" ∷ text "dmi" ∷ text "dmi" ∷ [], ambient_run)
unfolding union_disabled_facts environment_disabled_facts expand disabled_facts_with_groups
    builtin_fact_groups text_eq drop_covered fact_hierarchy_covers has_prefix
union_run = refl

union_disabled_facts-ambient_example :
    All (IsIn (text "ssh" ∷ text "dmi" ∷ text "dmi" ∷ [])) ambient_run
    × All (λ n. All (IsClear n) ambient_run) (expand (text "dmi" ∷ []) [])
union_disabled_facts-ambient_example =
    union_disabled_facts-ambient ascii (text "ssh" ∷ text "dmi" ∷ []) [] (text "dmi" ∷ []) false []
      (text "ssh" ∷ text "dmi" ∷ text "dmi" ∷ []) ambient_run union_run

abbrev system_engine : EngineConfig
system_engine = record {
  config_file = [];
  external_dirs = [];
  use_cache = false;
  system_defaults = true;
  defaults = none;
  cli_compat = false;
  no_external_facts = false;
  disabled_facts = none;
  extra_disabled = [];
  config_loaded = true;
  config = empty_config;
  include_typed_dotted = false;
}

abbrev system_dirs : DiscoveryDefaults
system_dirs = record {
  native_config_path = [];
  compatible_config_path = [];
  cache_path = [];
  external_fact_dirs = text "/etc/facts.d" ∷ [];
}

abbrev system_plan : DiscoveryPlan
system_plan = start_plan system_engine system_dirs (found_config empty_config) []

abbrev os_cache : FactCache
os_cache = record {
  groups = (text "operating system", text "os" ∷ []) ∷ [];
  ttls = (text "operating system", 3600000000000) ∷ (text "os.distro", 60000000000) ∷ [];
}

cache_group_for_fact-longest_example :
    All
      (λ e.
        All
          (IsWithin (cache_group_for_fact os_cache (text "os.distro.id")) (text "os.distro.id"))
          (prefixes_of os_cache.groups e.0))
      os_cache.ttls
    × IsChosen os_cache.groups os_cache.ttls
        (text "os.distro.id")
        (cache_group_for_fact os_cache (text "os.distro.id"))
cache_group_for_fact-longest_example = cache_group_for_fact-longest os_cache (text "os.distro.id")

group_run :
    cache_group_for_fact os_cache (text "os.distro.id") ≡ some (text "os.distro", 60000000000, 9)
unfolding cache_group_for_fact text_eq has_prefix
group_run = refl

-- The paths of texts without separators, and no regular expressions.
abbrev plain_paths : PathLibrary
plain_paths = record {
  base = λ t. t;
  clean = λ t. t;
  is_abs = λ t. false;
  match_string = λ t. none;
  to_upper = λ t. t;
  contains = contains;
  fields = λ t. t ∷ [];
}

abbrev fresh_files : CacheFiles
fresh_files = record {
  fresh = λ g t. true;
  read = λ g. some (field (text "os") (str (text "cached")) end);
}

resolve_facts-names_example :
    Perm
      (named (
        resolve_facts plain_paths os_cache fresh_files
          (fact_of (text "os") (str (text "new")) ∷ fact_of (text "ssh") null ∷ [])))
      (text "os" ∷ text "ssh" ∷ [])
resolve_facts-names_example =
    resolve_facts-names plain_paths os_cache fresh_files
      (fact_of (text "os") (str (text "new")) ∷ fact_of (text "ssh") null ∷ [])
      (unfold text_eq in refl, (unfold text_eq in refl, tt))

ttl_duration-bounds_example :
    (1000000000 ≤ 1500 * 1000000)
    × (1500 * 1000000 < 1000000000 + nanoseconds_per_second)
    × (1500 * 1000000 < 2 ^ 63)
ttl_duration-bounds_example =
    ttl_duration-bounds 1500 1000000 1000000000 (omega arith) (unfold ttl_duration in refl)
