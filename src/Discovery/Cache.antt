-- ===== src/Discovery/Cache.antt =====
-- internal/engine/cache.go: how a cache is set up, and what it gives back. The files are parameters:
-- what is fresh and what a read returns.
pub mod Accounted
use facts.Base.{
  ℕ, ◌+◌, ◌-◌, ◌*◌, ◌/◌, ◌^◌, Bool, true, false, not, ◌&&◌, ◌||◌, List, [], ◌∷◌, ◌++◌, Option, none,
  some, length, ltb, leb, is_nil, is_some, any, keep, map, ◌==◌, if◌then◌else◌,
}
use facts.Base.Text.{Text, text, text_eq, has_prefix, has_byte, mem_text}
use facts.Base.Text.Order.{sort_texts}
use facts.Base.Text.Split.{cut}
use facts.Base.Text.Number.{parse_int}
use facts.Base.Int.{pos, negsuc}
use facts.Value.{Value, Fields, end, lookup, keys}
use facts.Fact.{ResolvedFact, dot}
use facts.Groups.{FactGroup}
use facts.Groups.Ttl.{FactTtl}
use facts.Discovery.Descriptors.{builtin_fact_groups}
use facts.Discovery.CacheGroups.{
  PathLibrary, nanoseconds_per_second, ttl_unit_multiplier, ttl_duration, parse_ttl_duration,
  windows_reserved_cache_name, safe_cache_group_name, fact_matches_prefix, FactCache, Best,
  best_len, longer_than, best_prefix, find_group, prefixes_of, best_group, cache_group_for_fact,
  cache_group_for_resolved_fact, external_fact_in_custom_group,
}

set_ttl : Text → ℕ → List (Text × ℕ) → List (Text × ℕ)
set_ttl name ttl [] = (name, ttl) ∷ []
set_ttl name ttl ((n, t) ∷ ttls) =
    let rest = set_ttl name ttl ttls in if text_eq n name then (n, ttl) ∷ ttls else (n, t) ∷ rest

ttl_loop : PathLibrary → List (Text × ℕ) → List FactTtl → List (Text × ℕ)
unfolding parse_ttl_duration set_ttl
ttl_loop lib ttls [] = ttls
ttl_loop lib ttls (t ∷ configured) = elim (parse_ttl_duration lib t.ttl) [
  | some duration ↦ ttl_loop lib (set_ttl t.fact duration ttls) configured
  | none ↦ ttl_loop lib ttls configured
]

-- The map of the groups: the list of its writes, the last one first.
group_loop : List (Text × List Text) → List FactGroup → List (Text × List Text)
group_loop groups [] = groups
group_loop groups (g ∷ more) = group_loop ((g.name, g.facts) ∷ groups) more

-- `NewFactCache`, but for the directory
unfoldable pub new_fact_cache : PathLibrary → List FactTtl → List FactGroup → FactCache
unfolding ttl_loop group_loop
new_fact_cache lib ttls groups = record {
  groups = group_loop (group_loop [] builtin_fact_groups) groups;
  ttls = ttl_loop lib [] ttls;
}

with_name : ResolvedFact → Fields → Text → List ResolvedFact
with_name searched content name = elim (lookup name content) [
  | some v ↦ record searched { name = name; value = v } ∷ []
  | none ↦ []
]

with_names : ResolvedFact → Fields → List Text → List ResolvedFact
unfolding with_name
with_names searched content [] = []
with_names searched content (name ∷ names) =
    with_name searched content name ++ with_names searched content names

-- `cachedExternalFacts`
unfoldable pub cached_external_facts : ResolvedFact → Fields → List ResolvedFact
unfolding with_names sort_texts
cached_external_facts searched content =
    with_names searched content
      (sort_texts (keep (λ n. not (text_eq n (text "cache_format_version"))) (keys content)))

-- `cacheDataHasKeyMatchingFact`
unfoldable pub cache_data_has_key_matching_fact : PathLibrary → Fields → Text → Bool
cache_data_has_key_matching_fact lib content name = elim (lib.match_string name) [
  | none ↦ any (λ key. lib.contains key name) (keys content)
  | some matches ↦ any matches (keys content)
]

-- What the directory holds: whether a group's file is fresh for a TTL, and what it reads as.
pub record CacheFiles : Type 0 where
  pub fresh : Text → ℕ → Bool
  pub read : Text → Option Fields

-- What becomes of one searched fact: it remains, it remains and its
-- group's cache is dropped (the file is deleted where the group's name is a safe one), or it is
-- replaced by cached facts.
pub data CacheStep : Type 0 where
  miss : CacheStep
  stale : CacheStep
  hit : List ResolvedFact → CacheStep

lookup_step : PathLibrary → ResolvedFact → Fields → CacheStep
unfolding cached_external_facts cache_data_has_key_matching_fact
lookup_step lib fact content =
    if text_eq fact.type (text "file")
    then hit (cached_external_facts fact content)
    else if not (cache_data_has_key_matching_fact lib content fact.name)
    then stale
    else elim (lookup fact.name content) [
      | some v ↦ hit (record fact { value = v } ∷ [])
      | none ↦ miss
    ]

-- One round of the loop, at the groups that were dropped before.
unfoldable pub cache_step :
    PathLibrary → CacheFiles → List Text → ResolvedFact → Text → ℕ → CacheStep
unfolding lookup_step external_fact_in_custom_group
cache_step lib files gone fact group ttl =
    if external_fact_in_custom_group lib fact group || not (files.fresh group ttl)
    then miss
    else if mem_text group gone
    then miss
    else elim (files.read group) [ some content ↦ lookup_step lib fact content | none ↦ miss ]

pub record Resolution : Type 0 where
  pub remaining : List ResolvedFact
  pub cached : List ResolvedFact
  pub dropped : List Text

unfoldable pub keep_fact : ResolvedFact → Resolution → Resolution
keep_fact fact r = record r { remaining = fact ∷ r.remaining }

-- The loop of `ResolveFacts`.
unfoldable pub resolve_loop :
    PathLibrary → FactCache → CacheFiles → List Text → List ResolvedFact → Resolution
unfolding cache_step cache_group_for_resolved_fact keep_fact
resolve_loop lib fc files gone [] = record { remaining = []; cached = []; dropped = gone }
resolve_loop lib fc files gone (fact ∷ searched) =
    elim (cache_group_for_resolved_fact lib fc fact) [
      | none ↦ keep_fact fact (resolve_loop lib fc files gone searched)
      | some (group, ttl, _) ↦ elim (cache_step lib files gone fact group ttl) [
        | miss ↦ keep_fact fact (resolve_loop lib fc files gone searched)
        | stale ↦ keep_fact fact (resolve_loop lib fc files (group ∷ gone) searched)
        | hit facts ↦
            let r = resolve_loop lib fc files gone searched in
            record r { cached = facts ++ r.cached }
      ]
    ]

-- `ResolveFacts`, for a cache with a directory
unfoldable pub resolve_facts : PathLibrary → FactCache → CacheFiles → List ResolvedFact → Resolution
unfolding resolve_loop
resolve_facts lib fc files searched =
    if is_nil fc.ttls
    then record { remaining = searched; cached = []; dropped = [] }
    else resolve_loop lib fc files [] searched
