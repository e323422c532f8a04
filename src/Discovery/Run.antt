-- ===== src/Discovery/Run.antt =====
-- `Discover` of internal/engine/engine.go, from the gathered facts on: the filter, the queries and the
-- cache. The facts of the core, of the registered resolvers and of the loader are arguments; the run
-- is not cancelled, and the write of the cache is left out.
pub mod Clear
mod Tests
use facts.Base.{Bool, true, false, List, [], ◌∷◌, ◌++◌, is_nil, if◌then◌else◌}
use facts.Base.Text.{Text}
use facts.Fact.{ResolvedFact}
use facts.Groups.{filter_disabled_facts}
use facts.Projection.{new_projection, select_facts}
use facts.Discovery.Plan.{DiscoveryPlan}
use facts.Discovery.Cache.{CacheFiles, Resolution, new_fact_cache, resolve_facts}
use facts.Discovery.CacheGroups.{PathLibrary}

-- `NewProjection(facts, plan.includeTypedDotted).selectFacts(plan.queries)`, where there are queries
unfoldable pub selected : (Text → Text) → DiscoveryPlan → List ResolvedFact → List ResolvedFact
selected to_lower plan facts =
    if is_nil plan.queries
    then facts
    else (select_facts to_lower (new_projection facts plan.include_typed_dotted) plan.queries).0

-- What remains and what the cache gave, which is filtered again.
unfoldable pub with_cached : List Text → Resolution → List ResolvedFact
with_cached disabled r = r.remaining ++ filter_disabled_facts r.cached disabled

-- `ResolveFacts` on a cache at a path: without a path, all facts remain.
unfoldable pub resolve_at :
    PathLibrary → CacheFiles → DiscoveryPlan → List ResolvedFact → Resolution
unfolding resolve_facts
resolve_at lib files plan searched =
    if is_nil plan.cache_path
    then record { remaining = searched; cached = []; dropped = [] }
    else resolve_facts lib (new_fact_cache lib plan.cache_ttls plan.cache_groups) files searched

-- The facts of a snapshot, from the gathered ones.
unfoldable pub discovered_facts :
    (Text → Text)
    → PathLibrary
    → CacheFiles
    → DiscoveryPlan
    → List ResolvedFact
    → List ResolvedFact
    → List ResolvedFact
    → List ResolvedFact
unfolding selected with_cached resolve_at
discovered_facts to_lower lib files plan core registered external =
    let gathered = filter_disabled_facts ((core ++ registered) ++ external) plan.disabled_facts in
    let asked = selected to_lower plan gathered in
    if plan.use_cache
    then selected to_lower plan (
        with_cached plan.disabled_facts
          (resolve_at lib files plan (filter_disabled_facts asked plan.disabled_facts)))
    else asked
