-- ===== src/Discovery/CacheGroups.antt =====
-- internal/engine/cache.go: which group caches a fact, and for how long. A duration is in
-- nanoseconds. The map of the TTLs is a list, in the order of one iteration.
pub mod Longest
pub mod Duration
use facts.Base.{
  ℕ, ◌+◌, ◌-◌, ◌*◌, ◌/◌, ◌^◌, Bool, true, false, not, ◌&&◌, ◌||◌, List, [], ◌∷◌, ◌++◌, Option, none,
  some, length, ltb, leb, is_nil, is_some, any, keep, map, ◌==◌, if◌then◌else◌,
}
use facts.Base.Text.{Text, text, text_eq, has_prefix, has_byte, mem_text}
use facts.Base.Text.Order.{sort_texts}
use facts.Base.Text.Split.{cut}
use facts.Base.Text.Number.{parse_int}
use facts.Base.Int.{pos, negsuc}
use facts.Value.{Value, Fields, end, lookup, keys}
use facts.Fact.{ResolvedFact, dot}
use facts.Groups.{FactGroup}
use facts.Groups.Ttl.{FactTtl}
use facts.Discovery.Descriptors.{builtin_fact_groups}

-- The functions of `path/filepath` and `regexp` that the cache calls, and `strings.ToUpper`.
pub record PathLibrary : Type 0 where
  -- `filepath.Base`
  pub base : Text → Text
  -- `filepath.Clean`
  pub clean : Text → Text
  -- `filepath.IsAbs`
  pub is_abs : Text → Bool
  -- the match of a text against a regular expression; `none` where it does not compile
  pub match_string : Text → Option (Text → Bool)
  -- `strings.ToUpper`
  pub to_upper : Text → Text
  -- `strings.Contains`
  pub contains : Text → Text → Bool
  -- `strings.Fields`
  pub fields : Text → List Text

abbrev pub nanoseconds_per_second : ℕ
nanoseconds_per_second = 1000000000

-- `ttlUnitMultiplier`
unfoldable pub ttl_unit_multiplier : Text → Option ℕ
unfolding mem_text
ttl_unit_multiplier unit =
    if mem_text unit (text "ns" ∷ text "nanos" ∷ text "nanoseconds" ∷ [])
    then some 1
    else if mem_text unit (text "us" ∷ text "micros" ∷ text "microseconds" ∷ [])
    then some 1000
    else if mem_text unit ([] ∷ text "ms" ∷ text "milis" ∷ text "milliseconds" ∷ [])
    then some 1000000
    else if mem_text unit (text "s" ∷ text "seconds" ∷ [])
    then some nanoseconds_per_second
    else if mem_text unit (text "m" ∷ text "minutes" ∷ [])
    then some (60 * nanoseconds_per_second)
    else if mem_text unit (text "h" ∷ text "hours" ∷ [])
    then some (3600 * nanoseconds_per_second)
    else if mem_text unit (text "d" ∷ text "days" ∷ [])
    then some (86400 * nanoseconds_per_second)
    else none

ends_in_s : Text → Bool
ends_in_s [] = false
ends_in_s (c ∷ []) = c == b's'
ends_in_s (c ∷ d ∷ s) = ends_in_s (d ∷ s)

plural : Text → Text
unfolding ends_in_s
plural unit = if ltb 2 (length unit) && not (ends_in_s unit) then unit ++ text "s" else unit

-- The amount times the multiplier, where an `int64` holds it, cut to seconds.
unfoldable pub ttl_duration : ℕ → ℕ → Option ℕ
ttl_duration amount multiplier =
    if ltb 0 multiplier && ltb ((2 ^ 63 - 1) / multiplier) amount
    then none
    else some (
        if ltb multiplier nanoseconds_per_second
        then amount * multiplier / nanoseconds_per_second * nanoseconds_per_second
        else amount * multiplier)

ttl_of : Text → Text → Option ℕ
unfolding ttl_unit_multiplier plural ttl_duration
ttl_of amount unit = elim (parse_int amount) [
  | some (pos n) ↦ elim (ttl_unit_multiplier (plural unit)) [
    | some multiplier ↦ ttl_duration n multiplier
    | none ↦ none
  ]
  | some (negsuc n) ↦ none
  | none ↦ none
]

-- `parseTTLDuration`
unfoldable pub parse_ttl_duration : PathLibrary → Text → Option ℕ
unfolding ttl_of
parse_ttl_duration lib value = elim (lib.fields value) [
  | [] ↦ none
  | amount ∷ units ↦ elim units [
    | [] ↦ ttl_of amount []
    | unit ∷ more ↦ if is_nil more then ttl_of amount unit else none
  ]
]

-- What is before the first dot.
before_dot : Text → Text
before_dot name = elim (cut dot name) [ some (before, _) ↦ before | none ↦ name ]

numbered : Text → Bool
numbered (a ∷ b ∷ c ∷ d ∷ []) = leb b'1' d && leb d b'9'
numbered _ = false

-- `windowsReservedCacheName`
unfoldable pub windows_reserved_cache_name : PathLibrary → Text → Bool
unfolding mem_text has_prefix before_dot numbered
windows_reserved_cache_name lib name =
    let base = before_dot (lib.to_upper name) in
    if mem_text base (text "CON" ∷ text "PRN" ∷ text "AUX" ∷ text "NUL" ∷ [])
    then true
    else numbered base && (has_prefix base (text "COM") || has_prefix base (text "LPT"))

-- `strings.TrimRight(name, ". ")`
trim_dots : Text → Text
trim_dots [] = []
trim_dots (c ∷ s) = elim (trim_dots s) [
  | [] ↦ if c == dot || c == b' ' then [] else c ∷ []
  | d ∷ r ↦ c ∷ d ∷ r
]

-- `safeCacheGroupName`
unfoldable pub safe_cache_group_name : PathLibrary → Text → Bool
unfolding trim_dots windows_reserved_cache_name has_byte
safe_cache_group_name lib name =
    not (is_nil name)
    && not (text_eq name (text "."))
    && not (text_eq name (text ".."))
    && text_eq (trim_dots name) name
    && text_eq (lib.clean name) name
    && not (lib.is_abs name)
    && not (has_byte b'/' name || has_byte b'\\' name || has_byte b':' name)
    && not (windows_reserved_cache_name lib name)

-- `factMatchesPrefix`
unfoldable pub fact_matches_prefix : Text → Text → Bool
fact_matches_prefix name prefix = text_eq name prefix || has_prefix name (prefix ++ (dot ∷ []))

-- The maps of a `FactCache`.
pub record FactCache : Type 0 where
  pub groups : List (Text × List Text)
  pub ttls : List (Text × ℕ)

-- The best group so far, its TTL, and the length of the prefix that matched.
abbrev pub Best : Type 0
Best = Option (Text × ℕ × ℕ)

abbrev pub best_len : Best → Option ℕ
best_len none = none
best_len (some (_, _, l)) = some l

-- `len(prefix) > bestLen`
abbrev pub longer_than : ℕ → Option ℕ → Bool
longer_than l none = true
longer_than l (some best) = ltb best l

-- The loop over the facts of one configured group.
unfoldable pub best_prefix : Text → Text → ℕ → Best → List Text → Best
unfolding fact_matches_prefix
best_prefix name configured ttl best [] = best
best_prefix name configured ttl best (prefix ∷ prefixes) =
    best_prefix name configured ttl
      (if fact_matches_prefix name prefix && longer_than (length prefix) (best_len best)
        then some (configured, ttl, length prefix)
        else best)
      prefixes

unfoldable pub find_group : Text → List (Text × List Text) → Option (List Text)
find_group name [] = none
find_group name ((n, prefixes) ∷ groups) =
    if text_eq n name then some prefixes else find_group name groups

-- The prefixes that a configured TTL stands for: the facts of its group, or itself.
abbrev pub prefixes_of : List (Text × List Text) → Text → List Text
prefixes_of groups configured = elim (find_group configured groups) [
  | some prefixes ↦ prefixes
  | none ↦ configured ∷ []
]

unfoldable pub best_group : List (Text × List Text) → Text → Best → List (Text × ℕ) → Best
unfolding best_prefix find_group
best_group groups name best [] = best
best_group groups name best ((configured, ttl) ∷ ttls) =
    best_group groups name (best_prefix name configured ttl best (prefixes_of groups configured))
      ttls

-- `cacheGroupForFact`
unfoldable pub cache_group_for_fact : FactCache → Text → Best
unfolding best_group
cache_group_for_fact fc name = best_group fc.groups name none fc.ttls

-- `cacheGroupForResolvedFact`
unfoldable pub cache_group_for_resolved_fact : PathLibrary → FactCache → ResolvedFact → Best
unfolding cache_group_for_fact
cache_group_for_resolved_fact lib fc fact =
    if text_eq fact.type (text "file") && not (is_nil fact.file)
    then (elim (cache_group_for_fact fc (lib.base fact.file)) [
      | some best ↦ some best
      | none ↦ cache_group_for_fact fc fact.name
    ])
    else cache_group_for_fact fc fact.name

-- `externalFactInCustomGroup`
unfoldable pub external_fact_in_custom_group : PathLibrary → ResolvedFact → Text → Bool
external_fact_in_custom_group lib fact group =
    text_eq fact.type (text "file")
    && not (is_nil fact.file)
    && not (text_eq group (lib.base fact.file))
