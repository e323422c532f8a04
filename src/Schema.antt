-- ===== src/Schema.antt =====
-- internal/schema/schema.go: the schema of the documented facts and the paths that it covers. The
-- YAML decoder and the list of platforms are not modelled.
pub mod Paths
pub mod Leaves
mod Tests
use facts.Base.{
  ℕ, zero, suc, ◌+◌, Bool, true, false, not, ◌&&◌, ◌||◌, List, [], ◌∷◌, ◌++◌, Option, none, some,
  map, length, ltb, leb, is_nil, is_some, any, all, keep, ◌==◌, if◌then◌else◌,
}
use facts.Base.Text.{Text, text, text_eq, mem_text}
use facts.Base.Text.Order.{sort_texts}
use facts.Base.Text.Unicode.{Unicode}
use facts.Value.{
  Value, null, str, int, float, bool, arr, strs, ints, obj, any_map, other, Fields, end, field,
}
use Paths.{escape_segment, join_path, split_path, join_escaped_segments}

pub record Entry : Type 0 where
  pub type : Text
  pub description : Text
  pub platforms : List Text
  pub conditional : Bool
  pub open_subtree : Bool

-- `Schema`, a map from paths to entries; its keys are distinct.
abbrev pub Schema : Type 0
Schema = List (Text × Entry)

abbrev pub star : Text
star = text "*"

abbrev pub is_type : Entry → Text → Bool
is_type entry t = text_eq entry.type t

-- `PlatformsInclude`
unfoldable pub platforms_include : List Text → Text → Bool
unfolding mem_text
platforms_include platforms platform = mem_text platform platforms

-- `matchSegments`
unfoldable pub match_segments : List Text → List Text → Bool
match_segments [] [] = true
match_segments (part ∷ pattern) (segment ∷ segments) =
    (text_eq part star || text_eq part segment) && match_segments pattern segments
match_segments _ _ = false

unfoldable pub take : ℕ → List Text → List Text
take zero xs = []
take (suc n) [] = []
take (suc n) (x ∷ xs) = x ∷ take n xs

abbrev pub last_is_star : List Text → Bool
last_is_star [] = false
last_is_star (x ∷ []) = text_eq x star
last_is_star (x ∷ y ∷ xs) = last_is_star (y ∷ xs)

-- `MatchesPath`
unfoldable pub matches_path : Text → Entry → Text → Bool
unfolding match_segments take
matches_path pattern entry path =
    let ps = split_path pattern in
    let qs = split_path path in
    if match_segments ps qs
    then true
    else if is_type entry (text "array") && (length qs == length ps + 1) && last_is_star qs
    then match_segments ps (take (length ps) qs)
    else if not entry.open_subtree
        || (not (is_type entry (text "map")) && not (is_type entry (text "array")))
        || leb (length qs) (length ps)
    then false
    else match_segments ps (take (length ps) qs)

-- `Patterns`
unfoldable pub patterns : Schema → List Text
unfolding sort_texts
patterns schema = sort_texts (map (λ e. e.0) schema)

unfoldable pub find_entry : Text → Schema → Option Entry
find_entry pattern [] = none
find_entry pattern ((p, e) ∷ schema) =
    if text_eq p pattern then some e else find_entry pattern schema

-- An entry with its path, `Item`.
pub record Item : Type 0 where
  pub path : Text
  pub item : Entry

items_for : Schema → Text → List Text → List Item
items_for schema platform [] = []
items_for schema platform (path ∷ paths) =
    let rest = items_for schema platform paths in
    elim (find_entry path schema) [
      | none ↦ rest
      | some e ↦
          if platforms_include e.platforms platform
          then record { path = path; item = e } ∷ rest
          else rest
    ]

-- `EntriesForPlatform`
unfoldable pub entries_for_platform : Schema → Text → List Item
unfolding items_for find_entry platforms_include patterns
entries_for_platform schema platform = items_for schema platform (patterns schema)

documents : Text → Text → Text × Entry → Bool
documents platform path (pattern, entry) =
    platforms_include entry.platforms platform && matches_path pattern entry path

-- `UndocumentedPaths`
unfoldable pub undocumented_paths : Schema → List Text → Text → List Text
unfolding documents platforms_include matches_path
undocumented_paths schema paths platform =
    keep (λ path. not (any (documents platform path) schema)) paths

-- `lastSegmentIndex`; `none` is -1
unfoldable pub last_segment_index : List Text → Text → Option ℕ
last_segment_index [] target = none
last_segment_index (s ∷ segments) target = elim (last_segment_index segments target) [
  | some i ↦ some (suc i)
  | none ↦ if text_eq s target then some 0 else none
]

-- The concrete pattern of one path: the segments of the path up to the last wildcard. `none` is
-- "no match"; the count is that of the segments up to and with the last wildcard.
unfoldable pub concrete_pattern : ℕ → List Text → List Text → Option (List Text)
concrete_pattern zero pattern segments = some pattern
concrete_pattern (suc n) [] segments = some []
concrete_pattern (suc n) (p ∷ pattern) [] = none
concrete_pattern (suc n) (p ∷ pattern) (s ∷ segments) =
    let rest = concrete_pattern n pattern segments in
    if text_eq p star || text_eq p s
    then (elim rest [ none ↦ none | some r ↦ some (s ∷ r) ])
    else none

concrete_loop : ℕ → List Text → List Text → List Text → List Text
concrete_loop count pattern seen [] = []
concrete_loop count pattern seen (path ∷ paths) =
    let skip = concrete_loop count pattern seen paths in
    elim (concrete_pattern count pattern (split_path path)) [
      | none ↦ skip
      | some concrete ↦
          let p = join_escaped_segments concrete in
          let later = concrete_loop count pattern (p ∷ seen) paths in
          if mem_text p seen then skip else p ∷ later
    ]

-- `concreteWildcardPatterns`
unfoldable pub concrete_wildcard_patterns : List Text → List Text → List Text
unfolding concrete_loop concrete_pattern last_segment_index sort_texts
concrete_wildcard_patterns pattern paths = elim (last_segment_index pattern star) [
  | none ↦ sort_texts (concrete_loop 0 pattern [] paths)
  | some i ↦ sort_texts (concrete_loop (suc i) pattern [] paths)
]

-- `schemaEntryPresent`
unfoldable pub schema_entry_present : Text → Entry → List Text → Bool
unfolding concrete_wildcard_patterns last_segment_index matches_path
schema_entry_present pattern entry paths =
    let ps = split_path pattern in
    let plain = any (matches_path pattern entry) paths in
    let concrete = concrete_wildcard_patterns ps paths in
    let wild = not (is_nil concrete) && all (λ c. any (matches_path c entry) paths) concrete in
    elim (last_segment_index ps star) [
      | none ↦ plain
      | some i ↦ if suc i == length ps then plain else wild
    ]

-- `wildcardPrefixAbsent`
unfoldable pub wildcard_prefix_absent : Text → List Text → Bool
unfolding last_segment_index match_segments take
wildcard_prefix_absent pattern paths =
    let ps = split_path pattern in
    elim (last_segment_index ps star) [
      | none ↦ false
      | some i ↦
          if suc i == length ps
          then false
          else not (
              any
                (λ path.
                  ltb i (length (split_path path))
                  && match_segments (take i ps) (take i (split_path path)))
                paths)
    ]

missing_entry : Schema → List Text → Text → Text → Bool
missing_entry schema paths platform pattern = elim (find_entry pattern schema) [
  | none ↦ false
  | some e ↦
      not (e.conditional || not (platforms_include e.platforms platform))
      && not (wildcard_prefix_absent pattern paths)
      && not (schema_entry_present pattern e paths)
]

-- `MissingEntries`
unfoldable pub missing_entries : Schema → List Text → Text → List Text
unfolding missing_entry find_entry platforms_include wildcard_prefix_absent schema_entry_present
    patterns
missing_entries schema paths platform = keep (missing_entry schema paths platform) (patterns schema)

-- The leaves below a prefix, in the order of the iteration.
unfoldable mutual
  pub walk : Text → Value → List Text
  walk prefix (obj end) = prefix ∷ []
  walk prefix (obj (field k v m)) = walk_fields prefix (field k v m)
  walk prefix (arr vs) = (prefix ++ text ".*") ∷ []
  walk prefix (strs ss) = (prefix ++ text ".*") ∷ []
  walk prefix (ints ns) = (prefix ++ text ".*") ∷ []
  walk prefix _ = prefix ∷ []

  pub walk_fields : Text → Fields → List Text
  walk_fields prefix end = []
  walk_fields prefix (field k v m) = walk (join_path prefix k) v ++ walk_fields prefix m

walk_tree : Fields → List Text
walk_tree end = []
walk_tree (field k v m) = walk (escape_segment k) v ++ walk_tree m

-- `FlattenTree`
unfoldable pub flatten_tree : Fields → List Text
unfolding walk walk_tree sort_texts
flatten_tree tree = sort_texts (walk_tree tree)
