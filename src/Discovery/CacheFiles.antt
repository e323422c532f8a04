-- ===== src/Discovery/CacheFiles.antt =====
-- internal/engine/cache.go: how the cache is written. The file system is a list of paths with their
-- contents; what its calls return is a parameter, and so are the encoder and the decoder of JSON.
pub mod Atomic
pub mod Elsewhere
mod Tests
use facts.Base.{
  ℕ, zero, suc, Bool, true, false, not, ◌&&◌, ◌||◌, List, [], ◌∷◌, ◌++◌, Option, none, some, take,
  all, is_nil, is_some, if◌then◌else◌,
}
use facts.Base.Int.{pos}
use facts.Base.Text.{Text, text, text_eq}
use facts.Value.{Value, null, int, obj, Fields, end, put, lookup, keys}
use facts.Fact.{ResolvedFact}
use facts.Discovery.CacheGroups.{
  PathLibrary, safe_cache_group_name, FactCache, cache_group_for_resolved_fact,
}

abbrev pub Files : Type 0
Files = List (Text × Text)

unfoldable pub read_file : Text → Files → Option Text
read_file path [] = none
read_file path ((p, c) ∷ files) = if text_eq p path then some c else read_file path files

unfoldable pub remove_file : Text → Files → Files
remove_file path [] = []
remove_file path ((p, c) ∷ files) =
    let rest = remove_file path files in if text_eq p path then rest else (p, c) ∷ rest

unfoldable pub set_file : Text → Text → Files → Files
unfolding remove_file
set_file path content files = (path, content) ∷ remove_file path files

unfoldable pub rename_file : Text → Text → Files → Files
unfolding read_file remove_file set_file
rename_file old new files = elim (read_file old files) [
  | none ↦ files
  | some c ↦ set_file new c (remove_file old files)
]

pub data WriteError : Type 0 where
  permission : WriteError
  other_failure : WriteError

-- What the calls of one `writeCacheFile` return, each with its error, if any. A write that fails
-- leaves so many bytes.
pub record WriteRun : Type 0 where
  pub tmp_path : Text
  pub create : Option WriteError
  pub write_data : Option (ℕ × WriteError)
  pub chmod : Option WriteError
  pub close : Option WriteError
  pub rename : Option WriteError
  pub removed : Bool

-- The file systems between the calls, in order, the last one, and the error.
pub record Writing : Type 0 where
  pub between : List Files
  pub files : Files
  pub error : Option WriteError

-- The deferred removal of the temporary file.
unfoldable cleanup : WriteRun → Files → Files
unfolding remove_file
cleanup run files = if run.removed then remove_file run.tmp_path files else files

unfoldable give_up : WriteRun → List Files → Files → WriteError → Writing
unfolding cleanup
give_up run between files e = record {
  between = between;
  files = cleanup run files;
  error = some e;
}

-- The calls behind the write, on the file systems so far.
unfoldable finish : WriteRun → Text → List Files → Files → Writing
unfolding give_up rename_file
finish run path between files = elim run.chmod [
  | some e ↦ give_up run between files e
  | none ↦ elim run.close [
    | some e ↦ give_up run between files e
    | none ↦ elim run.rename [
      | some e ↦ give_up run between files e
      | none ↦ record {
        between = between;
        files = rename_file run.tmp_path path files;
        error = none;
      }
    ]
  ]
]

-- `writeCacheFile`
unfoldable pub write_cache_file : WriteRun → Text → Text → Files → Writing
unfolding give_up finish set_file
write_cache_file run path content files =
    let empty = set_file run.tmp_path [] files in
    elim run.create [
      | some e ↦ record { between = []; files = files; error = some e }
      | none ↦ elim run.write_data [
        | some (n, e) ↦
            let part = set_file run.tmp_path (take n content) files in
            give_up run (empty ∷ part ∷ []) part e
        | none ↦
            let whole = set_file run.tmp_path content files in
            finish run path (empty ∷ whole ∷ []) whole
      ]
    ]

pub data CacheStat : Type 0 where
  missing : CacheStat
  expired : CacheStat
  fresh_file : CacheStat

-- What the cache asks of the system.
pub record CacheHost : Type 0 where
  pub paths : PathLibrary
  pub dir : Text
  pub join : Text → Text → Text
  pub mkdir : Option WriteError
  pub stat : Text → ℕ → CacheStat
  pub can_remove : Text → Bool
  pub write_run : Text → WriteRun
  pub encode : Fields → Option Text
  pub decode : Text → Option Value

-- `cachePath`
unfoldable pub cache_file_path : CacheHost → Text → Option Text
unfolding safe_cache_group_name
cache_file_path h group =
    if safe_cache_group_name h.paths group then some (h.join h.dir group) else none

holds_keys : Fields → Option Value → Bool
holds_keys content (some (obj m)) = all (λ key. is_some (lookup key m)) (keys content)
holds_keys content _ = false

-- `cacheContainsFacts`
unfoldable pub cache_contains_facts : CacheHost → Text → Fields → Files → Bool
unfolding holds_keys read_file
cache_contains_facts h path content files = elim (read_file path files) [
  | none ↦ false
  | some t ↦ holds_keys content (h.decode t)
]

-- What `shouldWriteCache` makes of the file's state.
unfoldable stat_step : CacheHost → Text → Fields → Files → CacheStat → Bool × Files
unfolding cache_contains_facts remove_file
stat_step h path content files missing = (true, files)
stat_step h path content files expired =
    (true, if h.can_remove path then remove_file path files else files)
stat_step h path content files fresh_file = (not (cache_contains_facts h path content files), files)

-- `shouldWriteCache`, with the file system behind it
unfoldable pub should_write_cache : CacheHost → Text → ℕ → Fields → Files → Bool × Files
unfolding cache_file_path stat_step
should_write_cache h group ttl content files = elim (cache_file_path h group) [
  | none ↦ (false, files)
  | some path ↦ stat_step h path content files (h.stat path ttl)
]

-- A `map[string]map[string]any`, in the order of its iteration.
abbrev pub Grouped : Type 0
Grouped = List (Text × Fields)

unfoldable pub group_fact : Text → ResolvedFact → Grouped → Grouped
group_fact group fact [] = (group, put fact.name fact.value end) ∷ []
group_fact group fact ((g, m) ∷ grouped) =
    let rest = group_fact group fact grouped in
    if text_eq g group then (g, put fact.name fact.value m) ∷ grouped else (g, m) ∷ rest

unfoldable pub group_facts : PathLibrary → FactCache → Grouped → List ResolvedFact → Grouped
unfolding cache_group_for_resolved_fact group_fact
group_facts lib fc grouped [] = grouped
group_facts lib fc grouped (fact ∷ facts) = elim (cache_group_for_resolved_fact lib fc fact) [
  | none ↦ group_facts lib fc grouped facts
  | some (group, _, _) ↦ group_facts lib fc (group_fact group fact grouped) facts
]

unfoldable group_ttl : Text → List (Text × ℕ) → ℕ
group_ttl group [] = 0
group_ttl group ((g, t) ∷ ttls) = if text_eq g group then t else group_ttl group ttls

-- The file system behind `CacheFacts`, and its error; a failure of permission is only a warning.
pub record Cached : Type 0 where
  pub files : Files
  pub failed : Bool

unfoldable is_write_failure : WriteError → Bool
is_write_failure permission = false
is_write_failure other_failure = true

-- A group that is to be written.
unfoldable write_group : CacheHost → Text → Fields → Files → Option Writing
unfolding cache_file_path write_cache_file
write_group h group content files = elim (h.encode content) [
  | none ↦ none
  | some t ↦ elim (cache_file_path h group) [
    | none ↦ some (record { between = []; files = files; error = none })
    | some path ↦ some (write_cache_file (h.write_run path) path t files)
  ]
]

-- The loop over the groups: `next` is the loop behind a group.
unfoldable after_write : Option Writing → Files → (Files → Cached) → Cached
unfolding is_write_failure
after_write none files next = record { files = files; failed = true }
after_write (some w) files next = elim w.error [
  | none ↦ next w.files
  | some e ↦ record { files = w.files; failed = is_write_failure e }
]

unfoldable pub write_groups : CacheHost → FactCache → Grouped → Files → Cached
unfolding should_write_cache group_ttl write_group after_write
write_groups h fc [] files = record { files = files; failed = false }
write_groups h fc ((group, content) ∷ grouped) files =
    let (wanted, files1) = should_write_cache h group (group_ttl group fc.ttls) content files in
    if not wanted
    then write_groups h fc grouped files1
    else after_write
        (write_group h group (put (text "cache_format_version") (int (pos 1)) content) files1)
        files1 (write_groups h fc grouped)

-- `CacheFacts`
unfoldable pub cache_facts : CacheHost → FactCache → List ResolvedFact → Files → Cached
unfolding group_facts write_groups is_write_failure
cache_facts h fc facts files =
    let grouped = group_facts h.paths fc [] facts in
    if is_nil h.dir || is_nil fc.ttls || is_nil grouped
    then record { files = files; failed = false }
    else elim h.mkdir [
      | some e ↦ record { files = files; failed = is_write_failure e }
      | none ↦ write_groups h fc grouped files
    ]
