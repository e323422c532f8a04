-- ===== src/Discovery/CacheFiles/Tests.antt =====
-- The theorems on the writing of the cache, internal/engine/cache.go, at work on a concrete system.
use facts.Base.{Bool, true, false, ◌≡◌, refl, [], ◌∷◌, none, some, arith, if◌then◌else◌}
use facts.Base.Text.{Text, text, text_eq, has_prefix}
use facts.Base.Text.Split.{cut}
use facts.Value.{str}
use facts.Fact.{ResolvedFact}
use facts.Discovery.CacheGroups.{PathLibrary, FactCache}
use facts.Discovery.CacheFiles.{
  Files, read_file, permission, WriteRun, write_cache_file, CacheHost, missing, cache_file_path,
  cache_facts,
}
use facts.Discovery.CacheFiles.Atomic.{IsAtomic, write_cache_file-IsAtomic}
use facts.Discovery.CacheFiles.Elsewhere.{cache_facts-elsewhere}

abbrev old_files : Files
old_files = (text "c/os", text "old") ∷ (text "etc", text "kept") ∷ []

-- A write that stops behind two bytes.
abbrev short_write : WriteRun
short_write = record {
  tmp_path = text "c/os.tmp-1";
  create = none;
  write_data = some (2, permission);
  chmod = none;
  close = none;
  rename = none;
  removed = true;
}

write_cache_file-IsAtomic_example :
    IsAtomic
      (text "c/os")
      (text "new")
      old_files
      (write_cache_file short_write (text "c/os") (text "new") old_files)
unfolding text_eq
write_cache_file-IsAtomic_example =
    write_cache_file-IsAtomic short_write (text "c/os") (text "new") old_files refl

abbrev whole_write : WriteRun
whole_write = record {
  tmp_path = text "c/tmp-1";
  create = none;
  write_data = none;
  chmod = none;
  close = none;
  rename = none;
  removed = true;
}

abbrev paths : PathLibrary
paths = record {
  base = λ t. t;
  clean = λ t. t;
  is_abs = λ t. false;
  match_string = λ t. none;
  to_upper = λ t. t;
  contains = λ s t. false;
  fields = λ t. t ∷ [];
}

abbrev host : CacheHost
host = record {
  paths = paths;
  dir = text "c/";
  join = λ d g. b'c' ∷ b'/' ∷ g;
  mkdir = none;
  stat = λ p ttl. missing;
  can_remove = λ p. true;
  write_run = λ p. whole_write;
  encode = λ m. some (text "{}");
  decode = λ s. none;
}

abbrev cache : FactCache
cache = record { groups = []; ttls = (text "os", 60) ∷ [] }

abbrev os_fact : ResolvedFact
os_fact = record {
  name = text "os";
  value = str (text "x");
  user_query = [];
  type = text "core";
  file = [];
}

runs_cache :
    read_file (text "c/os") (cache_facts host cache (os_fact ∷ []) old_files).files
    ≡ some (text "{}")
unfolding cache_facts text_eq has_prefix cut
runs_cache = refl

other_path :
    (b : Bool) (g path : Text)
    → (if b then some (b'c' ∷ g) else none) ≡ some path
    → text_eq path (text "etc") ≡ false
unfolding text_eq
other_path true g [] e = absurd (ground (arith, e))
other_path true g (c ∷ path) e = ground (arith, e)
other_path false g path e = absurd (ground (arith, e))

outside_host :
    (group path : Text) → cache_file_path host group ≡ some path → text_eq path (text "etc") ≡ false
unfolding cache_file_path
outside_host group path e = other_path _ _ path e

cache_facts-elsewhere_example :
    read_file (text "etc") (cache_facts host cache (os_fact ∷ []) old_files).files
    ≡ read_file (text "etc") old_files
unfolding text_eq
cache_facts-elsewhere_example =
    cache_facts-elsewhere host (text "etc") (λ path. refl) outside_host cache (os_fact ∷ [])
      old_files
