-- ===== src/Discovery/Run/Tests.antt =====
-- The theorems on the run of a discovery, and on the comments of a config, at concrete inputs.
use facts.Base.{true, false, ◌≡◌, refl, [], ◌∷◌, none, some}
use facts.Base.Text.{Text, text, contains}
use facts.Value.{Value, str, end, field}
use facts.Fact.{ResolvedFact}
use facts.Discovery.Cache.{CacheFiles}
use facts.Discovery.CacheGroups.{PathLibrary}
use facts.Discovery.Plan.{DiscoveryPlan, loader_library}
use facts.Discovery.Comments.{
  line_ends, strip_config_line_comments, strip_config_line_comments-line_ends,
}

abbrev fact_of : Text → Value → ResolvedFact
fact_of name value = record { name = name; value = value; user_query = []; type = []; file = [] }

abbrev plain_paths : PathLibrary
plain_paths = record {
  base = λ t. t;
  clean = λ t. t;
  is_abs = λ t. false;
  match_string = λ t. none;
  to_upper = λ t. t;
  contains = contains;
  fields = λ t. t ∷ [];
}

abbrev fresh_files : CacheFiles
fresh_files = record {
  fresh = λ g t. true;
  read = λ g. some (field (text "kernel") (str (text "cached")) end);
}

abbrev cached_plan : DiscoveryPlan
cached_plan = record {
  external_dirs = [];
  cache_path = text "/var/cache";
  no_external_facts = false;
  disabled_facts = text "os" ∷ [];
  ambient_disabled = [];
  use_cache = true;
  cache_ttls = record { fact = text "kernel"; ttl = text "1000" } ∷ [];
  cache_groups = [];
  loader_mode = loader_library;
  include_env = false;
  queries = [];
  include_typed_dotted = false;
}

abbrev small_config : Text
small_config = text "a : 1 # one\nb : \"#2\" // two\n"

strip_run : strip_config_line_comments small_config ≡ text "a : 1 \nb : \"#2\" \n"
unfolding strip_config_line_comments
strip_run = refl

strip_config_line_comments-line_ends_example :
    line_ends (strip_config_line_comments small_config) ≡ line_ends small_config
strip_config_line_comments-line_ends_example = strip_config_line_comments-line_ends small_config
