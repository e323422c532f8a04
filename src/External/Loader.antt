-- ===== src/External/Loader.antt =====
-- internal/engine/external.go: the loader of external facts, over its directories and the
-- environment, in its two modes. A result comes with the messages to the session, in order.
pub mod Modes
pub mod Twin
pub mod Nested
use facts.Base.{
  Bool, true, false, not, ◌&&◌, ◌||◌, List, [], ◌∷◌, ◌++◌, Option, none, some, if◌then◌else◌,
}
use facts.Base.Text.{Text, mem_text}
use facts.Base.Text.Order.{text_le}
use facts.Fact.{ResolvedFact}
use facts.Discovery.Plan.{LoaderMode, loader_cli, loader_library}
use facts.External.Env.{load_external_env_facts, EnvFacts}
use facts.External.Files.{
  FileMode, DirEntry, ReadDir, not_exist, not_listed, listed, Host, LoadError, exec_failed,
  session_ended, dir_not_read, no_info, null_byte, Message, blocked_file, backup_file, FileOutcome,
  loaded, failed, Loading, ignored_backup_external_fact_file, ignored_external_fact_file,
}
use facts.External.Commands.{load_external_fact_file}

-- `externalFactLoader`, with the names that `blocked` maps to true.
pub record Loader : Type 0 where
  pub mode : LoaderMode
  pub dirs : List Text
  pub blocked : List Text
  pub host : Host
  pub include_env : Bool

-- `slices.SortFunc` of a directory's entries by name, the last name first
insert_entry : DirEntry → List DirEntry → List DirEntry
unfolding text_le
insert_entry e [] = e ∷ []
insert_entry e (f ∷ entries) =
    let rest = insert_entry e entries in if text_le f.name e.name then e ∷ f ∷ entries else f ∷ rest

unfoldable pub sort_entries : List DirEntry → List DirEntry
unfolding insert_entry
sort_entries [] = []
sort_entries (e ∷ entries) = insert_entry e (sort_entries entries)

-- The slices that the loops append to.
pub record Loads : Type 0 where
  pub facts : List ResolvedFact
  pub failures : List LoadError
  pub messages : List Message

-- A round that goes on, or that returns an error.
pub data Step : Type 0 where
  go : Loads → Step
  stop : LoadError → List Message → Step

unfoldable add_message : Message → Loads → Loads
add_message m s = record {
  facts = s.facts;
  failures = s.failures;
  messages = s.messages ++ (m ∷ []);
}

unfoldable add_messages : List Message → Loads → Loads
add_messages m s = record { facts = s.facts; failures = s.failures; messages = s.messages ++ m }

unfoldable add_facts : List ResolvedFact → Loads → Loads
add_facts facts s = record {
  facts = s.facts ++ facts;
  failures = s.failures;
  messages = s.messages;
}

-- An error, which the command line returns and the library collects.
unfoldable pub fail : LoaderMode → LoadError → Loads → Step
fail loader_cli e s = stop e s.messages
fail loader_library e s =
    go (record { facts = s.facts; failures = s.failures ++ (e ∷ []); messages = s.messages })

-- The errors of a command, which the command line passes over.
unfoldable pub skipped_error : LoadError → Bool
skipped_error exec_failed = true
skipped_error session_ended = true
skipped_error e = false

unfoldable fail_file : LoaderMode → LoadError → Loads → Step
unfolding fail skipped_error
fail_file loader_cli e s = if skipped_error e then go s else fail loader_cli e s
fail_file loader_library e s = fail loader_library e s

-- What the loop makes of a file's result.
unfoldable pub add_loading : LoaderMode → Loading → Loads → Step
unfolding fail_file add_messages add_facts
add_loading mode l s = elim l.outcome [
  | loaded facts ↦ go (add_facts facts (add_messages l.messages s))
  | failed e ↦ fail_file mode e (add_messages l.messages s)
]

-- The end of a round, with what `Info` gave.
unfoldable load_info : Loader → Text → Option FileMode → Loads → Step
unfolding fail add_loading
load_info l path none s = fail l.mode no_info s
load_info l path (some mode) s = add_loading l.mode (load_external_fact_file l.host path mode) s

-- The body of the loop over a directory's entries.
unfoldable pub load_entry : Loader → Text → DirEntry → Loads → Step
unfolding add_message load_info
load_entry l dir entry s =
    if mem_text entry.name l.blocked
    then go (add_message (blocked_file entry.name) s)
    else if entry.is_dir
    then go s
    else if ignored_backup_external_fact_file l.host entry.name
    then go (add_message (backup_file entry.name) s)
    else if ignored_external_fact_file l.host entry.name
    then go s
    else load_info l (l.host.join dir entry.name) entry.info s

-- The rest of a loop, unless a round returned.
unfoldable pub and_then : Step → (Loads → Step) → Step
and_then (go s) f = f s
and_then (stop e m) f = stop e m

unfoldable pub load_entries : Loader → Text → List DirEntry → Loads → Step
unfolding load_entry and_then
load_entries l dir [] s = go s
load_entries l dir (entry ∷ entries) s =
    and_then (load_entry l dir entry s) (load_entries l dir entries)

-- A round of the outer loop, with what `readDir` gave.
unfoldable load_read : Loader → Text → ReadDir → Loads → Step
unfolding load_entries sort_entries fail
load_read l dir not_exist s = go s
load_read l dir not_listed s = fail l.mode dir_not_read s
load_read l dir (listed entries) s = load_entries l dir (sort_entries entries) s

unfoldable pub load_dir : Loader → Text → Loads → Step
unfolding load_read
load_dir l dir s = load_read l dir (l.host.read_dir dir) s

-- `loadDirFacts`
unfoldable pub load_dirs : Loader → List Text → Loads → Step
unfolding load_dir and_then
load_dirs l [] s = go s
load_dirs l (dir ∷ dirs) s = and_then (load_dir l dir s) (load_dirs l dirs)

abbrev pub no_loads : Loads
no_loads = record { facts = []; failures = []; messages = [] }

-- What `load` makes of the environment's facts; `none` is a panic.
unfoldable add_env : LoaderMode → EnvFacts → Loads → Option Step
unfolding fail add_facts
add_env mode EnvFacts.stopped s = none
add_env mode EnvFacts.failed s = some (fail mode null_byte s)
add_env mode (EnvFacts.loaded facts) s = some (go (add_facts facts s))

unfoldable load_env : Loader → Step → Option Step
unfolding add_env load_external_env_facts
load_env l (stop e m) = some (stop e m)
load_env l (go s) =
    if not l.include_env
    then some (go s)
    else add_env l.mode (load_external_env_facts l.host.unicode l.host.environ) s

-- `load`: in the library's mode the error joins the failures.
unfoldable pub load : Loader → Option Step
unfolding load_dirs load_env
load l = load_env l (load_dirs l l.dirs no_loads)
