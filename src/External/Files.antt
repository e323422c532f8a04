-- ===== src/External/Files.antt =====
-- internal/engine/external.go: one external fact file, by its extension. What the loader asks of the
-- system and of the decoders is `Host`. A result comes with the messages to the session, in order.
use facts.Base.{
  ℕ, ◌/◌, ◌%◌, Bool, true, not, ◌&&◌, ◌||◌, List, [], ◌∷◌, Option, none, some, length, ltb, is_nil,
  ◌==◌, if◌then◌else◌,
}
use facts.Base.Text.{Text, text, text_eq, contains, has_prefix, mem_text}
use facts.Base.Text.Unicode.{Unicode}
use facts.Value.{Value, obj, Fields, end}
use facts.Fact.{ResolvedFact}
use facts.External.Lines.{max_bytes, parse_key_value_facts}
use facts.External.Values.{StructuredLibrary, external_facts_from_map, external_yaml_facts_from_map}

-- An `os.FileMode`: whether it is regular, and its permission bits.
pub record FileMode : Type 0 where
  pub regular : Bool
  pub permissions : ℕ

-- A file that is opened and read up to one byte beyond the limit.
pub data Opened : Type 0 where
  not_opened : Opened
  not_read : Opened
  content : Text → Opened

-- What a command leaves behind: its streams, its error, and whether by then the session's context or
-- the command's own was done.
pub data CommandError : Type 0 where
  no_error : CommandError
  output_too_large : CommandError
  other_error : CommandError

pub record CommandRun : Type 0 where
  pub out : Text
  pub stderr : Text
  pub error : CommandError
  pub session_done : Bool
  pub timed_out : Bool

-- The YAML decoder's result: the end of the input, an error's message, or a value.
pub data YamlRead {ℓ} (A : Type ℓ) : Type ℓ where
  yaml_end : YamlRead A
  yaml_error : Text → YamlRead A
  yaml_value : A → YamlRead A

-- An `os.DirEntry`; `info` is `none` where `Info` fails.
pub record DirEntry : Type 0 where
  pub name : Text
  pub is_dir : Bool
  pub info : Option FileMode

pub data ReadDir : Type 0 where
  not_exist : ReadDir
  not_listed : ReadDir
  listed : List DirEntry → ReadDir

-- `externalFactLoaderHost`, with the functions of other packages that the loader calls.
pub record Host : Type 0 where
  pub read_dir : Text → ReadDir
  pub open_file : Text → Opened
  pub file_readable : Text → Bool
  pub environ : List Text
  pub windows : Bool
  pub run_command : Text → List Text → CommandRun
  pub running : Bool
  -- `filepath.Join`
  pub join : Text → Text → Text
  -- `strconv.Quote`
  pub quote : Text → Text
  -- one JSON value and nothing behind it, or `none`
  pub decode_json : Text → Option Value
  pub decode_yaml : Text → YamlRead Value
  -- the YAML decoder into a `map[string]any`
  pub decode_yaml_map : Text → YamlRead Fields
  pub unicode : Unicode
  pub structured : StructuredLibrary

-- Why a file is not loaded.
pub data LoadError : Type 0 where
  exec_failed : LoadError
  session_ended : LoadError
  not_readable : LoadError
  too_large : LoadError
  null_byte : LoadError
  bad_lines : LoadError
  dir_not_read : LoadError
  no_info : LoadError

pub data Message : Type 0 where
  blocked_file : Text → Message
  backup_file : Text → Message
  ruby_file : Text → Message
  stderr_message : Text → Text → Message
  empty_structured : Text → Message
  no_pairs : Text → Message

pub data FileOutcome : Type 0 where
  loaded : List ResolvedFact → FileOutcome
  failed : LoadError → FileOutcome

pub record Loading : Type 0 where
  pub messages : List Message
  pub outcome : FileOutcome

abbrev pub quietly : FileOutcome → Loading
quietly o = record { messages = []; outcome = o }

abbrev pub saying : Message → FileOutcome → Loading
saying m o = record { messages = m ∷ []; outcome = o }

unfoldable pub of_option : LoadError → Option (List ResolvedFact) → FileOutcome
of_option e none = failed e
of_option e (some facts) = loaded facts

-- `filepath.Ext`: from the last dot on, unless a separator stands behind it
is_separator : Bool → ℕ → Bool
is_separator windows c = c == b'/' || (windows && c == b'\\')

no_separator : Bool → Text → Bool
unfolding is_separator
no_separator windows [] = true
no_separator windows (c ∷ s) = not (is_separator windows c) && no_separator windows s

unfoldable pub ext : Bool → Text → Text
unfolding no_separator
ext windows [] = []
ext windows (c ∷ s) =
    let later = ext windows s in
    if not (is_nil later) then later else if c == b'.' && no_separator windows s then c ∷ s else []

-- `ignoredBackupExternalFactFile`
unfoldable pub ignored_backup_external_fact_file : Host → Text → Bool
unfolding ext
ignored_backup_external_fact_file h name =
    let e = h.unicode.to_lower (ext h.windows name) in
    text_eq e (text ".bak") || text_eq e (text ".orig")

-- `ignoredExternalFactFile`
unfoldable pub ignored_external_fact_file : Host → Text → Bool
unfolding ignored_backup_external_fact_file
ignored_external_fact_file h name =
    has_prefix name (text ".") || ignored_backup_external_fact_file h name

-- `windowsExecutableExternalFactExt`
unfoldable pub windows_executable_external_fact_ext : Text → Bool
windows_executable_external_fact_ext e =
    mem_text e (text ".bat" ∷ text ".cmd" ∷ text ".exe" ∷ text ".com" ∷ [])

-- `mode&0o111 != 0`
unfoldable pub executable : FileMode → Bool
executable m =
    m.permissions % 2 == 1 || (m.permissions / 8) % 2 == 1 || (m.permissions / 64) % 2 == 1

-- `readExternalFactFile`, with `readExternalFactData`
pub data FileRead : Type 0 where
  no_file : FileRead
  bad_file : LoadError → FileRead
  bytes_of : Text → FileRead

read_external_fact_data : Text → FileRead
read_external_fact_data t = if ltb max_bytes (length t) then bad_file too_large else bytes_of t

unfoldable pub read_external_fact_file : Host → Text → FileRead
unfolding read_external_fact_data
read_external_fact_file h path = elim (h.open_file path) [
  | not_opened ↦ no_file
  | not_read ↦ bad_file not_readable
  | content t ↦ read_external_fact_data t
]

-- `loadExternalTxtFacts`
unfoldable pub load_external_txt_facts : Host → Text → Loading
unfolding read_external_fact_file of_option
load_external_txt_facts h path = elim (read_external_fact_file h path) [
  | no_file ↦ quietly (loaded [])
  | bad_file e ↦ quietly (failed e)
  | bytes_of t ↦ quietly (of_option bad_lines (parse_key_value_facts h.unicode t))
]

-- A decoded document: what is no map, and an empty map, is reported and gives no facts.
structured_facts : Text → (Fields → Option (List ResolvedFact)) → Value → Loading
unfolding of_option
structured_facts path facts_of (obj end) = saying (empty_structured path) (loaded [])
structured_facts path facts_of (obj m) = quietly (of_option null_byte (facts_of m))
structured_facts path facts_of v = saying (no_pairs path) (loaded [])

-- `loadExternalJSONFacts`
unfoldable pub load_external_json_facts : Host → Text → Loading
unfolding read_external_fact_file structured_facts
load_external_json_facts h path = elim (read_external_fact_file h path) [
  | no_file ↦ quietly (loaded [])
  | bad_file e ↦ quietly (failed e)
  | bytes_of t ↦ elim (h.decode_json t) [
    | none ↦ quietly (loaded [])
    | some v ↦ structured_facts path (external_facts_from_map h.unicode h.structured) v
  ]
]

-- `yamlErrorIsNullByte` on an error's message
unfoldable pub yaml_error_is_null_byte : Host → Text → Bool
yaml_error_is_null_byte h message =
    contains (h.unicode.to_lower message) (text "control")
    || contains (h.unicode.to_lower message) (text "#x0000")

-- `loadExternalYAMLFacts`
unfoldable pub load_external_yaml_facts : Host → Text → Loading
unfolding read_external_fact_file structured_facts yaml_error_is_null_byte
load_external_yaml_facts h path = elim (read_external_fact_file h path) [
  | no_file ↦ quietly (loaded [])
  | bad_file e ↦ quietly (failed e)
  | bytes_of t ↦ elim (h.decode_yaml t) [
    | yaml_end ↦ quietly (loaded [])
    | yaml_error m ↦ quietly (if yaml_error_is_null_byte h m then failed null_byte else loaded [])
    | yaml_value v ↦ structured_facts path (external_yaml_facts_from_map h.unicode h.structured) v
  ]
]
