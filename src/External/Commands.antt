-- ===== src/External/Commands.antt =====
-- internal/engine/external.go: external facts that a command prints, and the file types together.
use facts.Base.{
  Bool, true, false, not, ◌&&◌, ◌||◌, List, [], ◌∷◌, ◌++◌, none, some, is_nil, if◌then◌else◌,
}
use facts.Base.Text.{Text, text, text_eq, has_byte}
use facts.Base.Text.Split.{cut}
use facts.Base.Text.Unicode.{Unicode}
use facts.Value.{end}
use facts.External.Lines.{parse_key_value_facts}
use facts.External.Values.{external_executable_yaml_facts_from_map}
use facts.External.Files.{
  FileMode, CommandError, no_error, output_too_large, other_error, CommandRun, yaml_end, yaml_error,
  yaml_value, Host, exec_failed, session_ended, null_byte, bad_lines, stderr_message, ruby_file,
  empty_structured, Message, FileOutcome, loaded, failed, Loading, quietly, saying, of_option, ext,
  windows_executable_external_fact_ext, executable, yaml_error_is_null_byte,
  load_external_txt_facts, load_external_json_facts, load_external_yaml_facts,
}

-- The facts of a command's output as lines.
lines_outcome : Host → Text → FileOutcome
unfolding of_option
lines_outcome h out = of_option bad_lines (parse_key_value_facts h.unicode out)

-- The facts of a command's output: as a YAML map that is not empty, or else as lines.
unfoldable pub output_facts : Host → Text → FileOutcome
unfolding lines_outcome yaml_error_is_null_byte of_option
output_facts h out = elim (h.decode_yaml_map out) [
  | yaml_value end ↦ lines_outcome h out
  | yaml_value m ↦
      of_option null_byte (external_executable_yaml_facts_from_map h.unicode h.structured m)
  | yaml_error m ↦ if yaml_error_is_null_byte h m then failed null_byte else lines_outcome h out
  | yaml_end ↦ lines_outcome h out
]

is_error : CommandError → Bool
is_error no_error = false
is_error output_too_large = true
is_error other_error = true

-- The messages about what a command wrote to its standard error.
stderr_messages : Unicode → Text → Text → List Message
stderr_messages u warning_name stderr =
    let message = u.trim_space stderr in
    if is_nil message then [] else stderr_message warning_name message ∷ []

-- What `loadExternalCommandFacts` makes of a run.
unfoldable pub command_facts : Host → Text → CommandRun → Loading
unfolding output_facts is_error stderr_messages
command_facts h warning_name run =
    if run.session_done
    then quietly (failed session_ended)
    else if run.timed_out || is_error run.error
    then quietly (failed exec_failed)
    else record {
      messages = stderr_messages h.unicode warning_name run.stderr;
      outcome = if is_nil run.out then loaded [] else output_facts h run.out;
    }

-- `loadExternalCommandFacts`
unfoldable pub load_external_command_facts : Host → Text → Text → List Text → Loading
unfolding command_facts
load_external_command_facts h name warning_name args =
    command_facts h warning_name (h.run_command name args)

-- `externalExecutableCommandName`
unfoldable pub external_executable_command_name : Host → Text → Text
external_executable_command_name h path =
    if has_byte b' ' path || has_byte b'\t' path then h.quote path else path

-- `loadExternalExecutableFacts`
unfoldable pub load_external_executable_facts : Host → Text → Loading
unfolding load_external_command_facts external_executable_command_name
load_external_executable_facts h path =
    load_external_command_facts h (external_executable_command_name h path) path []

-- `systemRootFromEnv`
unfoldable pub system_root_from_env : Unicode → List Text → Text
system_root_from_env u [] = []
system_root_from_env u (entry ∷ env) =
    let rest = system_root_from_env u env in
    elim (cut b'=' entry) [
      | none ↦ rest
      | some (name, value) ↦ if u.equal_fold name (text "SYSTEMROOT") then value else rest
    ]

-- `currentPowerShellPath`
unfoldable pub current_power_shell_path : Text → (Text → Bool) → Text
current_power_shell_path system_root readable =
    let sysnative = system_root ++ text "\\sysnative\\WindowsPowershell\\v1.0\\powershell.exe" in
    let system32 = system_root ++ text "\\system32\\WindowsPowershell\\v1.0\\powershell.exe" in
    if is_nil system_root
    then text "powershell.exe"
    else if readable sysnative
    then sysnative
    else if readable system32
    then system32
    else text "powershell.exe"

-- `loadExternalPowerShellFacts`
unfoldable pub load_external_power_shell_facts : Host → Text → Loading
unfolding load_external_command_facts system_root_from_env current_power_shell_path
load_external_power_shell_facts h path =
    let powershell =
      current_power_shell_path (system_root_from_env h.unicode h.environ) h.file_readable in
    load_external_command_facts h powershell
      (text "\""
        ++ (powershell
            ++ (text "\" -NoProfile -NonInteractive -NoLogo -ExecutionPolicy Bypass -File \""
                ++ (path ++ text "\""))))
      (text "-NoProfile"
        ∷ text "-NonInteractive"
        ∷ text "-NoLogo"
        ∷ text "-ExecutionPolicy"
        ∷ text "Bypass"
        ∷ text "-File"
        ∷ path
        ∷ [])

-- What the extension of a file makes of it.
pub data FileKind : Type 0 where
  txt_file : FileKind
  json_file : FileKind
  yaml_file : FileKind
  rb_file : FileKind
  ps1_file : FileKind
  other_file : FileKind

-- The cases of the `switch` on the extension.
unfoldable pub file_kind : Text → FileKind
file_kind e =
    if text_eq e (text ".txt")
    then txt_file
    else if text_eq e (text ".json")
    then json_file
    else if text_eq e (text ".yaml") || text_eq e (text ".yml")
    then yaml_file
    else if text_eq e (text ".rb")
    then rb_file
    else if text_eq e (text ".ps1")
    then ps1_file
    else other_file

-- The `default` of the `switch`.
unfoldable pub load_other_file : Host → Text → FileMode → Text → Loading
unfolding load_external_executable_facts windows_executable_external_fact_ext executable
load_other_file h path mode e =
    if not h.windows && windows_executable_external_fact_ext e
    then quietly (loaded [])
    else if h.windows && windows_executable_external_fact_ext e && mode.regular && not h.running
    then load_external_executable_facts h path
    else if mode.regular && executable mode && not h.running
    then load_external_executable_facts h path
    else if mode.regular
    then saying (empty_structured path) (loaded [])
    else quietly (loaded [])

-- A case of the `switch`.
unfoldable pub load_kind : Host → Text → FileMode → Text → FileKind → Loading
unfolding load_other_file load_external_power_shell_facts load_external_executable_facts executable
load_kind h path mode e txt_file =
    if not mode.regular then quietly (loaded []) else load_external_txt_facts h path
load_kind h path mode e json_file =
    if not mode.regular then quietly (loaded []) else load_external_json_facts h path
load_kind h path mode e yaml_file =
    if not mode.regular then quietly (loaded []) else load_external_yaml_facts h path
load_kind h path mode e rb_file = saying (ruby_file path) (loaded [])
load_kind h path mode e ps1_file =
    if h.windows
    then load_external_power_shell_facts h path
    else if mode.regular && executable mode && not h.running
    then load_external_executable_facts h path
    else quietly (loaded [])
load_kind h path mode e other_file = load_other_file h path mode e

-- `loadExternalFactFile`
unfoldable pub load_external_fact_file : Host → Text → FileMode → Loading
unfolding file_kind load_kind ext
load_external_fact_file h path mode =
    let e = h.unicode.to_lower (ext h.windows path) in load_kind h path mode e (file_kind e)
