-- ===== src/External/Tests.antt =====
-- Runs of the loader of internal/engine/external.go, and the theorems about it at work on a concrete
-- host.
use facts.Base.{
  true, false, ◌≡◌, ◌≢◌, refl, sym, ◌∙◌, List, [], ◌∷◌, none, some, arith, if◌then◌else◌,
}
use facts.Base.Text.{Text, text, text_eq, has_byte, has_prefix, drop_prefix, mem_text, contains}
use facts.Base.Text.Split.{cut}
use facts.Base.Text.Unicode.{ascii}
use facts.Groups.Environment.{environment_fact_name}
use facts.External.Env.{EnvEntry, binding, EnvState, env_loop, value_of}
use facts.External.Env.Winner.{winner, env_loop-winner}
use facts.External.Lines.{parse_key_value_facts, drop_return, line_name}
use facts.External.Lines.RoundTrip.{render, external_fact, parse_key_value_facts-render}
use facts.External.Buffer.{write_all, command_buffer}
use facts.External.Buffer.Content.{write_all-content}
use facts.External.Files.{
  FileMode, content, CommandError, other_error, CommandRun, yaml_end, yaml_error, not_exist, listed,
  Host, exec_failed, null_byte, failed, ignored_backup_external_fact_file,
  ignored_external_fact_file, load_external_txt_facts,
}
use facts.External.Commands.{output_facts, load_external_fact_file}
use facts.Discovery.Plan.{loader_cli, loader_library}
use facts.External.Loader.{Loader, Step, go, load}
use facts.External.Loader.Twin.{in_mode, cli_answer, library_answer}
use facts.External.Loader.Modes.{answer_of, load-modes}
use facts.External.Loader.Nested.{with_commands, with_host, load-nested}
use facts.External.Values.{StructuredLibrary}

abbrev entries : List EnvEntry
entries =
    binding (text "a") (text "1") true
    ∷ binding (text "a") (text "2") false
    ∷ binding (text "b") (text "3") false
    ∷ []

abbrev bound : EnvState
bound = record {
  values = (text "a", text "1") ∷ (text "b", text "3") ∷ [];
  native_names = text "a" ∷ [];
}

env_loop-winner_example : value_of (text "a") bound.values ≡ winner (text "a") entries
unfolding env_loop text_eq mem_text
env_loop-winner_example = env_loop-winner (text "a") entries bound refl

abbrev pairs : List (Text × Text)
pairs = (text "role", text "web=1") ∷ (text "site", text "x") ∷ []

parse_key_value_facts-render_example :
    parse_key_value_facts ascii (render pairs)
    ≡ some (external_fact (text "role", text "web=1") ∷ external_fact (text "site", text "x") ∷ [])
unfolding has_byte drop_return line_name has_prefix ascii
parse_key_value_facts-render_example = parse_key_value_facts-render ascii pairs (
  record {
    name_kept = refl;
    name_some = refl;
    name_no_equals = refl;
    value_some = refl;
    value_end = refl;
    one_line = refl;
    no_null = refl;
    short = omega arith;
  },
  (
    record {
      name_kept = refl;
      name_some = refl;
      name_no_equals = refl;
      value_some = refl;
      value_end = refl;
      one_line = refl;
      no_null = refl;
      short = omega arith;
    },
    tt,
  ),
)

write_all-content_example :
    write_all (command_buffer 3) (text "ab" ∷ text "cd" ∷ [])
    ≡ record { buf = text "abc"; limit = 3; too_large = true; cancel = true; cancels = 1 }
write_all-content_example = write_all-content 3 (text "ab" ∷ text "cd" ∷ []) (refl, (refl, tt))

abbrev executable_mode : FileMode
executable_mode = record { regular = true; permissions = 493 }

abbrev failing_run : CommandRun
failing_run = record {
  out = [];
  stderr = [];
  error = other_error;
  session_done = false;
  timed_out = false;
}

abbrev printing_run : CommandRun
printing_run = record {
  out = text "b=2\n";
  stderr = [];
  error = CommandError.no_error;
  session_done = false;
  timed_out = false;
}

abbrev structured : StructuredLibrary
structured = record {
  number_text = λ i. none;
  parse_float = λ s. none;
  time_text = λ i. none;
  yaml_time = λ s. none;
}

-- A directory with a text file, and an executable that fails.
abbrev host : Host
host = record {
  read_dir = λ d.
      if text_eq d (text "d")
      then listed (
          record { name = text "a.txt"; is_dir = false; info = some executable_mode }
          ∷ record { name = text "run"; is_dir = false; info = some executable_mode }
          ∷ [])
      else not_exist;
  open_file = λ p. content (text "a=1\n");
  file_readable = λ p. false;
  environ = text "FACTS_C=3" ∷ [];
  windows = false;
  run_command = λ name args. failing_run;
  running = false;
  join = λ d n. n;
  quote = λ s. s;
  decode_json = λ s. none;
  decode_yaml = λ s. yaml_end;
  decode_yaml_map =
      λ s. yaml_error (text "cannot unmarshal !!str `control...` into map[string]interface {}");
  unicode = ascii;
  structured = structured;
}

abbrev loader : Loader
loader = record {
  mode = loader_library;
  dirs = text "d" ∷ text "e" ∷ [];
  blocked = [];
  host = host;
  include_env = true;
}

-- The library collects the failure of the command beside the facts.
runs_library :
    load loader
    ≡ some (
        go (record {
          facts = external_fact (text "a", text "1") ∷ external_fact (text "c", text "3") ∷ [];
          failures = exec_failed ∷ [];
          messages = [];
        }))
unfolding load ascii text_eq mem_text ignored_backup_external_fact_file ignored_external_fact_file
    has_prefix load_external_fact_file load_external_txt_facts parse_key_value_facts cut has_byte
    environment_fact_name drop_prefix
runs_library = refl

-- An output whose first word is `control` is refused like one with a null byte: the decoder's message
-- quotes the word.
runs_control : output_facts host (text "control=on\n") ≡ failed null_byte
unfolding output_facts ascii contains
runs_control = refl

none-some : (s : Step) → none ≢ some s
none-some s e = absurd (ground (arith, e))

-- The same inside a command of the loader.
abbrev nested_loader : Loader
nested_loader = with_host (record host { running = true }) loader

load-modes_example :
    answer_of cli_answer (load (in_mode loader_cli loader))
    ≡ answer_of library_answer (load (in_mode loader_library loader))
load-modes_example = load-modes loader (λ e. absurd (none-some _ (sym e ∙ runs_library)))

load-nested_example :
    load (with_host (with_commands (λ name args. printing_run) nested_loader.host) nested_loader)
    ≡ load nested_loader
load-nested_example = load-nested (λ name args. printing_run) nested_loader refl refl
