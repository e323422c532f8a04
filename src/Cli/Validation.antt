-- ===== src/Cli/Validation.antt =====
-- internal/cli/validation.go: which combinations of options are refused.
pub mod Formats
use facts.Base.{
  ℕ, ◌+◌, ◌≡◌, refl, Bool, true, false, not, ◌&&◌, ◌||◌, List, [], ◌∷◌, ◌++◌, Option, none, some,
  map, any, first, ltb, if◌then◌else◌,
}
use facts.Base.Text.{Text, text, text_eq, has_prefix, mem_text}
use facts.Base.Text.Split.{cut}
use facts.Cli.Table.{CliOption}
use facts.Cli.Options.{lookup_option, canonical_option, option_takes_separate_value, is_task}
use facts.Cli.Arguments.{delimiter}

-- The errors of `validateOptions`, without their text.
pub data OptionError : Type 0 where
  unrecognised : Text → OptionError
  requires_value : Text → OptionError
  more_than_once : Text → OptionError
  conflict : Text → Text → OptionError
  log_conflict : OptionError
  unsupported_log_level : Text → OptionError

-- What the loop has noted: the canonical names, once for each time that they are seen, the names
-- as they were written, and the log level.
pub record Seen : Type 0 where
  pub canonical : List Text
  pub raw : List Text
  pub log_level : Text

pub data Checked : Type 0 where
  fails : OptionError → Checked
  passes : Seen → Checked

-- `rawOption`
unfoldable pub raw_option : Text → Text
raw_option arg = elim (cut b'=' arg) [ none ↦ arg | some (name, _) ↦ name ]

abbrev pub log_level_option : Text
log_level_option = text "--log-level"

next_level : Text → Text → List Text → Text
next_level arg level rest = elim (cut b'=' arg) [
  | some (_, value) ↦ value
  | none ↦ elim rest [ [] ↦ level | next ∷ _ ↦ next ]
]

note_option : Seen → Text → CliOption → List Text → Seen
unfolding raw_option next_level
note_option seen arg option rest = record {
  canonical = option.canonical ∷ seen.canonical;
  raw = raw_option arg ∷ seen.raw;
  log_level =
      if text_eq option.canonical log_level_option
      then next_level arg seen.log_level rest
      else seen.log_level;
}

-- The loop of `validateOptions` over the arguments.
unfoldable pub scan : Seen → List Text → Checked
unfolding note_option
scan seen [] = passes seen
scan seen (arg ∷ []) =
    if text_eq arg delimiter || not (has_prefix arg (text "-"))
    then passes seen
    else elim (lookup_option arg) [
      | none ↦ fails (unrecognised arg)
      | some option ↦
          if option_takes_separate_value arg
          then fails (requires_value (canonical_option arg))
          else passes (note_option seen arg option [])
    ]
scan seen (arg ∷ next ∷ args) =
    let task = scan seen (next ∷ args) in
    if text_eq arg delimiter
    then passes seen
    else if not (has_prefix arg (text "-"))
    then (if is_task arg then task else passes seen)
    else elim (lookup_option arg) [
      | none ↦ fails (unrecognised arg)
      | some option ↦
          let noted = note_option seen arg option (next ∷ args) in
          let skipping = scan noted args in
          let on = scan noted (next ∷ args) in
          if option_takes_separate_value arg then skipping else on
    ]

-- The number of times that an option was seen.
unfoldable pub count : Text → List Text → ℕ
count name [] = 0
count name (n ∷ names) = (if text_eq n name then 1 else 0) + count name names

is_repeatable : Text → Bool
is_repeatable name = elim (lookup_option name) [ none ↦ false | some option ↦ option.repeatable ]

-- An option that was seen more often than it may be; the map is ranged over in some order.
repeated : List Text → Option Text
unfolding count is_repeatable
repeated names = first (λ n. ltb 1 (count n names) && not (is_repeatable n)) names

pub record OptionConflict : Type 0 where
  pub option : Text
  pub conflicts : List Text

-- `optionConflictRuleFor`
option_conflict_rule_for : Text → OptionConflict
option_conflict_rule_for name = record {
  option = name;
  conflicts = elim (lookup_option name) [ none ↦ [] | some option ↦ option.conflicts ];
}

-- `optionConflictRules`
unfoldable pub option_conflict_rules : List OptionConflict
unfolding option_conflict_rule_for
option_conflict_rules =
    map option_conflict_rule_for
      (text "--color" ∷ text "--json" ∷ text "--yaml" ∷ text "--hocon" ∷ [])
    ++ (record { option = text "-j"; conflicts = text "--no-json" ∷ text "--hocon" ∷ [] }
        ∷ record {
          option = text "-y";
          conflicts = text "--no-yaml" ∷ text "-j" ∷ text "--hocon" ∷ [];
        }
        ∷ option_conflict_rule_for (text "--no-external-facts")
        ∷ [])

-- The loop over the rules: the first pair that was seen.
unfoldable pub find_conflict : List Text → List OptionConflict → Option (Text × Text)
find_conflict raw [] = none
find_conflict raw (rule ∷ rules) =
    let later = find_conflict raw rules in
    if mem_text rule.option raw
    then elim (first (λ c. mem_text c raw) rule.conflicts) [
      | some c ↦ some (rule.option, c)
      | none ↦ later
    ]
    else later

-- `SupportedLogLevel`
unfoldable pub supported_log_level : Text → Bool
unfolding mem_text
supported_log_level level = mem_text level (
    text "none"
    ∷ text "trace"
    ∷ text "debug"
    ∷ text "info"
    ∷ text "warn"
    ∷ text "error"
    ∷ text "fatal"
    ∷ text "log_level"
    ∷ [])

-- `logOptionsConflict`
unfoldable pub log_options_conflict : List Text → Text → Bool
log_options_conflict seen level =
    let debug = mem_text (text "--debug") seen in
    let verbose = mem_text (text "--verbose") seen in
    let level_set = mem_text log_level_option seen in
    (debug && verbose)
    || (debug
        && level_set
        && not (text_eq level (text "debug"))
        && not (text_eq level (text "trace")))
    || (verbose && level_set && not (text_eq level (text "info")))

-- The checks behind the loop; `none` is "valid".
unfoldable pub check_seen : Seen → Option OptionError
unfolding repeated find_conflict log_options_conflict supported_log_level
check_seen seen = elim (repeated seen.canonical) [
  | some name ↦ some (more_than_once name)
  | none ↦ elim (find_conflict seen.raw option_conflict_rules) [
    | some (a, b) ↦ some (conflict a b)
    | none ↦
        if log_options_conflict seen.canonical seen.log_level
        then some log_conflict
        else if mem_text log_level_option seen.canonical && not (supported_log_level seen.log_level)
        then some (unsupported_log_level seen.log_level)
        else none
  ]
]

-- `validateOptions`
unfoldable pub validate_options : List Text → Option OptionError
unfolding scan check_seen
validate_options args = elim (scan (record { canonical = []; raw = []; log_level = [] }) args) [
  | fails e ↦ some e
  | passes seen ↦ check_seen seen
]
