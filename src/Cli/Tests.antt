-- ===== src/Cli/Tests.antt =====
-- Runs of the preparation and the validation of arguments, and the theorems at such arguments.
use mathlib.Core.List.{Perm}
use facts.Base.{false, ◌&&◌, ◌≡◌, refl, List, [], ◌∷◌, ◌++◌, none}
use facts.Base.Text.{Text, text, has_byte, has_prefix}
use facts.Base.Text.Split.{cut}
use facts.Base.Text.Unicode.{ascii}
use facts.Cli.Options.{
  is_task, is_task_flag, lookup_option, option_takes_separate_value,
  short_option_takes_attached_value,
}
use facts.Cli.Arguments.{prepare_arguments}
use facts.Cli.Arguments.Order.{argument, tasks_of, others_of, prepared, prepare_arguments-perm}
use facts.Cli.Validation.{validate_options, scan, passes, Seen, option_conflict_rules}
use facts.Cli.Validation.Formats.{
  nothing_seen, asks_json, asks_yaml, asks_hocon, validate_options-one_format,
}

abbrev bundled : List Text
bundled = text "-dj" ∷ text "-c" ∷ text "facts.conf" ∷ text "version" ∷ []

prepare_run :
    prepare_arguments ascii bundled
    ≡ text "version" ∷ text "-d" ∷ text "-j" ∷ text "-c" ∷ text "facts.conf" ∷ []
unfolding prepare_arguments ascii has_byte short_option_takes_attached_value cut is_task
    is_task_flag option_takes_separate_value
prepare_run = refl

prepare_arguments-perm_example :
    (prepare_arguments ascii bundled
      ≡ tasks_of argument (prepared ascii bundled) ++ others_of argument (prepared ascii bundled))
    × Perm (prepare_arguments ascii bundled) (prepared ascii bundled)
prepare_arguments-perm_example = prepare_arguments-perm ascii bundled

abbrev asked : List Text
asked = text "query" ∷ text "--json" ∷ text "--debug" ∷ text "os" ∷ []

validate_run : validate_options asked ≡ none
unfolding validate_options has_prefix is_task lookup_option cut option_takes_separate_value
    option_conflict_rules
validate_run = refl

validate_options-one_format_example :
    (seen : Seen) × (scan nothing_seen asked ≡ passes seen)
    × ((asks_json seen && asks_yaml seen) ≡ false)
    × ((asks_json seen && asks_hocon seen) ≡ false)
    × ((asks_yaml seen && asks_hocon seen) ≡ false)
validate_options-one_format_example = validate_options-one_format asked validate_run
