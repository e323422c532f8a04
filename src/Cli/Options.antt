-- ===== src/Cli/Options.antt =====
-- internal/cli/options.go: how an argument is looked up in the table of options.
use facts.Base.{
  ℕ, ◌+◌, ◌/◌, ◌%◌, Bool, true, false, not, List, [], ◌∷◌, ◌++◌, Option, none, some, ltb, is_some,
  keep, if◌then◌else◌,
}
use facts.Base.Text.{Text, text, text_eq, mem_text}
use facts.Base.Text.Split.{cut}
use facts.Cli.Table.{CliOption, no_value, required_value}
use facts.Cli.Table.Output.{output_options}
use facts.Cli.Table.Toggle.{toggle_options}
use facts.Cli.Table.Other.{other_options}

-- `optionDefinitions`, in three parts
abbrev pub option_definitions : List CliOption
option_definitions = output_options ++ (toggle_options ++ other_options)

-- A Go map as the list of its writes, the last first.
abbrev pub OptionIndex : Type 0
OptionIndex = List (Text × CliOption)

index_aliases : OptionIndex → CliOption → List Text → OptionIndex
index_aliases index option [] = index
index_aliases index option (alias ∷ aliases) =
    index_aliases ((alias, option) ∷ index) option aliases

-- `buildOptionIndex`
unfoldable pub build_option_index : OptionIndex → List CliOption → OptionIndex
unfolding index_aliases
build_option_index index [] = index
build_option_index index (option ∷ options) =
    build_option_index (index_aliases ((option.canonical, option) ∷ index) option option.aliases)
      options

unfoldable pub find_option : Text → OptionIndex → Option CliOption
find_option name [] = none
find_option name ((n, option) ∷ index) =
    if text_eq n name then some option else find_option name index

-- `optionByName[name]`
unfoldable pub option_by_name : Text → Option CliOption
unfolding build_option_index find_option
option_by_name name = find_option name (build_option_index [] option_definitions)

abbrev pub takes_value : CliOption → Bool
takes_value option = elim option.arity [ no_value ↦ false | required_value ↦ true ]

-- `LookupOption`
unfoldable pub lookup_option : Text → Option CliOption
unfolding option_by_name
lookup_option arg = elim (cut b'=' arg) [
  | none ↦ option_by_name arg
  | some (name, _) ↦ elim (option_by_name name) [
    | none ↦ none
    | some option ↦ if takes_value option then some option else none
  ]
]

-- `CanonicalOption`
unfoldable pub canonical_option : Text → Text
unfolding lookup_option
canonical_option arg = elim (lookup_option arg) [ none ↦ arg | some option ↦ option.canonical ]

-- `KnownOption`
unfoldable pub known_option : Text → Bool
unfolding lookup_option
known_option arg = is_some (lookup_option arg)

-- `OptionTakesSeparateValue`
unfoldable pub option_takes_separate_value : Text → Bool
unfolding lookup_option
option_takes_separate_value arg = elim (cut b'=' arg) [
  | some _ ↦ false
  | none ↦ elim (lookup_option arg) [ none ↦ false | some option ↦ takes_value option ]
]

-- `string(flag)` of a byte: its code point in UTF-8
byte_text : ℕ → Text
byte_text c = if ltb c 128 then c ∷ [] else (192 + c / 64) ∷ (128 + c % 64) ∷ []

-- `ShortOptionTakesAttachedValue`
unfoldable pub short_option_takes_attached_value : ℕ → Bool
unfolding lookup_option byte_text
short_option_takes_attached_value flag = elim (lookup_option (b'-' ∷ byte_text flag)) [
  | none ↦ false
  | some option ↦ takes_value option
]

abbrev task_names : List Text
task_names =
    text "help"
    ∷ text "query"
    ∷ text "version"
    ∷ text "man"
    ∷ text "list_block_groups"
    ∷ text "list_cache_groups"
    ∷ []

-- `IsTask`
unfoldable pub is_task : Text → Bool
unfolding mem_text
is_task arg = mem_text arg task_names

-- `IsTaskFlag`
unfoldable pub is_task_flag : Text → Bool
unfolding lookup_option
is_task_flag arg = elim (lookup_option arg) [ none ↦ false | some option ↦ option.task_flag ]

-- `DocumentedOptions`
unfoldable pub documented_options : List CliOption
documented_options = keep (λ option. not option.hidden) option_definitions
