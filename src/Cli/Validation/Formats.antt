-- ===== src/Cli/Validation/Formats.antt =====
-- `validateOptions` of internal/cli/validation.go: the output formats that are asked for.
use facts.Base.{All, first, Bool, true, false, ◌&&◌, ◌||◌, ◌≡◌, refl, List, [], ◌∷◌, none, arith}
use facts.Base.Text.{Text, text, text_eq, mem_text}
use facts.Base.Text.Split.{cut}
use facts.Cli.Validation.{
  scan, passes, fails, Checked, validate_options, Seen, OptionConflict, OptionError, check_seen,
  find_conflict, option_conflict_rules,
}
use facts.Cli.Options.{lookup_option}

abbrev pub asks_json : Seen → Bool
asks_json seen = mem_text (text "--json") seen.raw || mem_text (text "-j") seen.raw

abbrev pub asks_yaml : Seen → Bool
asks_yaml seen = mem_text (text "--yaml") seen.raw || mem_text (text "-y") seen.raw

abbrev pub asks_hocon : Seen → Bool
asks_hocon seen = mem_text (text "--hocon") seen.raw

first-none :
    (raw cs : List Text)
    → first (λ c. mem_text c raw) cs ≡ none
    → All (λ c. mem_text c raw ≡ false) cs
first-none raw [] h = tt
first-none raw (c ∷ cs) h = (ground arith, first-none raw cs (ground arith))

abbrev IsKept : List Text → OptionConflict → Type 0
IsKept raw rule = mem_text rule.option raw ≡ true → All (λ c. mem_text c raw ≡ false) rule.conflicts

find_conflict-none :
    (raw : List Text) (rules : List OptionConflict)
    → find_conflict raw rules ≡ none
    → All (IsKept raw) rules
unfolding find_conflict
find_conflict-none raw [] h = tt
find_conflict-none raw (rule ∷ rules) h = (
  λ seen. first-none raw rule.conflicts (ground arith),
  find_conflict-none raw rules (ground arith),
)

rules-IsKept : (seen : Seen) → check_seen seen ≡ none → All (IsKept seen.raw) option_conflict_rules
unfolding check_seen
rules-IsKept seen h = find_conflict-none seen.raw option_conflict_rules (ground arith)

-- The rules with their conflicts looked up.
abbrev written_rules : List OptionConflict
written_rules =
    record { option = text "--color"; conflicts = text "--no-color" ∷ [] }
    ∷ record {
      option = text "--json";
      conflicts = text "--no-json" ∷ text "-y" ∷ text "--yaml" ∷ text "--hocon" ∷ [];
    }
    ∷ record {
      option = text "--yaml";
      conflicts = text "--no-yaml" ∷ text "-j" ∷ text "--hocon" ∷ [];
    }
    ∷ record { option = text "--hocon"; conflicts = text "--no-hocon" ∷ [] }
    ∷ record { option = text "-j"; conflicts = text "--no-json" ∷ text "--hocon" ∷ [] }
    ∷ record { option = text "-y"; conflicts = text "--no-yaml" ∷ text "-j" ∷ text "--hocon" ∷ [] }
    ∷ record { option = text "--no-external-facts"; conflicts = text "--external-dir" ∷ [] }
    ∷ []

rules_written : option_conflict_rules ≡ written_rules
unfolding option_conflict_rules lookup_option text_eq cut
rules_written = refl

-- Options that pass the checks ask for JSON, YAML or HOCON, and not for two of them, however the
-- options are spelled.
one_format :
    (seen : Seen)
    → check_seen seen ≡ none
    → ((asks_json seen && asks_yaml seen) ≡ false)
      × ((asks_json seen && asks_hocon seen) ≡ false)
      × ((asks_yaml seen && asks_hocon seen) ≡ false)
one_format seen h =
    let t : All (IsKept seen.raw) written_rules = rw rules_written at (rules-IsKept seen h) in
    ground (arith, t.1.0, t.1.1.0, t.1.1.1.1.0, t.1.1.1.1.1.0)

abbrev pub nothing_seen : Seen
nothing_seen = record { canonical = []; raw = []; log_level = [] }

-- Valid arguments are read to an end, and ask for JSON, YAML or HOCON, and not for two of them,
-- however the options are spelled.
pub validate_options-one_format :
    (args : List Text)
    → validate_options args ≡ none
    → (seen : Seen) × (scan nothing_seen args ≡ passes seen)
      × ((asks_json seen && asks_yaml seen) ≡ false)
      × ((asks_json seen && asks_hocon seen) ≡ false)
      × ((asks_yaml seen && asks_hocon seen) ≡ false)
validate_options-one_format args h = from (scan nothing_seen args) refl
  where
    from :
        (c : Checked)
        → scan nothing_seen args ≡ c
        → (seen : Seen) × (scan nothing_seen args ≡ passes seen)
          × ((asks_json seen && asks_yaml seen) ≡ false)
          × ((asks_json seen && asks_hocon seen) ≡ false)
          × ((asks_yaml seen && asks_hocon seen) ≡ false)
    from (fails e) f = absurd (refused e f)
      where
        refused : (e : OptionError) → scan nothing_seen args ≡ fails e → ⊥
        refused e f = unfold validate_options in ground arith
    from (passes seen) f =
        let (a, b, c) = one_format seen (unfold validate_options in ground arith) in
        (seen, f, a, b, c)
