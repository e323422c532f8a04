-- ===== src/Cli/Table/Toggle.antt =====
-- internal/cli/options.go: the options that turn parts on and off of the table.
use facts.Base.{true, false, List, [], ◌∷◌}
use facts.Base.Text.{text}
use facts.Cli.Table.{CliOption, no_value, required_value}

abbrev pub toggle_options : List CliOption
toggle_options =
    record {
      canonical = text "--log-level";
      aliases = text "-l" ∷ [];
      arity = required_value;
      repeatable = false;
      task_flag = false;
      hidden = false;
      conflicts = [];
      documentation = record {
        help = "\t    -l [--log-level]                  Set logging level.";
        man = "  * -l, --log-level: Set logging level.";
      };
    }
    ∷ record {
      canonical = text "--no-block";
      aliases = [];
      arity = no_value;
      repeatable = false;
      task_flag = false;
      hidden = false;
      conflicts = [];
      documentation = record {
        help = "\t       [--no-block]                   Disable fact blocking.";
        man = "  * --no-block: Disable fact blocking.";
      };
    }
    ∷ record {
      canonical = text "--no-cache";
      aliases = [];
      arity = no_value;
      repeatable = false;
      task_flag = false;
      hidden = false;
      conflicts = [];
      documentation = record {
        help =
            "\t       [--no-cache]                   Disable loading and refreshing facts from the cache.";
        man = "  * --no-cache: Disable loading and refreshing facts from the cache.";
      };
    }
    ∷ record {
      canonical = text "--no-external-facts";
      aliases = [];
      arity = no_value;
      repeatable = false;
      task_flag = false;
      hidden = false;
      conflicts = text "--external-dir" ∷ [];
      documentation = record {
        help = "\t       [--no-external-facts]          Disable external facts.";
        man = "  * --no-external-facts: Disable external facts.";
      };
    }
    ∷ record {
      canonical = text "--no-hocon";
      aliases = [];
      arity = no_value;
      repeatable = false;
      task_flag = false;
      hidden = true;
      conflicts = [];
      documentation = record { help = ""; man = "" };
    }
    ∷ record {
      canonical = text "--no-json";
      aliases = [];
      arity = no_value;
      repeatable = false;
      task_flag = false;
      hidden = true;
      conflicts = [];
      documentation = record { help = ""; man = "" };
    }
    ∷ record {
      canonical = text "--no-yaml";
      aliases = [];
      arity = no_value;
      repeatable = false;
      task_flag = false;
      hidden = true;
      conflicts = [];
      documentation = record { help = ""; man = "" };
    }
    ∷ record {
      canonical = text "--verbose";
      aliases = [];
      arity = no_value;
      repeatable = false;
      task_flag = false;
      hidden = false;
      conflicts = [];
      documentation = record {
        help = "\t       [--verbose]                    Enable verbose output.";
        man = "  * --verbose: Enable verbose output.";
      };
    }
    ∷ []
