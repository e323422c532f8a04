-- ===== src/Cli/Table/Output.antt =====
-- internal/cli/options.go: the output and query options of the table.
use facts.Base.{true, false, List, [], ◌∷◌}
use facts.Base.Text.{text}
use facts.Cli.Table.{CliOption, no_value, required_value}

abbrev pub output_options : List CliOption
output_options =
    record {
      canonical = text "--color";
      aliases = [];
      arity = no_value;
      repeatable = false;
      task_flag = false;
      hidden = false;
      conflicts = text "--no-color" ∷ [];
      documentation = record {
        help =
            "\t       [--color]                      Force color output (default: enabled when writing to a terminal). In the default output format, fact keys are colored by nesting depth.";
        man =
            "  * --color: Force color output (default: enabled when writing to a terminal). In the default output format, fact keys are colored by nesting depth.";
      };
    }
    ∷ record {
      canonical = text "--no-color";
      aliases = [];
      arity = no_value;
      repeatable = false;
      task_flag = false;
      hidden = false;
      conflicts = [];
      documentation = record {
        help = "\t       [--no-color]                   Disable color output.";
        man = "  * --no-color: Disable color output.";
      };
    }
    ∷ record {
      canonical = text "--config";
      aliases = text "-c" ∷ [];
      arity = required_value;
      repeatable = false;
      task_flag = false;
      hidden = false;
      conflicts = [];
      documentation = record {
        help = "\t    -c [--config]                     The location of the config file.";
        man = "  * -c, --config: The location of the config file.";
      };
    }
    ∷ record {
      canonical = text "--debug";
      aliases = text "-d" ∷ [];
      arity = no_value;
      repeatable = false;
      task_flag = false;
      hidden = false;
      conflicts = [];
      documentation = record {
        help = "\t    -d [--debug]                      Enable debug output.";
        man = "  * -d, --debug: Enable debug output.";
      };
    }
    ∷ record {
      canonical = text "--disable";
      aliases = [];
      arity = required_value;
      repeatable = true;
      task_flag = false;
      hidden = false;
      conflicts = [];
      documentation = record {
        help =
            "\t       [--disable]                    Disable facts or fact groups (comma-separated, repeatable). Standalone resolvers are skipped; others are pruned from output, even when queried.";
        man =
            "  * --disable: Disable facts or fact groups (comma-separated, repeatable). Standalone resolvers are skipped; others are pruned from output, even when queried. Unions with the FACTS_DISABLE environment variable and the config file disable list; --no-block clears the whole set.";
      };
    }
    ∷ record {
      canonical = text "--external-dir";
      aliases = [];
      arity = required_value;
      repeatable = true;
      task_flag = false;
      hidden = false;
      conflicts = text "--no-external-facts" ∷ [];
      documentation = record {
        help = "\t       [--external-dir]               A directory to use for external facts.";
        man = "  * --external-dir: A directory to use for external facts.";
      };
    }
    ∷ record {
      canonical = text "--force-dot-resolution";
      aliases = [];
      arity = no_value;
      repeatable = false;
      task_flag = false;
      hidden = false;
      conflicts = [];
      documentation = record {
        help = "\t       [--force-dot-resolution]       Merge dotted facts into structured facts.";
        man = "  * --force-dot-resolution: Merge dotted facts into structured facts.";
      };
    }
    ∷ record {
      canonical = text "--hocon";
      aliases = [];
      arity = no_value;
      repeatable = false;
      task_flag = false;
      hidden = false;
      conflicts = text "--no-hocon" ∷ [];
      documentation = record {
        help = "\t       [--hocon]                      Output in Hocon format.";
        man = "  * --hocon: Output in Hocon format.";
      };
    }
    ∷ record {
      canonical = text "--json";
      aliases = text "-j" ∷ [];
      arity = no_value;
      repeatable = false;
      task_flag = false;
      hidden = false;
      conflicts = text "--no-json" ∷ text "-y" ∷ text "--yaml" ∷ text "--hocon" ∷ [];
      documentation = record {
        help = "\t    -j [--json]                       Output in JSON format.";
        man = "  * -j, --json: Output in JSON format.";
      };
    }
    ∷ []
