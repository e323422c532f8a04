-- ===== src/Cli/Table/Other.antt =====
-- internal/cli/options.go: the other options of the table.
use facts.Base.{true, false, List, [], ◌∷◌}
use facts.Base.Text.{text}
use facts.Cli.Table.{CliOption, no_value}

abbrev pub other_options : List CliOption
other_options =
    record {
      canonical = text "--yaml";
      aliases = text "-y" ∷ [];
      arity = no_value;
      repeatable = false;
      task_flag = false;
      hidden = false;
      conflicts = text "--no-yaml" ∷ text "-j" ∷ text "--hocon" ∷ [];
      documentation = record {
        help = "\t    -y [--yaml]                       Output in YAML format.";
        man = "  * -y, --yaml: Output in YAML format.";
      };
    }
    ∷ record {
      canonical = text "--strict";
      aliases = [];
      arity = no_value;
      repeatable = false;
      task_flag = false;
      hidden = false;
      conflicts = [];
      documentation = record {
        help = "\t       [--strict]                     Enable more aggressive error reporting.";
        man = "  * --strict: Enable more aggressive error reporting.";
      };
    }
    ∷ record {
      canonical = text "--timing";
      aliases = text "-t" ∷ [];
      arity = no_value;
      repeatable = false;
      task_flag = false;
      hidden = false;
      conflicts = [];
      documentation = record {
        help =
            "\t    -t [--timing]                     Show how much time it took to resolve each fact.";
        man = "  * -t, --timing: Show how much time it took to resolve each fact.";
      };
    }
    ∷ record {
      canonical = text "--sequential";
      aliases = [];
      arity = no_value;
      repeatable = false;
      task_flag = false;
      hidden = false;
      conflicts = [];
      documentation = record {
        help = "\t       [--sequential]                 Resolve facts sequentially.";
        man = "  * --sequential: Resolve facts sequentially.";
      };
    }
    ∷ record {
      canonical = text "--http-debug";
      aliases = [];
      arity = no_value;
      repeatable = false;
      task_flag = false;
      hidden = false;
      conflicts = [];
      documentation = record {
        help =
            "\t       [--http-debug]                 Write HTTP request and responses to stderr.";
        man = "  * --http-debug: Write HTTP request and responses to stderr.";
      };
    }
    ∷ record {
      canonical = text "--help";
      aliases = text "-h" ∷ [];
      arity = no_value;
      repeatable = false;
      task_flag = true;
      hidden = false;
      conflicts = [];
      documentation = record {
        help = "\t    -h [--help]                       Help for all arguments";
        man = "  * --help, -h: Help for all arguments.";
      };
    }
    ∷ record {
      canonical = text "--version";
      aliases = text "-v" ∷ [];
      arity = no_value;
      repeatable = false;
      task_flag = true;
      hidden = false;
      conflicts = [];
      documentation = record {
        help = "\t       --version, -v                  Print the version";
        man = "  * --version, -v: Print the version.";
      };
    }
    ∷ record {
      canonical = text "--man";
      aliases = [];
      arity = no_value;
      repeatable = false;
      task_flag = true;
      hidden = false;
      conflicts = [];
      documentation = record {
        help = "\t       --man                          Display manual.";
        man = "  * --man: Display manual.";
      };
    }
    ∷ record {
      canonical = text "--list-block-groups";
      aliases = [];
      arity = no_value;
      repeatable = false;
      task_flag = true;
      hidden = false;
      conflicts = [];
      documentation = record {
        help = "\t       --list-block-groups            List block groups";
        man = "  * --list-block-groups: List block groups.";
      };
    }
    ∷ record {
      canonical = text "--list-cache-groups";
      aliases = [];
      arity = no_value;
      repeatable = false;
      task_flag = true;
      hidden = false;
      conflicts = [];
      documentation = record {
        help = "\t       --list-cache-groups            List cache groups";
        man = "  * --list-cache-groups: List cache groups.";
      };
    }
    ∷ []
