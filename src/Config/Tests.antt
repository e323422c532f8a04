-- ===== src/Config/Tests.antt =====
-- Runs of `configSection` of internal/engine/config.go, and the theorems about it at work on concrete
-- configuration files.
use facts.Base.{◌≡◌, ◌≢◌, refl, [], none, some}
use facts.Base.Text.{Text, text}
use facts.Base.Text.Unicode.{ascii}
use facts.Config.Section.{config_section}
use facts.Config.Section.Termination.{config_section-returns}
use facts.Config.Section.Braces.{SectionOf, config_section-SectionOf}

abbrev sample : Text
sample =
    text
      "# facts : { no }\nglobal : { a : \"b\", c : { d : 1 } }\nfacts : { blocklist : [ \"os\" ] }"

runs : config_section ascii sample (text "facts") ≡ some (text " blocklist : [ \"os\" ] ")
unfolding config_section ascii
runs = refl

-- A name inside the braces of another section is none.
runs_inner : config_section ascii sample (text "c") ≡ some []
unfolding config_section ascii
runs_inner = refl

runs_nested : config_section ascii sample (text "GLOBAL") ≡ some (text " a : \"b\", c : { d : 1 } ")
unfolding config_section ascii
runs_nested = refl

-- A brace in a string of a section ends the section.
runs_string :
    config_section ascii (text "facts : { a : \"}\", b : 1 }") (text "facts")
    ≡ some (text " a : \"")
unfolding config_section ascii
runs_string = refl

config_section-returns_example : config_section ascii sample (text "facts") ≢ none
config_section-returns_example = config_section-returns ascii sample (text "facts")

config_section-SectionOf_example : SectionOf sample (text " blocklist : [ \"os\" ] ")
config_section-SectionOf_example =
    config_section-SectionOf ascii sample (text "facts") (text " blocklist : [ \"os\" ] ") runs
