-- ===== src/Format/Tests.antt =====
-- Runs of the formats of internal/engine/formatter.go, and the theorems about them at work on concrete
-- values.
use facts.Base.{true, false, ◌≡◌, refl, [], ◌∷◌, ◌++◌, some, inr, All}
use facts.Base.Int.{pos}
use facts.Base.Text.{text, text_eq, mem_text, has_byte, has_prefix, contains}
use facts.Value.{Value, null, str, int, bool, arr, obj, any_map, done, nil, cons, end, field}
use facts.Projection.{OutputShape}
use facts.Format.Plain.{FormatLibrary, yaml_date_shaped, is_plain_yaml_string}
use facts.Format.Yaml.{yaml_lines}
use facts.Format.Yaml.OneLine.{OneLine, PrintsOneLine, sprints_inline}
use facts.Format.Yaml.Lines.{yaml_lines-OneLine}
use facts.Format.Hocon.{format_hocon}
use facts.Format.Legacy.{LegacyLibrary, strip_comma_and_unescaped_quotes}
use facts.Format.Legacy.Colored.{format_legacy}
use facts.Format.Legacy.Quotes.{escape_quotes, strip-escape_quotes}

-- Printers that print one text each.
abbrev printers : FormatLibrary
printers = record {
  quote = λ s. text "\"\"";
  json_string = λ s. text "\"\"";
  itoa = λ i. text "7";
  format_float = λ f. text "0.5";
  sprint = λ v. text "map[]";
  is_float = λ s. false;
  is_integer = λ s. false;
  to_lower = λ s. s;
}

abbrev tree : Value
tree = obj (
    field (text "os")
      (obj (field (text "ver") (str (text "a:b")) (field (text "cpu") (int (pos 7)) end)))
      (field (text "dirs") (arr (cons (str (text "/a")) (cons null nil))) end))

runs_yaml :
    yaml_lines printers tree 0
    ≡ text "dirs:"
      ∷ text "- /a"
      ∷ text "- \"\""
      ∷ text "os:"
      ∷ text "  cpu: 7"
      ∷ text "  ver: \"\""
      ∷ []
unfolding yaml_lines mem_text text_eq contains
runs_yaml = refl

runs_hocon :
    format_hocon printers (record {
      shape = OutputShape.full_tree;
      full_tree = field (text "a_b") (obj (field (text "c") (bool true) end)) end;
      single_query = null;
      multi_query = end;
    })
    ≡ text "a_b={\n    c=true\n}\n"
unfolding format_hocon
runs_hocon = refl

-- Text for the encoder of the legacy format.
abbrev encoded : LegacyLibrary
encoded = record {
  encode = λ v.
      some (text "{\n  \"a\": \"x\\\"y\",\n  \"b\": {\n    \"c\": \"d\",\n    \"e\": 1\n  }\n}\n");
  sprint = λ v. [];
}

runs_legacy :
    format_legacy encoded (record {
      shape = OutputShape.full_tree;
      full_tree = end;
      single_query = null;
      multi_query = end;
    })
    ≡ text "a => x\"y\nb => {\n  c => \"d\",\n  e => 1\n}"
unfolding format_legacy has_prefix
runs_legacy = refl

runs_date : yaml_date_shaped (text "2026-05-14") ≡ true
unfolding yaml_date_shaped
runs_date = refl

-- A string with a space at its end is plain, although a plain scalar does not keep it.
runs_space : is_plain_yaml_string printers (text "a ") ≡ true
unfolding is_plain_yaml_string contains
runs_space = refl

printers_one : PrintsOneLine printers
unfolding has_byte
printers_one = record {
  quote_one = λ s. refl;
  json_one = λ s. refl;
  itoa_one = λ i. refl;
  float_one = λ f. refl;
}

yaml_lines-OneLine_example : All OneLine (yaml_lines printers tree 0)
yaml_lines-OneLine_example =
    yaml_lines-OneLine printers printers_one tree 0 (unfold sprints_inline has_byte in refl)

strip-escape_quotes_example :
    strip_comma_and_unescaped_quotes
      (text "a => " ++ (b'"' ∷ (escape_quotes (text "x\"y") ++ text "\",")))
    ≡ text "a => " ++ text "x\"y"
unfolding has_byte
strip-escape_quotes_example =
    strip-escape_quotes (text "a => ") (text "x\"y") (text "\",") refl refl refl (inr refl)

-- A printer that writes a newline of a value's text out, on a map with keys of any type.
abbrev breaking : FormatLibrary
breaking = record printers { sprint = λ v. text "map[a:b\nc]" }

runs_broken_line : yaml_lines breaking (any_map done) 0 ≡ text "map[a:b\nc]" ∷ []
unfolding yaml_lines
runs_broken_line = refl
