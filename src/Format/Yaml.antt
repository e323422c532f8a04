-- ===== src/Format/Yaml.antt =====
-- internal/engine/formatter.go: the YAML format.
pub mod Lines
pub mod OneLine
use facts.Base.{
  ℕ, zero, suc, Bool, true, false, ◌||◌, List, [], ◌∷◌, ◌++◌, map, is_nil, if◌then◌else◌,
}
use facts.Base.Text.{Text, text, text_eq}
use facts.Value.{
  Value, null, str, int, float, bool, arr, strs, ints, obj, any_map, other, Items, nil, cons,
  Fields, end, field,
}
use facts.Format.Plain.{
  FormatLibrary, View, document, yaml_key, is_plain_yaml_string, repeat, join_with, sorted_keys,
  all_lines, all_parts, bool_text,
}

-- A string in `yamlScalar`
unfoldable pub yaml_string : FormatLibrary → Text → Text
unfolding is_plain_yaml_string
yaml_string lib s =
    if text_eq s (text "true") || text_eq s (text "false")
    then b'\'' ∷ (s ++ text "'")
    else if is_plain_yaml_string lib s
    then s
    else lib.quote s

-- `{`, the parts of a map, and `}`: `yamlInlineMap` on what `yamlInlineMapContents` joins
unfoldable pub inline_contents : List (Text × Text) → Text
unfolding join_with all_parts sorted_keys
inline_contents parts = join_with (text ", ") (all_parts (sorted_keys parts))

unfoldable pub in_braces : Text → Text
in_braces s = b'{' ∷ (s ++ text "}")

unfoldable pub in_brackets : List Text → Text
unfolding join_with
in_brackets parts = b'[' ∷ (join_with (text ", ") parts ++ text "]")

-- `yamlScalar`, with the parts of its arrays and maps
unfoldable mutual
  unfolding yaml_string in_braces in_brackets inline_contents yaml_key

  pub yaml_scalar : FormatLibrary → Value → Text
  yaml_scalar lib null = lib.quote []
  yaml_scalar lib (str s) = yaml_string lib s
  yaml_scalar lib (int i) = lib.itoa i
  yaml_scalar lib (float f) = lib.format_float f
  yaml_scalar lib (bool b) = bool_text b
  yaml_scalar lib (obj m) = in_braces (inline_contents (yaml_parts lib m))
  yaml_scalar lib (arr vs) = in_brackets (yaml_scalars lib vs)
  yaml_scalar lib (strs ss) = in_brackets (map (yaml_string lib) ss)
  yaml_scalar lib (ints is) = in_brackets (map lib.itoa is)
  yaml_scalar lib v = lib.sprint v

  pub yaml_scalars : FormatLibrary → Items → List Text
  yaml_scalars lib nil = []
  yaml_scalars lib (cons v vs) = yaml_scalar lib v ∷ yaml_scalars lib vs

  pub yaml_parts : FormatLibrary → Fields → List (Text × Text)
  yaml_parts lib end = []
  yaml_parts lib (field k v m) =
      (k, yaml_key lib k ++ (text ": " ++ yaml_scalar lib v)) ∷ yaml_parts lib m

-- `yamlSequenceMap`
unfoldable pub yaml_sequence_map : FormatLibrary → Fields → Text
unfolding yaml_parts inline_contents in_braces
yaml_sequence_map lib (field k v end) = inline_contents (yaml_parts lib (field k v end))
yaml_sequence_map lib m = in_braces (inline_contents (yaml_parts lib m))

unfoldable yaml_element : FormatLibrary → Value → Text
unfolding yaml_sequence_map yaml_scalar
yaml_element lib (obj m) = yaml_sequence_map lib m
yaml_element lib v = yaml_scalar lib v

abbrev pub indent : ℕ → Text
indent depth = repeat (text "  ") depth

-- `yamlSequenceLines`
unfoldable pub yaml_sequence_lines : FormatLibrary → ℕ → Items → List Text
unfolding yaml_element repeat
yaml_sequence_lines lib depth nil = []
yaml_sequence_lines lib depth (cons v vs) =
    (indent depth ++ (text "- " ++ yaml_element lib v)) ∷ yaml_sequence_lines lib depth vs

abbrev key_line : FormatLibrary → ℕ → Text → Text → Text
key_line lib depth k rest = indent depth ++ (yaml_key lib k ++ (b':' ∷ rest))

-- `yamlLines` on a map, with the lines of each key
unfoldable mutual
  unfolding yaml_sequence_lines yaml_scalar all_lines sorted_keys repeat yaml_key

  pub yaml_fields : FormatLibrary → ℕ → Fields → List (Text × List Text)
  yaml_fields lib depth end = []
  yaml_fields lib depth (field k v m) = (k, yaml_field lib depth k v) ∷ yaml_fields lib depth m

  pub yaml_field : FormatLibrary → ℕ → Text → Value → List Text
  yaml_field lib depth k (obj m) =
      key_line lib depth k [] ∷ all_lines (sorted_keys (yaml_fields lib (suc depth) m))
  yaml_field lib depth k (arr vs) = key_line lib depth k [] ∷ yaml_sequence_lines lib depth vs
  yaml_field lib depth k v = key_line lib depth k (b' ' ∷ yaml_scalar lib v) ∷ []

-- `yamlLines`
unfoldable pub yaml_lines : FormatLibrary → Value → ℕ → List Text
unfolding yaml_fields yaml_sequence_lines yaml_scalar
yaml_lines lib (obj m) depth = all_lines (sorted_keys (yaml_fields lib depth m))
yaml_lines lib (arr vs) depth = yaml_sequence_lines lib depth vs
yaml_lines lib v depth = (indent depth ++ yaml_scalar lib v) ∷ []

-- `FormatYAML`
unfoldable pub format_yaml : FormatLibrary → View → Text
unfolding yaml_lines join_with document
format_yaml lib view =
    let out = join_with (text "\n") (yaml_lines lib (obj (document view)) 0) in
    if is_nil out then [] else out ++ text "\n"
