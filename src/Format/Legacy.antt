-- ===== src/Format/Legacy.antt =====
-- internal/engine/formatter.go: the legacy text format, which rewrites indented JSON. The regular
-- expressions are written as scans.
pub mod Colored
pub mod Quotes
use facts.Base.{
  ℕ, zero, suc, ◌+◌, ◌-◌, ◌/◌, ◌%◌, Bool, true, false, not, ◌&&◌, ◌||◌, List, [], ◌∷◌, ◌++◌, Option,
  none, some, map, is_nil, leb, ltb, take, length, ◌==◌, if◌then◌else◌,
}
use facts.Base.Int.{ℤ, pos, negsuc}
use facts.Base.Text.{Text, text, has_prefix, has_byte}
use facts.Base.Text.Split.{split, join}
use facts.Groups.Environment.{drop}
use facts.Value.{Value, null, str, obj, Fields, end, field}
use facts.Projection.{OutputShape}
use facts.Format.Plain.{View}

-- Go's `encoding/json` with an indent and without HTML escapes, `none` where it fails, and
-- `fmt.Sprint`.
pub record LegacyLibrary : Type 0 where
  pub encode : Value → Option Text
  pub sprint : Value → Text

-- `isLegacySpace`
abbrev pub is_legacy_space : ℕ → Bool
is_legacy_space c = c == b' ' || (leb 9 c && leb c 13)

-- `\s` of Go's regular expressions
abbrev is_regexp_space : ℕ → Bool
is_regexp_space c = c == b' ' || c == 9 || c == 10 || c == 12 || c == 13

-- `legacyKeyDelimiterRE`: a quote, a colon and a space become a quote and an arrow
unfoldable pub key_delimiters : Text → Text
key_delimiters (a ∷ b ∷ c ∷ s) =
    let found = key_delimiters s in
    let rest = key_delimiters (b ∷ c ∷ s) in
    if a == b'"' && b == b':' && is_regexp_space c then text "\" => " ++ found else a ∷ rest
key_delimiters s = s

-- `strings.ReplaceAll` of two bytes
unfoldable pub replace_pair : ℕ → ℕ → Text → Text → Text
replace_pair a b new (x ∷ y ∷ s) =
    let found = replace_pair a b new s in
    let rest = replace_pair a b new (y ∷ s) in if x == a && y == b then new ++ found else x ∷ rest
replace_pair a b new s = s

-- What is before and behind the last `" =>` of a line.
unfoldable cut_arrow : Text → Option (Text × Text)
cut_arrow [] = none
cut_arrow (c ∷ s) = elim (cut_arrow s) [
  | some (a, b) ↦ some (c ∷ a, b)
  | none ↦ if has_prefix (c ∷ s) (text "\" =>") then some ([], drop 4 (c ∷ s)) else none
]

-- `legacyKeyQuoteRE` in a line: what is before the first quote, between it and the last `" =>`, and
-- behind that
pub record KeyMatch : Type 0 where
  pub before : Text
  pub key : Text
  pub behind : Text

of_arrow : Option (Text × Text) → Option KeyMatch
of_arrow none = none
of_arrow (some (key, behind)) = some (record { before = []; key = key; behind = behind })

with_before : ℕ → Option KeyMatch → Option KeyMatch
with_before c none = none
with_before c (some m) = some (record { before = c ∷ m.before; key = m.key; behind = m.behind })

unfoldable pub key_match : Text → Option KeyMatch
unfolding cut_arrow of_arrow with_before drop
key_match [] = none
key_match (c ∷ s) =
    let later = key_match s in if c == b'"' then of_arrow (cut_arrow s) else with_before c later

-- `legacyIndentWidth`
unfoldable pub legacy_indent_width : Text → ℕ
legacy_indent_width [] = 0
legacy_indent_width (c ∷ s) = let rest = legacy_indent_width s in if c == b' ' then suc rest else 0

escape : Text → Text
escape s = 27 ∷ s

-- `legacyKeyPalette[depth%len(legacyKeyPalette)]`
palette : ℕ → Text
unfolding escape
palette n =
    if n == 0
    then escape (text "[36m")
    else if n == 1
    then escape (text "[33m")
    else if n == 2
    then escape (text "[32m")
    else if n == 3
    then escape (text "[35m")
    else escape (text "[34m")

-- `max(0, width/2+depthShift)`
unfoldable pub key_depth : ℕ → ℤ → ℕ
key_depth half (pos n) = half + n
key_depth half (negsuc n) = half - suc n

unfoldable pub rewrite_line : Bool → ℤ → Text → Text
unfolding key_match legacy_indent_width palette key_depth escape
rewrite_line colorize depth_shift line = elim (key_match line) [
  | none ↦ line
  | some m ↦
      if not colorize
      then m.before ++ (m.key ++ (text " =>" ++ m.behind))
      else m.before
        ++ (palette (key_depth (legacy_indent_width line / 2) depth_shift % 5)
            ++ (m.key ++ (escape (text "[0m") ++ (text " =>" ++ m.behind))))
]

-- `rewriteLegacyKeys`; the pattern stays within a line
unfoldable pub rewrite_legacy_keys : Text → Bool → ℤ → Text
unfolding rewrite_line split join
rewrite_legacy_keys pretty colorize depth_shift =
    join b'\n' (map (rewrite_line colorize depth_shift) (split b'\n' pretty))

-- `strings.TrimSuffix(s, "\n")`
trim_final_newline : Text → Text
trim_final_newline [] = []
trim_final_newline (c ∷ []) = if c == b'\n' then [] else c ∷ []
trim_final_newline (c ∷ d ∷ s) = c ∷ trim_final_newline (d ∷ s)

-- `hashToFacterFormat`
unfoldable pub hash_to_facter_format : LegacyLibrary → Value → Bool → ℤ → Text
unfolding key_delimiters rewrite_legacy_keys replace_pair trim_final_newline
hash_to_facter_format lib value colorize depth_shift = elim (lib.encode value) [
  | none ↦ lib.sprint value
  | some out ↦
      replace_pair b'\\' b'\\' (text "\\")
        (rewrite_legacy_keys (key_delimiters (trim_final_newline out)) colorize depth_shift)
]

-- `legacyEmptyLineRE`: the newlines at the start of a line
unfoldable pub drop_empty_lines : Bool → Text → Text
drop_empty_lines at_start [] = []
drop_empty_lines at_start (c ∷ s) =
    let start = drop_empty_lines true s in
    let rest = drop_empty_lines false s in
    if c == b'\n' then if at_start then start else c ∷ start else c ∷ rest

dedent : Text → Text
dedent (a ∷ b ∷ s) = if is_legacy_space a && is_legacy_space b then s else a ∷ b ∷ s
dedent s = s

drop_comma : Text → Text
unfolding drop
drop_comma line = if has_prefix line (text "},") then b'}' ∷ drop 2 line else line

-- `removeEnclosingAccolades`
unfoldable pub remove_enclosing_accolades : Text → Text
unfolding drop_empty_lines dedent drop_comma split join drop
remove_enclosing_accolades pretty =
    if ltb (length pretty) 2
    then []
    else join b'\n' (
        map (λ line. drop_comma (dedent line))
          (split b'\n' (drop_empty_lines true (drop 1 (take (length pretty - 1) pretty)))))

-- The loop of `stripCommaAndUnescapedQuotes`, with whether the byte before is a backslash.
unfoldable pub strip_from : Bool → Text → Text
strip_from escaped [] = []
strip_from escaped (c ∷ s) =
    let rest = strip_from (c == b'\\') s in
    if c == b',' && is_nil s then rest else if c == b'"' && not escaped then rest else c ∷ rest

-- `stripCommaAndUnescapedQuotes`
unfoldable pub strip_comma_and_unescaped_quotes : Text → Text
unfolding strip_from replace_pair
strip_comma_and_unescaped_quotes line = replace_pair b'\\' b'"' (text "\"") (strip_from false line)

drop_empty_end : List Text → List Text
drop_empty_end [] = []
drop_empty_end (l ∷ lines) = elim (drop_empty_end lines) [
  | [] ↦ if is_nil l then [] else l ∷ []
  | m ∷ rest ↦ l ∷ m ∷ rest
]

starts_with_space : Text → Bool
starts_with_space [] = false
starts_with_space (c ∷ s) = is_legacy_space c

-- `removeCommaAndQuotation`
unfoldable pub remove_comma_and_quotation : Text → Text
unfolding strip_comma_and_unescaped_quotes drop_empty_end starts_with_space split join
remove_comma_and_quotation pretty = join b'\n' (
    map (λ line. if starts_with_space line then line else strip_comma_and_unescaped_quotes line)
      (drop_empty_end (split b'\n' pretty)))

-- `handleNewlines`
unfoldable pub handle_newlines : Text → Text
unfolding replace_pair
handle_newlines pretty = replace_pair b'\\' b'n' (text "\n") pretty

-- `legacyCollectionText`
unfoldable pub legacy_collection_text : LegacyLibrary → Fields → Bool → Text
unfolding hash_to_facter_format remove_enclosing_accolades remove_comma_and_quotation
    handle_newlines
legacy_collection_text lib m colorize = handle_newlines (
    remove_comma_and_quotation
      (remove_enclosing_accolades (hash_to_facter_format lib (obj m) colorize (negsuc 0))))
