-- ===== src/Format/Plain.antt =====
-- internal/engine/formatter.go: which keys and strings are printed without quotes, and what the
-- formatters share.
use facts.Base.{
  ℕ, zero, suc, Bool, true, false, not, ◌&&◌, ◌||◌, List, [], ◌∷◌, ◌++◌, length, all, any, is_nil,
  keep, leb, ◌==◌, if◌then◌else◌,
}
use facts.Base.Int.{ℤ}
use facts.Base.Text.{Text, text, contains, mem_text}
use facts.Base.Text.Order.{text_le}
use facts.Base.Text.Split.{split}
use facts.Value.{Value, Fields}
use facts.Projection.{OutputShape}

-- What Go's packages `strconv`, `encoding/json`, `fmt` and `strings` print and read.
pub record FormatLibrary : Type 0 where
  -- `strconv.Quote`
  pub quote : Text → Text
  -- `json.Marshal` of a string
  pub json_string : Text → Text
  -- `strconv.Itoa`
  pub itoa : ℤ → Text
  -- `strconv.FormatFloat(v, 'f', -1, 64)`
  pub format_float : ℕ → Text
  -- `fmt.Sprint`
  pub sprint : Value → Text
  -- whether `strconv.ParseFloat(s, 64)` has no error
  pub is_float : Text → Bool
  -- whether `strconv.ParseInt(s, 0, 64)` has no error
  pub is_integer : Text → Bool
  -- `strings.ToLower`
  pub to_lower : Text → Text

-- What a formatter reads of a `Projection`: `Shape`, `FullTree`, `SingleQueryValue` and
-- `MultiQueryValues`.
pub record View : Type 0 where
  pub shape : OutputShape
  pub full_tree : Fields
  pub single_query : Value
  pub multi_query : Fields

-- The map that `FormatJSON` and `FormatYAML` print.
unfoldable pub document : View → Fields
document v = elim v.shape [
  | OutputShape.full_tree ↦ v.full_tree
  | OutputShape.single_query ↦ v.multi_query
  | OutputShape.multi_query ↦ v.multi_query
  | OutputShape.empty ↦ v.multi_query
]

abbrev pub is_letter : ℕ → Bool
is_letter c = (leb b'a' c && leb c b'z') || (leb b'A' c && leb c b'Z')

abbrev pub is_digit : ℕ → Bool
is_digit c = leb b'0' c && leb c b'9'

-- `isPlainOutputKey`: a byte beyond ASCII is part of a rune that is not plain
unfoldable pub plain_key_byte : Bool → ℕ → Bool
plain_key_byte allow_dot c =
    is_letter c || is_digit c || c == b'_' || c == b'-' || (allow_dot && c == b'.')

unfoldable pub is_plain_output_key : Text → Bool → Bool
unfolding plain_key_byte
is_plain_output_key value allow_dot = not (is_nil value) && all (plain_key_byte allow_dot) value

abbrev plain_yaml_words : List Text
plain_yaml_words =
    text "true"
    ∷ text "false"
    ∷ text "null"
    ∷ text "~"
    ∷ text "yes"
    ∷ text "no"
    ∷ text "on"
    ∷ text "off"
    ∷ []

-- `isPlainYAMLKey`
unfoldable pub is_plain_yaml_key : FormatLibrary → Text → Bool
is_plain_yaml_key lib value =
    not (mem_text (lib.to_lower value) plain_yaml_words) && not (lib.is_float value)

-- `yamlKey` and `hoconKey`, with `quoteOutputString`
unfoldable pub yaml_key : FormatLibrary → Text → Text
unfolding is_plain_output_key is_plain_yaml_key
yaml_key lib value =
    if is_plain_output_key value true && is_plain_yaml_key lib value
    then value
    else lib.json_string value

unfoldable pub hocon_key : FormatLibrary → Text → Text
unfolding is_plain_output_key
hocon_key lib value = if is_plain_output_key value false then value else lib.json_string value

-- `isPlainHOCONString`
plain_hocon_byte : ℕ → Bool
plain_hocon_byte c = is_letter c || is_digit c || c == b'-' || c == b'.'

unfoldable pub is_plain_hocon_string : Text → Bool
unfolding plain_hocon_byte
is_plain_hocon_string value =
    not (is_nil value) && not (contains value (text "_")) && all plain_hocon_byte value

abbrev quoted_markers : List Text
quoted_markers =
    text "True"
    ∷ text "TRUE"
    ∷ text "False"
    ∷ text "FALSE"
    ∷ text "On"
    ∷ text "ON"
    ∷ text "Off"
    ∷ text "OFF"
    ∷ text "off"
    ∷ []

abbrev quoted_byte : ℕ → Bool
quoted_byte c = c == b'y' || c == b'Y' || c == b'n' || c == b'N' || c == b':'

-- `needsQuotedYAMLString`
unfoldable pub needs_quoted_yaml_string : Text → Bool
needs_quoted_yaml_string value = any quoted_byte value || any (contains value) quoted_markers

date_parts : List Text → Bool
date_parts (year ∷ month ∷ day ∷ []) =
    length year == 4
    && (leb 1 (length month) && leb (length month) 2)
    && (leb 1 (length day) && leb (length day) 2)
    && (all is_digit year && all is_digit month && all is_digit day)
date_parts parts = false

-- `yamlDateShaped`
unfoldable pub yaml_date_shaped : Text → Bool
unfolding date_parts split
yaml_date_shaped value = date_parts (split b'-' value)

-- `strings.TrimPrefix(strings.ReplaceAll(value, "_", ""), "-")`
trim_minus : Text → Text
trim_minus [] = []
trim_minus (c ∷ s) = if c == b'-' then s else c ∷ s

unfoldable pub resolver_digits : Text → Text
unfolding trim_minus
resolver_digits value = trim_minus (keep (λ c. not (c == b'_')) value)

-- `yamlResolverRetypes`
unfoldable pub yaml_resolver_retypes : FormatLibrary → Text → Bool
unfolding resolver_digits yaml_date_shaped
yaml_resolver_retypes lib value =
    let digits = resolver_digits value in
    (not (is_nil digits) && (lib.is_integer digits || all is_digit digits))
    || yaml_date_shaped value

unfoldable pub plain_yaml_byte : ℕ → Bool
plain_yaml_byte c = is_letter c || is_digit c || c == b'_' || c == b'-' || c == b' ' || c == b'/'

-- `isPlainYAMLString`
unfoldable pub is_plain_yaml_string : FormatLibrary → Text → Bool
unfolding needs_quoted_yaml_string yaml_resolver_retypes plain_yaml_byte
is_plain_yaml_string lib value =
    not (is_nil value)
    && not (needs_quoted_yaml_string value)
    && all plain_yaml_byte value
    && not (yaml_resolver_retypes lib value)

-- `strings.Repeat`
unfoldable pub repeat : Text → ℕ → Text
repeat s zero = []
repeat s (suc n) = s ++ repeat s n

-- `strings.Join`
unfoldable pub join_with : Text → List Text → Text
join_with sep [] = []
join_with sep (p ∷ []) = p
join_with sep (p ∷ q ∷ ps) = p ++ (sep ++ join_with sep (q ∷ ps))

-- What is printed for the keys of a map, in the order of `sortedKeys`: a key is there once, so that
-- each child can be printed before the keys are sorted.
unfoldable pub insert_key {ℓ} : {A : Type ℓ} → Text × A → List (Text × A) → List (Text × A)
unfolding text_le
insert_key p [] = p ∷ []
insert_key p (q ∷ ps) =
    let rest = insert_key p ps in if text_le p.0 q.0 then p ∷ q ∷ ps else q ∷ rest

unfoldable pub sorted_keys {ℓ} : {A : Type ℓ} → List (Text × A) → List (Text × A)
unfolding insert_key
sorted_keys [] = []
sorted_keys (p ∷ ps) = insert_key p (sorted_keys ps)

-- The lines of the keys, one after another.
unfoldable pub all_lines : List (Text × List Text) → List Text
all_lines [] = []
all_lines ((k, lines) ∷ ps) = lines ++ all_lines ps

unfoldable pub all_parts : List (Text × Text) → List Text
all_parts [] = []
all_parts ((k, part) ∷ ps) = part ∷ all_parts ps

abbrev pub bool_text : Bool → Text
bool_text true = text "true"
bool_text false = text "false"
