-- ===== src/External/Values.antt =====
-- internal/engine/external.go: the values of structured fact files, as the decoders give them, and the
-- facts of a map. A `json.Number` and a `time.Time` are `other` values, which `StructuredLibrary`
-- reads. A copy of a map is the map.
use facts.Base.{List, [], ◌∷◌, Option, none, some, ℕ, ◌==◌, if◌then◌else◌}
use facts.Base.Text.{Text, has_byte}
use facts.Base.Text.Number.{parse_int}
use facts.Base.Text.Order.{sort_texts}
use facts.Base.Text.Unicode.{Unicode}
use facts.Value.{
  Value, str, int, float, arr, obj, other, Items, nil, cons, Fields, end, field, lookup, put, keys,
}
use facts.Fact.{ResolvedFact, external}

-- What Go's packages `encoding/json`, `strconv` and `time` know of a value or a text.
pub record StructuredLibrary : Type 0 where
  -- the digits of a `json.Number`
  pub number_text : ℕ → Option Text
  -- `strconv.ParseFloat`
  pub parse_float : Text → Option ℕ
  -- a `time.Time` that is not midnight, in the layout of the loader
  pub time_text : ℕ → Option Text
  -- a text in one of the layouts of `parseExecutableYAMLTime`, as RFC 3339
  pub yaml_time : Text → Option Text

-- `trimYAMLSymbol`
unfoldable pub trim_yaml_symbol : Text → Text
trim_yaml_symbol [] = []
trim_yaml_symbol (c ∷ []) = c ∷ []
trim_yaml_symbol (c ∷ d ∷ s) = if c == b':' then d ∷ s else c ∷ d ∷ s

-- `normalizeYAMLSymbolValue` and `normalizeYAMLSymbolMap`, which writes the keys in the order of the
-- iteration
unfoldable mutual
  pub yaml_symbol_value : Value → Value
  yaml_symbol_value (str s) = str (trim_yaml_symbol s)
  yaml_symbol_value (arr vs) = arr (yaml_symbol_items vs)
  yaml_symbol_value (obj m) = obj (yaml_symbol_fields end m)
  yaml_symbol_value v = v

  pub yaml_symbol_items : Items → Items
  yaml_symbol_items nil = nil
  yaml_symbol_items (cons v vs) = cons (yaml_symbol_value v) (yaml_symbol_items vs)

  pub yaml_symbol_fields : Fields → Fields → Fields
  yaml_symbol_fields done end = done
  yaml_symbol_fields done (field k v m) =
      yaml_symbol_fields (put (trim_yaml_symbol k) (yaml_symbol_value v) done) m

or_text : Text → Option Text → Text
or_text s none = s
or_text s (some t) = t

-- `normalizeExecutableYAMLValue`
unfoldable mutual
  unfolding or_text

  pub executable_value : StructuredLibrary → Value → Value
  executable_value lib (str s) = str (or_text s (lib.yaml_time s))
  executable_value lib (arr vs) = arr (executable_items lib vs)
  executable_value lib (obj m) = obj (executable_fields lib m)
  executable_value lib v = v

  pub executable_items : StructuredLibrary → Items → Items
  executable_items lib nil = nil
  executable_items lib (cons v vs) = cons (executable_value lib v) (executable_items lib vs)

  pub executable_fields : StructuredLibrary → Fields → Fields
  executable_fields lib end = end
  executable_fields lib (field k v m) = field k (executable_value lib v) (executable_fields lib m)

-- The number of a `json.Number`: an `int64`, or else a float, or else its text.
number_value : StructuredLibrary → Text → Value
number_value lib t = elim (parse_int t) [
  | some i ↦ int i
  | none ↦ elim (lib.parse_float t) [ some f ↦ float f | none ↦ str t ]
]

library_value : StructuredLibrary → ℕ → Value
unfolding number_value
library_value lib i = elim (lib.number_text i) [
  | some t ↦ number_value lib t
  | none ↦ elim (lib.time_text i) [ some t ↦ str t | none ↦ other i ]
]

arr_of : Option Items → Option Value
arr_of none = none
arr_of (some vs) = some (arr vs)

obj_of : Option Fields → Option Value
obj_of none = none
obj_of (some m) = some (obj m)

cons_of : Option Value → Option Items → Option Items
cons_of none rest = none
cons_of (some v) none = none
cons_of (some v) (some vs) = some (cons v vs)

field_of : Text → Option Value → Option Fields → Option Fields
field_of k none rest = none
field_of k (some v) none = none
field_of k (some v) (some m) = if has_byte 0 k then none else some (field k v m)

-- `normalizeStructuredValue`; `none` is the error of a null byte
unfoldable mutual
  unfolding library_value arr_of obj_of cons_of field_of

  pub structured_value : StructuredLibrary → Value → Option Value
  structured_value lib (other i) = some (library_value lib i)
  structured_value lib (str s) = if has_byte 0 s then none else some (str s)
  structured_value lib (arr vs) = arr_of (structured_items lib vs)
  structured_value lib (obj m) = obj_of (structured_fields lib m)
  structured_value lib v = some v

  pub structured_items : StructuredLibrary → Items → Option Items
  structured_items lib nil = some nil
  structured_items lib (cons v vs) = cons_of (structured_value lib v) (structured_items lib vs)

  pub structured_fields : StructuredLibrary → Fields → Option Fields
  structured_fields lib end = some end
  structured_fields lib (field k v m) =
      field_of k (structured_value lib v) (structured_fields lib m)

external_fact_of : Text → Value → ResolvedFact
external_fact_of name value = record {
  name = name;
  value = value;
  user_query = [];
  type = external;
  file = [];
}

-- The loop of `externalFactsFromMap`; `none` is the error of a null byte
unfoldable pub facts_at :
    Unicode → StructuredLibrary → Fields → List Text → Option (List ResolvedFact)
unfolding external_fact_of
facts_at u lib values [] = some []
facts_at u lib values (key ∷ names) =
    let rest = facts_at u lib values names in
    elim (lookup key values) [
      | none ↦ rest
      | some v ↦ if has_byte 0 (u.to_lower key) then none else elim (structured_value lib v) [
        | none ↦ none
        | some w ↦ elim rest [
          | none ↦ none
          | some facts ↦ some (external_fact_of (u.to_lower key) w ∷ facts)
        ]
      ]
    ]

-- `externalFactsFromMap`
unfoldable pub external_facts_from_map :
    Unicode → StructuredLibrary → Fields → Option (List ResolvedFact)
unfolding facts_at sort_texts
external_facts_from_map u lib values = facts_at u lib values (sort_texts (keys values))

-- `externalYAMLFactsFromMap`
unfoldable pub external_yaml_facts_from_map :
    Unicode → StructuredLibrary → Fields → Option (List ResolvedFact)
unfolding external_facts_from_map
external_yaml_facts_from_map u lib values =
    external_facts_from_map u lib (yaml_symbol_fields end values)

-- `externalExecutableYAMLFactsFromMap`
unfoldable pub external_executable_yaml_facts_from_map :
    Unicode → StructuredLibrary → Fields → Option (List ResolvedFact)
unfolding external_facts_from_map
external_executable_yaml_facts_from_map u lib values =
    external_facts_from_map u lib (executable_fields lib (yaml_symbol_fields end values))
