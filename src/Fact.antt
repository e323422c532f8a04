-- ===== src/Fact.antt =====
-- internal/engine/fact.go: resolved facts, the structured tree that they build, and its queries.
pub mod Node
pub mod Insert
pub mod Conflict
pub mod Keep
pub mod Collect
mod Tests
use facts.Base.{
  ℕ, ◌+◌, Bool, true, false, not, ◌&&◌, ◌||◌, List, [], ◌∷◌, ◌++◌, Option, none, some, map, length,
  ltb, is_nil, get_elem?, is_some, if◌then◌else◌,
}
use facts.Base.Int.{ℤ, pos, negsuc}
use facts.Base.Text.{Text, text, text_eq, has_prefix, drop_prefix}
use facts.Base.Text.Split.{split}
use facts.Base.Text.Number.{parse_int}
use facts.Value.{
  AnyKey, str_key, other_key, Value, null, str, int, arr, strs, ints, obj, any_map, Fields, end,
  Entries, done, entry, item_at, lookup, put, is_obj, is_null,
}

pub record ResolvedFact : Type 0 where
  pub name : Text
  pub value : Value
  pub user_query : Text
  pub type : Text
  pub file : Text

abbrev pub dot : ℕ
dot = b'.'

abbrev pub custom : Text
custom = text "custom"

abbrev pub external : Text
external = text "external"

-- `insert`: the map after the call, which writes through nested maps, and the result.
unfoldable pub insert : Fields → List Text → Value → Fields × Bool
insert root [] value = (root, false)
insert root (k ∷ []) value = elim (lookup k root) [
  | some (obj _) ↦ (root, false)
  | _ ↦ (put k value root, true)
]
insert root (k ∷ j ∷ parts) value = elim (lookup k root) [
  | some (obj next) ↦
      let (next', stored) = insert next (j ∷ parts) value in (put k (obj next') root, stored)
  | none ↦ let (next', stored) = insert end (j ∷ parts) value in (put k (obj next') root, stored)
  | _ ↦ (root, false)
]

-- An index into a slice: what `strconv.Atoi` accepts and is not negative.
index : Text → Option ℕ
index part = elim (parse_int part) [ some (pos n) ↦ some n | _ ↦ none ]

-- `v[part]` on a `map[any]any`, or else the first key that prints as `part`.
any_lookup_str : Text → Entries → Option Value
any_lookup_str part done = none
any_lookup_str part (entry (str_key k) v m) =
    if text_eq k part then some v else any_lookup_str part m
any_lookup_str part (entry (other_key _ _) v m) = any_lookup_str part m

printed : AnyKey → Text
printed (str_key k) = k
printed (other_key _ t) = t

any_lookup_printed : Text → Entries → Option Value
any_lookup_printed part done = none
any_lookup_printed part (entry k v m) =
    if text_eq (printed k) part then some v else any_lookup_printed part m

any_lookup : Text → Entries → Option Value
any_lookup part m = elim (any_lookup_str part m) [
  | some v ↦ some v
  | none ↦ any_lookup_printed part m
]

-- The element of a typed slice, where no further part may follow.
last_elem : {A : Type 0} → (A → Value) → List A → Text → List Text → Option Value
last_elem wrap xs part rest = elim (index part) [
  | none ↦ none
  | some i ↦ elim (get_elem? xs i) [
    | none ↦ none
    | some x ↦ if is_nil rest then some (wrap x) else none
  ]
]

-- `digValue`; `none` is "not found".
unfoldable pub dig_value : Value → List Text → Option Value
unfolding index any_lookup any_lookup_str any_lookup_printed printed last_elem
dig_value value [] = some value
dig_value (obj m) (part ∷ parts) = elim (lookup part m) [
  | none ↦ none
  | some next ↦ dig_value next parts
]
dig_value (any_map m) (part ∷ parts) = elim (any_lookup part m) [
  | none ↦ none
  | some next ↦ dig_value next parts
]
dig_value (arr vs) (part ∷ parts) = elim (index part) [
  | none ↦ none
  | some i ↦ elim (item_at vs i) [ none ↦ none | some next ↦ dig_value next parts ]
]
dig_value (strs ss) (part ∷ parts) = last_elem str ss part parts
dig_value (ints ns) (part ∷ parts) = last_elem int ns part parts
dig_value _ (part ∷ parts) = none

abbrev pub is_operator_type : Text → Bool
is_operator_type t = text_eq t custom || text_eq t external

-- `valueForQuery`; `none` is "not found".
unfoldable pub value_for_query : ResolvedFact → Option Value
unfolding dig_value
value_for_query fact =
    if is_nil fact.user_query || text_eq fact.user_query fact.name
    then (if is_null fact.value
        then (if is_operator_type fact.type then some null else none)
        else some fact.value)
    else if not (has_prefix fact.user_query (fact.name ++ (dot ∷ [])))
    then dig_value fact.value (split dot fact.user_query)
    else dig_value fact.value (split dot (drop_prefix fact.user_query (fact.name ++ (dot ∷ []))))

abbrev pub or_null : Option Value → Value
or_null none = null
or_null (some v) = v

-- `ValueForQuery`
unfoldable pub query_value : ResolvedFact → Value
unfolding value_for_query
query_value fact = or_null (value_for_query fact)
