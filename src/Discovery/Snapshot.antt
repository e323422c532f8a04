-- ===== src/Discovery/Snapshot.antt =====
-- internal/engine/snapshot.go: the result of a discovery, and the checks of the values that a library
-- consumer registers; internal/engine/engine.go: the check of the registered names. A copy of a value
-- is the value, and `fmt` and `reflect` values that are not maps, slices or strings are `other`.
use facts.Base.{Bool, false, ◌||◌, List, [], ◌∷◌, Option, none, some, any, is_nil, if◌then◌else◌}
use facts.Base.Text.{Text, has_byte}
use facts.Base.Text.Order.{sort_texts}
use facts.Base.Text.Unicode.{Unicode}
use facts.Value.{
  AnyKey, str_key, other_key, Value, str, arr, strs, obj, any_map, Items, nil, cons, Fields, end,
  field, Entries, done, entry, lookup, keys,
}
use facts.Fact.{ResolvedFact}
use facts.Fact.Collect.{Collected, collect_facts, facts_after}
use facts.Projection.{Projection, new_projection, new_projection_with_tree, lookup_value}

pub record Snapshot : Type 0 where
  pub facts : List ResolvedFact
  pub tree : Fields
  pub projection : Projection

of_collected : Collected → Snapshot
of_collected c = record {
  facts = facts_after c;
  tree = c.root;
  projection = new_projection_with_tree (facts_after c) false c.root;
}

-- `newSnapshot`
unfoldable pub new_snapshot : List ResolvedFact → Snapshot
unfolding of_collected
new_snapshot facts = of_collected (collect_facts facts false)

-- `Snapshot.Value`; `none` is the error
unfoldable pub value : (Text → Text) → Snapshot → Text → Option Value
value to_lower sn query = (lookup_value to_lower sn.projection query).0

-- `Snapshot.Tree`
abbrev pub tree_of : Snapshot → Fields
tree_of sn = sn.tree

entries_at : Fields → List Text → List (Text × Value)
entries_at tree [] = []
entries_at tree (name ∷ names) =
    let rest = entries_at tree names in
    elim (lookup name tree) [ some v ↦ (name, v) ∷ rest | none ↦ rest ]

-- `Snapshot.All`, iterated to its end
unfoldable pub all_entries : Snapshot → List (Text × Value)
unfolding entries_at sort_texts
all_entries sn = entries_at sn.tree (sort_texts (keys sn.tree))

-- `Snapshot.OutputProjection`
abbrev pub output_projection : Snapshot → Bool → Projection
output_projection sn include_typed_dotted = new_projection sn.facts include_typed_dotted

abbrev null_key : AnyKey → Bool
null_key (str_key k) = has_byte 0 k
null_key (other_key i k) = false

-- `customValueContainsNullByte` and `customValueReflectContainsNullByte`
unfoldable mutual
  pub contains_null_byte : Value → Bool
  contains_null_byte (str s) = has_byte 0 s
  contains_null_byte (arr vs) = items_contain_null_byte vs
  contains_null_byte (strs ss) = any (has_byte 0) ss
  contains_null_byte (obj m) = fields_contain_null_byte m
  contains_null_byte (any_map m) = entries_contain_null_byte m
  contains_null_byte _ = false

  pub items_contain_null_byte : Items → Bool
  items_contain_null_byte nil = false
  items_contain_null_byte (cons v vs) = contains_null_byte v || items_contain_null_byte vs

  pub fields_contain_null_byte : Fields → Bool
  fields_contain_null_byte end = false
  fields_contain_null_byte (field k v m) =
      has_byte 0 k || contains_null_byte v || fields_contain_null_byte m

  pub entries_contain_null_byte : Entries → Bool
  entries_contain_null_byte done = false
  entries_contain_null_byte (entry k v m) =
      null_key k || contains_null_byte v || entries_contain_null_byte m

-- What `NewEngine` makes of the names of the registered facts: their lowered forms, or no engine.
unfoldable pub registered_names : Unicode → List Text → Option (List Text)
registered_names u [] = some []
registered_names u (name ∷ names) = elim (registered_names u names) [
  | none ↦ none
  | some rest ↦ if is_nil name || has_byte 0 name then none else some (u.to_lower name ∷ rest)
]
