-- ===== src/Projection.antt =====
-- internal/engine/projection.go: selection of facts by queries, and the shapes of the output.
pub mod Glob
pub mod Select
pub mod Lookup
pub mod Shapes
mod Tests
use facts.Base.{
  ℕ, Bool, true, false, not, ◌&&◌, ◌||◌, List, [], ◌∷◌, ◌++◌, Option, none, some, map, is_nil,
  if◌then◌else◌,
}
use facts.Base.Text.{Text, text, text_eq, has_prefix, contains, has_byte, mem_text}
use facts.Base.Text.Split.{split}
use facts.Value.{Value, null, obj, Fields, end, put, is_null}
use facts.Fact.{ResolvedFact, dot, dig_value, value_for_query, query_value, is_operator_type}
use facts.Fact.Collect.{Collected, collect_facts, facts_after}
use Glob.{glob, glob_match}

pub record Projection : Type 0 where
  pub facts : List ResolvedFact
  pub include_typed_dotted : Bool
  -- the memoized tree, once it is set
  pub tree : Option Fields

-- `NewProjection`
abbrev pub new_projection : List ResolvedFact → Bool → Projection
new_projection facts dotted = record { facts = facts; include_typed_dotted = dotted; tree = none }

-- `newProjectionWithTree`
abbrev pub new_projection_with_tree : List ResolvedFact → Bool → Fields → Projection
new_projection_with_tree facts dotted root = record {
  facts = facts;
  include_typed_dotted = dotted;
  tree = some root;
}

collected : Projection → Collected → Fields × Projection
collected p c = (c.root, record p { facts = facts_after c; tree = some c.root })

-- `Projection.Collection`: the tree, and the projection that remembers it
unfoldable pub collection : Projection → Fields × Projection
unfolding collected
collection p = elim p.tree [
  | some root ↦ (root, p)
  | none ↦ collected p (collect_facts p.facts p.include_typed_dotted)
]

-- `factMatchesQuery`
unfoldable pub fact_matches_query : Text → Text → Bool
fact_matches_query fact_name query =
    if contains fact_name (text ".*") && not (contains query (text "."))
    then glob_match (glob fact_name) query
    else text_eq query fact_name || has_prefix query (fact_name ++ (dot ∷ []))

-- The loop of `findFactIn`, from the last fact to the first.
unfoldable pub last_match : Text → List ResolvedFact → Option ResolvedFact
last_match query [] = none
last_match query (fact ∷ facts) = elim (last_match query facts) [
  | some found ↦ some found
  | none ↦ if fact_matches_query fact.name query then some fact else none
]

-- The facts that `findFactIn` makes up, from the tree or for a query with no value.
pub tree_fact : Text → Option Value → ResolvedFact
tree_fact query (some value) = record {
  name = query;
  value = value;
  user_query = query;
  type = [];
  file = [];
}
tree_fact query none = record {
  name = query;
  value = null;
  user_query = query;
  type = text "nil";
  file = [];
}

unfoldable pub find_fact_in : (Text → Text) → List ResolvedFact → Fields → Text → ResolvedFact
unfolding last_match tree_fact
find_fact_in to_lower facts root q =
    let query = to_lower q in
    elim (last_match query facts) [
      | some fact ↦ record fact { user_query = query }
      | none ↦ tree_fact query (dig_value (obj root) (split dot query))
    ]

-- `selectFacts`
unfoldable pub select_facts :
    (Text → Text) → Projection → List Text → List ResolvedFact × Projection
unfolding find_fact_in collection
select_facts to_lower p [] = (p.facts, p)
select_facts to_lower p (q ∷ queries) =
    let (root, p') = collection p in (map (find_fact_in to_lower p'.facts root) (q ∷ queries), p')

-- `LookupValue`; `none` is "not found"
unfoldable pub lookup_value : (Text → Text) → Projection → Text → Option Value × Projection
unfolding find_fact_in collection
lookup_value to_lower p query =
    let (root, p') = collection p in
    let fact = find_fact_in to_lower p'.facts root query in
    let nil_fact =
      is_operator_type fact.type && is_null fact.value && text_eq fact.user_query fact.name in
    let found : Option Value = elim (value_for_query fact) [
      | some v ↦ some v
      | none ↦ if nil_fact then some null else none
    ] in
    (found, p')

-- `MissingQueries`
unfoldable pub missing_queries : List ResolvedFact → List Text
missing_queries [] = []
missing_queries (fact ∷ facts) =
    let rest = missing_queries facts in
    if not (is_nil fact.user_query) && is_null (query_value fact)
    then fact.user_query ∷ rest
    else rest

-- `PresentationNames`
unfoldable pub presentation_names : List ResolvedFact → List Text
presentation_names = map (λ fact. if is_nil fact.user_query then fact.name else fact.user_query)

pub data OutputShape : Type 0 where
  full_tree single_query multi_query empty : OutputShape

-- `uniqueQueries`, with the queries seen so far
unfoldable pub unique_from : List Text → List ResolvedFact → List Text
unique_from seen [] = []
unique_from seen (fact ∷ facts) = elim (mem_text fact.user_query seen) [
  | true ↦ unique_from seen facts
  | false ↦ fact.user_query ∷ unique_from (fact.user_query ∷ seen) facts
]

unfoldable pub unique_queries : List ResolvedFact → List Text
unfolding unique_from
unique_queries facts = unique_from [] facts

shape_of : List Text → OutputShape
shape_of [] = empty
shape_of ([] ∷ []) = full_tree
shape_of ((c ∷ q) ∷ []) = single_query
shape_of (q ∷ r ∷ queries) = multi_query

-- `Shape`
unfoldable pub shape : List ResolvedFact → OutputShape
unfolding unique_queries shape_of
shape facts = shape_of (unique_queries facts)

-- `factsForQueries`, which `MultiQueryValues` returns
unfoldable pub facts_for_queries : Fields → List ResolvedFact → Fields
facts_for_queries values [] = values
facts_for_queries values (fact ∷ facts) =
    facts_for_queries (put fact.user_query (query_value fact) values) facts
