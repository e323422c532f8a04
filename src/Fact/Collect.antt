-- ===== src/Fact/Collect.antt =====
-- `collectFacts` of internal/engine/fact.go. A fact's map is put into the tree by reference, so
-- that what a later fact adds to it shows in the earlier fact's value too: the places of the facts
-- are kept, and `written_back` reads the values as they are when the collection is done. A fact
-- that is put under its dotted name has no place: no insertion goes through such a key. Distinct
-- facts hold distinct maps, as after `cloneFacts`.
pub mod Laws
pub mod Survive
use facts.Base.{
  Bool, true, false, not, ◌&&◌, List, [], ◌∷◌, ◌++◌, Option, none, some, map, length, ltb, is_nil,
  is_some, if◌then◌else◌,
}
use facts.Base.Text.{Text}
use facts.Base.Text.Split.{split}
use facts.Value.{Value, obj, Fields, end, lookup, put, is_obj, is_null}
use facts.Fact.{ResolvedFact, insert, dig_value, dot}

pub record Collected : Type 0 where
  pub root : Fields
  pub collisions : List ResolvedFact
  pub places : List (ResolvedFact × Option (List Text))

abbrev pub head_part : List Text → Text
head_part [] = []
head_part (p ∷ ps) = p

-- `insert` and the report of a collision
unfoldable pub collect_insert : Collected → ResolvedFact → List Text → Collected
collect_insert c fact parts =
    let (root', stored) = insert c.root parts fact.value in
    if stored
    then record {
      root = root';
      collisions = c.collisions;
      places = c.places ++ (fact, some parts) ∷ [];
    }
    else record {
      root = root';
      collisions = c.collisions ++ fact ∷ [];
      places = c.places ++ (fact, none) ∷ [];
    }

-- One round of the loop.
unfoldable pub collect_fact : Bool → Collected → ResolvedFact → Collected
unfolding collect_insert
collect_fact include_typed_dotted c fact =
    if is_null fact.value
    then record c { places = c.places ++ (fact, none) ∷ [] }
    else let parts = split dot fact.name in
      if ltb 1 (length parts) && not (is_nil fact.type) && not include_typed_dotted
      then (if is_some (lookup (head_part parts) c.root)
          then collect_insert c fact parts
          else record {
            root = put fact.name fact.value c.root;
            collisions = c.collisions;
            places = c.places ++ (fact, none) ∷ [];
          })
      else collect_insert c fact parts

abbrev pub collect_none : Collected
collect_none = record { root = end; collisions = []; places = [] }

unfoldable pub collect_from : Bool → Collected → List ResolvedFact → Collected
unfolding collect_fact
collect_from include_typed_dotted c [] = c
collect_from include_typed_dotted c (fact ∷ facts) =
    collect_from include_typed_dotted (collect_fact include_typed_dotted c fact) facts

-- `collectFacts`: the tree and the collisions
unfoldable pub collect_facts : List ResolvedFact → Bool → Collected
unfolding collect_from
collect_facts facts include_typed_dotted = collect_from include_typed_dotted collect_none facts

-- `CollectionWithDottedFacts`
unfoldable pub collection_with_dotted_facts : List ResolvedFact → Bool → Fields
unfolding collect_facts
collection_with_dotted_facts facts include_typed_dotted =
    (collect_facts facts include_typed_dotted).root

-- `Collection`
unfoldable pub collection : List ResolvedFact → Fields
unfolding collection_with_dotted_facts
collection facts = collection_with_dotted_facts facts false

abbrev or_value : Value → Option Value → Value
or_value v none = v
or_value v (some w) = w

-- A fact as it is read when `root` has been built: its map is the map in the tree.
unfoldable pub written_back : Fields → ResolvedFact × Option (List Text) → ResolvedFact
written_back root (fact, none) = fact
written_back root (fact, some path) =
    if is_obj fact.value
    then record fact { value = or_value fact.value (dig_value (obj root) path) }
    else fact

unfoldable pub facts_after : Collected → List ResolvedFact
unfolding written_back
facts_after c = map (written_back c.root) c.places
