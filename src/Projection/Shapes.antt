-- ===== src/Projection/Shapes.antt =====
-- `Shape` and `factsForQueries` of internal/engine/projection.go against the queries of the facts.
use facts.Base.{
  Bool, ◌≡◌, refl, ◌∙◌, List, [], ◌∷◌, Option, none, some, arith, is_nil, if◌then◌else◌, all,
}
use facts.Base.Text.{Text, text_eq, text_eq_comm, mem_text}
use facts.Value.{Fields, lookup, put}
use facts.Value.Laws.{lookup-put}
use facts.Fact.{ResolvedFact, query_value}
use facts.Projection.{unique_from, facts_for_queries, shape, full_tree, single_query, multi_query}

abbrev pub bears : Text → ResolvedFact → Bool
bears q fact = text_eq fact.user_query q

is_nil-unique_from :
    (q : Text) (facts : List ResolvedFact)
    → is_nil (unique_from (q ∷ []) facts) ≡ all (bears q) facts
unfolding unique_from mem_text
is_nil-unique_from q [] = refl
is_nil-unique_from q (fact ∷ facts) =
    ground (arith, is_nil-unique_from q facts, text_eq_comm q fact.user_query)

-- Where there are facts, the output is a bare value, or the full tree, exactly if all the facts bear one query; which of
-- the two, the query being empty decides. With several queries it is a query map.
pub shape_lem :
    (fact : ResolvedFact) (facts : List ResolvedFact)
    → shape (fact ∷ facts) ≡ (
        if all (bears fact.user_query) facts
        then (if is_nil fact.user_query then full_tree else single_query)
        else multi_query)
unfolding shape mem_text
shape_lem fact facts = ground (arith, is_nil-unique_from fact.user_query facts)

-- The last fact that bears a query.
unfoldable pub last_bearing : Text → List ResolvedFact → Option ResolvedFact
last_bearing q [] = none
last_bearing q (fact ∷ facts) = elim (last_bearing q facts) [
  | some found ↦ some found
  | none ↦ if bears q fact then some fact else none
]

-- The query map holds, under each query, the value of the last fact that bears it.
pub lookup-facts_for_queries :
    (q : Text) (values : Fields) (facts : List ResolvedFact)
    → lookup q (facts_for_queries values facts) ≡ (elim (last_bearing q facts) [
      | some fact ↦ some (query_value fact)
      | none ↦ lookup q values
    ])
unfolding facts_for_queries last_bearing
lookup-facts_for_queries q values [] = refl
lookup-facts_for_queries q values (fact ∷ facts) =
    lookup-facts_for_queries q (put fact.user_query (query_value fact) values) facts
    ∙ ground (arith, lookup-put fact.user_query q (query_value fact) values)
