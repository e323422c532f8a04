-- ===== src/Projection/Lookup.antt =====
-- `LookupValue` and `MissingQueries` of internal/engine/projection.go against the facts and the tree.
use facts.Base.{
  ℕ, Bool, false, not, ◌&&◌, ◌≡◌, inl, inr, refl, ap, ◌∙◌, List, [], ◌∷◌, ◌++◌, none, arith, is_nil,
  All, map, Option-cases, append_assoc, keep,
}
use facts.Base.Text.{Text, text, text_eq, drop_prefix, drop_prefix-append, contains}
use facts.Base.Text.Split.{split, split-append_all}
use facts.Value.{obj, Fields, is_null}
use facts.Fact.{
  ResolvedFact, dot, dig_value, value_for_query, query_value, or_null, is_operator_type,
}
use facts.Projection.{
  Projection, collection, fact_matches_query, find_fact_in, lookup_value, new_projection_with_tree,
  select_facts, missing_queries,
}
use facts.Projection.Select.{
  find_fact_in_last, dot-prefix, not_nil, find_fact_in_tree, fact_matches_query_iff,
}

pub longer : (name s : Text) (c : ℕ) → text_eq (name ++ (c ∷ s)) name ≡ false
unfolding text_eq
longer [] s c = refl
longer (x ∷ name) s c = ground (arith, longer name s c)

append_drop : (name s : Text) → drop_prefix (name ++ (dot ∷ s)) (name ++ (dot ∷ [])) ≡ s
append_drop name s =
    rw (append_assoc name (dot ∷ []) s) at (drop_prefix-append (name ++ (dot ∷ [])) s)

not_nil_text : (name s : Text) (c : ℕ) → is_nil (name ++ (c ∷ s)) ≡ false
not_nil_text [] s c = refl
not_nil_text (x ∷ name) s c = refl

-- A query below a fact digs into the fact's value by the parts behind its name.
pub value_for_query_below :
    (fact : ResolvedFact) (s : Text)
    → value_for_query (record fact { user_query = fact.name ++ (dot ∷ s) })
      ≡ dig_value fact.value (split dot s)
unfolding value_for_query
value_for_query_below fact s =
    rw
      (
        not_nil_text fact.name s dot,
        longer fact.name s dot,
        dot-prefix fact.name s,
        append_drop fact.name s,
      )
      refl

nil_fact_found :
    (fact : ResolvedFact)
    → value_for_query fact ≡ none
    → (is_operator_type fact.type && is_null fact.value && text_eq fact.user_query fact.name)
      ≡ false
unfolding value_for_query
nil_fact_found fact h = ground arith

-- The second test of `LookupValue` never decides: what `valueForQuery` finds is found.
pub lookup_value_lem :
    (to_lower : Text → Text) (p : Projection) (query : Text)
    → (lookup_value to_lower p query).0
      ≡ value_for_query (find_fact_in to_lower (collection p).1.facts (collection p).0 query)
unfolding lookup_value
lookup_value_lem to_lower p query =
    let fact = find_fact_in to_lower (collection p).1.facts (collection p).0 query in
    elim (Option-cases (value_for_query fact)) [
      | inl e ↦ rw (e, nil_fact_found fact e, lookup_value) refl
      | inr (v, e) ↦ rw (e, lookup_value) refl
    ]

module _ (to_lower : Text → Text) (dotted : Bool) (root : Fields) (q : Text) where
  -- A lookup by a query below a fact's name, which is no pattern, gives what the fact's value holds
  -- at the parts behind the name, in a projection that has its tree, where no later fact matches
  -- the query.
  pub lookup_value-below :
      (before after : List ResolvedFact) (fact : ResolvedFact) (s : Text)
      → to_lower q ≡ fact.name ++ (dot ∷ s)
      → contains fact.name (text ".*") ≡ false
      → All (λ later. fact_matches_query later.name (to_lower q) ≡ false) after
      → (lookup_value to_lower (new_projection_with_tree (before ++ fact ∷ after) dotted root) q).0
        ≡ dig_value fact.value (split dot s)
  lookup_value-below before after fact s e h a =
      lookup_value_lem to_lower _ q
      ∙ unfold collection in
        ap value_for_query (
          find_fact_in_last to_lower root q before after fact
            ((fact_matches_query_iff fact.name (to_lower q) h).1
              (split dot s, ap (split dot) e ∙ split-append_all dot fact.name s))
            a)
        ∙ ap (λ t. value_for_query (record fact { user_query = t })) e
        ∙ value_for_query_below fact s

  -- Where no fact matches, a lookup gives what the tree holds at the parts of the query, but for nil,
  -- in a projection that has its tree.
  pub lookup_value-tree :
      (facts : List ResolvedFact)
      → All (λ fact. fact_matches_query fact.name (to_lower q) ≡ false) facts
      → (lookup_value to_lower (new_projection_with_tree facts dotted root) q).0
        ≡ not_nil (dig_value (obj root) (split dot (to_lower q)))
  lookup_value-tree facts a =
      lookup_value_lem to_lower _ q ∙ unfold collection in find_fact_in_tree to_lower root q facts a

user_query-find_fact_in :
    (to_lower : Text → Text) (facts : List ResolvedFact) (root : Fields) (q : Text)
    → (find_fact_in to_lower facts root q).user_query ≡ to_lower q
unfolding find_fact_in
user_query-find_fact_in to_lower facts root q = ground arith

abbrev pub is_missing : (Text → Text) → Projection → Text → Bool
is_missing to_lower p q =
    not (is_nil (to_lower q)) && is_null (or_null (lookup_value to_lower p q).0)

missing-map :
    (to_lower : Text → Text) (p : Projection) (queries : List Text)
    → missing_queries (map (find_fact_in to_lower (collection p).1.facts (collection p).0) queries)
      ≡ map to_lower (keep (is_missing to_lower p) queries)
unfolding missing_queries query_value
missing-map to_lower p [] = refl
missing-map to_lower p (q ∷ queries) = ground (
  arith,
  missing-map to_lower p queries,
  lookup_value_lem to_lower p q,
  user_query-find_fact_in to_lower (collection p).1.facts (collection p).0 q,
)

-- The queries that strict mode reports among the selected facts are those, lowered and in order,
-- that are not empty and that a lookup answers with nothing or with nil.
pub missing_queries-select_facts :
    (to_lower : Text → Text) (p : Projection) (q : Text) (queries : List Text)
    → missing_queries (select_facts to_lower p (q ∷ queries)).0
      ≡ map to_lower (keep (is_missing to_lower p) (q ∷ queries))
unfolding select_facts
missing_queries-select_facts to_lower p q queries = missing-map to_lower p (q ∷ queries)
