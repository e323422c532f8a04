-- ===== src/Projection/Select.antt =====
-- `factMatchesQuery` and `findFactIn` of internal/engine/projection.go, by the parts of names.
use facts.Base.{
  ℕ, true, false, ◌||◌, ◌≡◌, ◌≢◌, ◌↔◌, inl, inr, refl, sym, ap, ◌∙◌, List, [], ◌∷◌, ◌++◌, Option,
  none, some, arith, All, Bool-cases, if◌then◌else◌, append_assoc, append-nil,
}
use facts.Base.Text.{
  Text, text, text_eq, text_eq_iff, text_eq_self, has_prefix, drop_prefix, append-drop_prefix,
  has_prefix-append, contains,
}
use facts.Base.Text.Split.{split, join, join-split, split-append_all, split-ne-nil}
use facts.Value.{Value, obj, Fields, is_null}
use facts.Fact.{ResolvedFact, dot, dig_value, value_for_query, is_operator_type}
use facts.Projection.{tree_fact, fact_matches_query, last_match, find_fact_in}

join-append :
    (sep : ℕ) (ps qs : List Text)
    → ps ≢ []
    → qs ≢ []
    → join sep (ps ++ qs) ≡ join sep ps ++ (sep ∷ join sep qs)
unfolding join
join-append sep [] qs h g = absurd (h refl)
join-append sep (p ∷ []) [] h g = absurd (g refl)
join-append sep (p ∷ []) (q ∷ qs) h g = refl
join-append sep (p ∷ r ∷ ps) qs h g =
    rw (join-append sep (r ∷ ps) qs (λ e. cc) g)
      (sym (append_assoc p (sep ∷ join sep (r ∷ ps)) (sep ∷ join sep qs)))

-- A query below a name, by the parts of both.
pub split_below :
    (name query : Text) (r : Text) (rest : List Text)
    → split dot query ≡ split dot name ++ (r ∷ rest)
    → query ≡ name ++ (dot ∷ join dot (r ∷ rest))
split_below name query r rest h =
    sym (join-split dot query)
    ∙ ap (join dot) h
    ∙ join-append dot (split dot name) (r ∷ rest) (split-ne-nil dot name) (λ e. cc)
    ∙ ap (λ n. n ++ (dot ∷ join dot (r ∷ rest))) (join-split dot name)

pub prefix-split :
    (name query : Text)
    → has_prefix query (name ++ (dot ∷ [])) ≡ true
    → (s : Text) × (query ≡ name ++ (dot ∷ s))
prefix-split name query h =
    let s = drop_prefix query (name ++ (dot ∷ [])) in
    (s, sym (append-drop_prefix query (name ++ (dot ∷ [])) h) ∙ append_assoc name (dot ∷ []) s)

pub dot-prefix : (name s : Text) → has_prefix (name ++ (dot ∷ s)) (name ++ (dot ∷ [])) ≡ true
dot-prefix name s =
    rw (append_assoc name (dot ∷ []) s) at (has_prefix-append (name ++ (dot ∷ [])) s)

matches-split :
    (name query : Text) (rest : List Text)
    → contains name (text ".*") ≡ false
    → split dot query ≡ split dot name ++ rest
    → fact_matches_query name query ≡ true
unfolding fact_matches_query
matches-split name query [] h e =
    let same : query ≡ name =
      sym (join-split dot query)
      ∙ ap (join dot) (e ∙ append-nil (split dot name))
      ∙ join-split dot name in
    ground (arith, text_eq_iff query name)
matches-split name query (r ∷ rest) h e =
    ground (arith, split_below name query r rest e, dot-prefix name (join dot (r ∷ rest)))

split-matches :
    (name query : Text)
    → contains name (text ".*") ≡ false
    → fact_matches_query name query ≡ true
    → (rest : List Text) × (split dot query ≡ split dot name ++ rest)
split-matches name query h m = elim (Bool-cases (text_eq query name)) [
  | inl e ↦ ([], ap (split dot) ((text_eq_iff query name).0 e) ∙ sym (append-nil (split dot name)))
  | inr e ↦
      let (s, f) = prefix-split name query (unfold fact_matches_query in ground arith) in
      (split dot s, ap (split dot) f ∙ split-append_all dot name s)
]

-- A fact whose name is no pattern matches exactly the queries whose parts begin with its own.
pub fact_matches_query_iff :
    (name query : Text)
    → contains name (text ".*") ≡ false
    → (fact_matches_query name query ≡ true)
      ↔ ((rest : List Text) × (split dot query ≡ split dot name ++ rest))
fact_matches_query_iff name query h =
    (split-matches name query h, λ m. matches-split name query m.0 h m.1)

last_match-none :
    (query : Text) (facts : List ResolvedFact)
    → All (λ fact. fact_matches_query fact.name query ≡ false) facts
    → last_match query facts ≡ none
unfolding last_match
last_match-none query [] a = refl
last_match-none query (fact ∷ facts) a = ground (arith, last_match-none query facts a.1)

last_match-append :
    (query : Text) (before after : List ResolvedFact) (fact : ResolvedFact)
    → fact_matches_query fact.name query ≡ true
    → All (λ later. fact_matches_query later.name query ≡ false) after
    → last_match query (before ++ fact ∷ after) ≡ some fact
unfolding last_match
last_match-append query [] after fact h a = ground (arith, last_match-none query after a)
last_match-append query (g ∷ before) after fact h a =
    ground (arith, last_match-append query before after fact h a)

abbrev pub not_nil : Option Value → Option Value
not_nil none = none
not_nil (some v) = if is_null v then none else some v

no_operator_type : is_operator_type (text "nil") || is_operator_type [] ≡ false
unfolding text_eq
no_operator_type = refl

value_for_query-tree_fact :
    (query : Text) (o : Option Value) → value_for_query (tree_fact query o) ≡ not_nil o
unfolding value_for_query tree_fact
value_for_query-tree_fact query none = ground (arith, text_eq_self query, no_operator_type)
value_for_query-tree_fact query (some v) = ground (arith, text_eq_self query, no_operator_type)

module _ (to_lower : Text → Text) (root : Fields) (q : Text) where
  -- The last fact that matches wins, and bears the lowered query.
  pub find_fact_in_last :
      (before after : List ResolvedFact) (fact : ResolvedFact)
      → fact_matches_query fact.name (to_lower q) ≡ true
      → All (λ later. fact_matches_query later.name (to_lower q) ≡ false) after
      → find_fact_in to_lower (before ++ fact ∷ after) root q
        ≡ record fact { user_query = to_lower q }
  unfolding find_fact_in
  find_fact_in_last before after fact h a =
      rw (last_match-append (to_lower q) before after fact h a, find_fact_in) refl

  -- With no such fact the tree is asked; a nil there counts as not found.
  pub find_fact_in_tree :
      (facts : List ResolvedFact)
      → All (λ fact. fact_matches_query fact.name (to_lower q) ≡ false) facts
      → value_for_query (find_fact_in to_lower facts root q)
        ≡ not_nil (dig_value (obj root) (split dot (to_lower q)))
  unfolding find_fact_in
  find_fact_in_tree facts a =
      rw (last_match-none (to_lower q) facts a, find_fact_in)
        (value_for_query-tree_fact (to_lower q) (dig_value (obj root) (split dot (to_lower q))))
