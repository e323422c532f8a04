-- ===== src/Fact/Collect/Laws.antt =====
-- One round of the loop of `collectFacts` of internal/engine/fact.go.
use facts.Base.{
  Bool, true, false, not, ◌&&◌, ◌≡◌, ◌⊎◌, inl, inr, refl, [], ◌∷◌, ◌++◌, none, arith, is_nil, ltb,
  length, is_some, Bool-cases,
}
use facts.Base.Text.{Text, has_byte}
use facts.Base.Text.Split.{split, split-no_sep}
use facts.Value.{Fields, lookup, put, is_null}
use facts.Fact.{ResolvedFact, insert, dot}
use facts.Fact.Collect.{Collected, head_part, collect_insert, collect_fact}

-- What one fact does to the tree.
pub data Change (root : Fields) (fact : ResolvedFact) : Fields → Type 0 where
  same : Change root fact root
  inserted : Change root fact (insert root (split dot fact.name) fact.value).0
  flat : has_byte dot fact.name ≡ true → Change root fact (put fact.name fact.value root)

split_many : (s : Text) → ltb 1 (length (split dot s)) ≡ true → has_byte dot s ≡ true
split_many s h = elim (Bool-cases (has_byte dot s)) [
  | inl e ↦ e
  | inr e ↦ absurd (ground (arith, split-no_sep dot s e))
]

collect_insert-Change :
    (c : Collected) (fact : ResolvedFact)
    → Change c.root fact (collect_insert c fact (split dot fact.name)).root
unfolding collect_insert
collect_insert-Change c fact =
    elim (Bool-cases (insert c.root (split dot fact.name) fact.value).1) [
      | inl e ↦ rw (e, collect_insert) inserted
      | inr e ↦ rw (e, collect_insert) inserted
    ]

abbrev pub sets_aside : Bool → ResolvedFact → Bool
sets_aside dotted fact =
    ltb 1 (length (split dot fact.name)) && not (is_nil fact.type) && not dotted

module _ (dotted : Bool) (c : Collected) (fact : ResolvedFact) where
  collect_fact-null :
      is_null fact.value ≡ true
      → collect_fact dotted c fact ≡ record c { places = c.places ++ (fact, none) ∷ [] }
  unfolding collect_fact
  collect_fact-null e = rw (e, collect_fact) refl

  collect_fact-flat :
      is_null fact.value ≡ false
      → sets_aside dotted fact ≡ true
      → is_some (lookup (head_part (split dot fact.name)) c.root) ≡ false
      → collect_fact dotted c fact ≡ record {
        root = put fact.name fact.value c.root;
        collisions = c.collisions;
        places = c.places ++ (fact, none) ∷ [];
      }
  unfolding collect_fact
  collect_fact-flat e d l = ground arith

  pub collect_fact-insert :
      is_null fact.value ≡ false
      → sets_aside dotted fact ≡ false
        ⊎ (is_some (lookup (head_part (split dot fact.name)) c.root) ≡ true)
      → collect_fact dotted c fact ≡ collect_insert c fact (split dot fact.name)
  unfolding collect_fact
  collect_fact-insert e (inl d) = rw (e, d, collect_fact) refl
  collect_fact-insert e (inr l) = elim (Bool-cases (sets_aside dotted fact)) [
    | inl d ↦ rw (e, d, l, collect_fact) refl
    | inr d ↦ rw (e, d, collect_fact) refl
  ]

  pub collect_fact-Change : Change c.root fact (collect_fact dotted c fact).root
  collect_fact-Change = elim (Bool-cases (is_null fact.value)) [
    | inl e ↦ rw (collect_fact-null e) same
    | inr e ↦ elim (Bool-cases (sets_aside dotted fact)) [
      | inr d ↦ rw (collect_fact-insert e (inl d)) (collect_insert-Change c fact)
      | inl d ↦ elim (Bool-cases (is_some (lookup (head_part (split dot fact.name)) c.root))) [
        | inl l ↦ rw (collect_fact-insert e (inr l)) (collect_insert-Change c fact)
        | inr l ↦ rw (collect_fact-flat e d l) (flat (split_many fact.name (ground arith)))
      ]
    ]
  ]
