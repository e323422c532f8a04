-- ===== src/Groups/Filter.antt =====
-- `FilterDisabledFacts` of internal/engine/groups.go against the disabled names.
use facts.Base.{
  ◌<◌, true, false, ◌||◌, ◌≡◌, ◌≢◌, inl, inr, refl, sym, ap, ◌∙◌, List, [], ◌∷◌, ◌++◌, none, some,
  arith, Option-cases, Bool-cases, if◌then◌else◌, length, length-append, All,
}
use facts.Base.Text.{
  Text, text_eq, text_eq_iff, text_eq_self, text_eq_comm, has_prefix, has_byte, mem_text,
}
use facts.Base.Text.Split.{cut, cut-eq_some, cut-eq_none, cut-append, cut-no_sep}
use facts.Fact.{ResolvedFact, dot}
use facts.Groups.{
  fact_hierarchy_covers, fact_hierarchy_match, filter_disabled_facts, filter_loop, root_name,
}
use facts.Projection.Select.{prefix-split}
use facts.Projection.Lookup.{longer}
use facts.Groups.Hierarchy.{fact_hierarchy_match-none, covers-cases, covers_self, covers_below}

has_prefix-shorter : (s p : Text) → length s < length p → has_prefix s p ≡ false
unfolding has_prefix
has_prefix-shorter s [] h = absurd (omega arith)
has_prefix-shorter [] (y ∷ p) h = refl
has_prefix-shorter (x ∷ s) (y ∷ p) h = ground (arith, has_prefix-shorter s p)

root-no_dot : (name : Text) → has_byte dot (root_name name) ≡ false
unfolding root_name
root-no_dot name = elim (Option-cases (cut dot name)) [
  | inl e ↦ rw (e, root_name) (cut-eq_none dot name e)
  | inr ((a, b), e) ↦ rw (e, root_name) (cut-eq_some dot name a b e).1
]

root_name-covered :
    (d name : Text)
    → has_byte dot d ≡ false
    → fact_hierarchy_covers d name ≡ true
    → root_name name ≡ d
unfolding root_name
root_name-covered d name n c = elim (covers-cases d name c) [
  | inl same ↦ rw (← same) (rw (cut-no_sep dot d n, root_name) refl)
  | inr below ↦
      let (s, e) = prefix-split d name below in rw e (rw (cut-append dot d s n, root_name) refl)
]

mem-false :
    (d t : Text) (disabled : List Text)
    → mem_text t disabled ≡ false
    → mem_text d disabled ≡ true
    → d ≢ t
mem-false d t disabled f m e = ground (arith)

filter_loop-clear :
    (disabled : List Text) (d : Text) (facts : List ResolvedFact)
    → mem_text d disabled ≡ true
    → has_byte dot d ≡ false
    → All (λ fact. fact_hierarchy_covers d fact.name ≡ false) (filter_loop disabled facts)
unfolding filter_loop
filter_loop-clear disabled d [] m n = tt
filter_loop-clear disabled d (fact ∷ facts) m n =
    let rest = filter_loop-clear disabled d facts m n in
    elim (Bool-cases (mem_text fact.name disabled || mem_text (root_name fact.name) disabled)) [
      | inl gone ↦ rw (gone, filter_loop) rest
      | inr kept ↦
          rw (kept, filter_loop)
            (
              elim (Bool-cases (fact_hierarchy_covers d fact.name)) [
                | inr c ↦ c
                | inl c ↦ absurd (
                    mem-false d (root_name fact.name) disabled (ground arith) m
                      (sym (root_name-covered d fact.name n c)))
              ],
              rest,
            )
    ]

-- A disabled name of one part takes away every fact that it covers.
pub filter_disabled_facts-clear :
    (disabled : List Text) (d : Text) (facts : List ResolvedFact)
    → mem_text d disabled ≡ true
    → has_byte dot d ≡ false
    → All (λ fact. fact_hierarchy_covers d fact.name ≡ false) (filter_disabled_facts facts disabled)
filter_disabled_facts-clear [] d facts m n = absurd (unfold mem_text in ground arith)
filter_disabled_facts-clear (e ∷ disabled) d facts m n =
    unfold filter_disabled_facts in filter_loop-clear (e ∷ disabled) d facts m n

root_apart :
    (parent name : Text) → has_byte dot parent ≡ true → text_eq parent (root_name name) ≡ false
root_apart parent name d = elim (Bool-cases (text_eq parent (root_name name))) [
  | inr f ↦ f
  | inl f ↦ absurd (ground (arith, text_eq_iff parent (root_name name), root-no_dot name))
]

-- A disabled name of several parts does not take away a dotted fact below it, though the lookup
-- along the ancestors of the fact's name, by which a query is diagnosed as disabled, finds it.
pub filter_misses_ancestor :
    (fact : ResolvedFact) (parent s : Text)
    → fact.name ≡ parent ++ (dot ∷ s)
    → has_byte dot parent ≡ true
    → (filter_disabled_facts (fact ∷ []) (parent ∷ []) ≡ fact ∷ [])
      × (fact_hierarchy_match fact.name (λ t. if text_eq t parent then some parent else none)
          ≢ none)
filter_misses_ancestor fact parent s e d =
    let apart : text_eq fact.name parent ≡ false = rw e (longer parent s dot) in
    let apart' : text_eq parent fact.name ≡ false = text_eq_comm parent fact.name ∙ apart in
    (
      unfold filter_disabled_facts mem_text fact_hierarchy_covers in
          ground (
            arith,
            apart,
            apart',
            root_apart parent fact.name d,
            has_prefix-shorter parent (fact.name ++ (dot ∷ [])) (
                omega (
                  arith,
                  ap length e,
                  length-append parent (dot ∷ s),
                  length-append fact.name (dot ∷ []),
                )),
          ),
      λ h. known_parent parent (
          fact_hierarchy_match-none (λ t. if text_eq t parent then some parent else none) fact.name
            parent h (covers_below' parent s e)),
    )
  where
    known_parent : (parent : Text) → (if text_eq parent parent then some parent else none) ≢ none
    known_parent parent h = ground (arith, text_eq_self parent)

    covers_below' :
        (parent s : Text)
        → fact.name ≡ parent ++ (dot ∷ s)
        → fact_hierarchy_covers parent fact.name ≡ true
    covers_below' parent s e = rw e (covers_below parent parent s (covers_self parent))
