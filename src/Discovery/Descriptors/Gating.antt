-- ===== src/Discovery/Descriptors/Gating.antt =====
-- The gate of internal/engine/core.go against `FilterDisabledFacts`.
use facts.Base.{
  true, false, not, ◌||◌, ◌≡◌, inl, inr, ◌⊎◌, refl, sym, ap, ◌∙◌, List, [], ◌∷◌, ◌++◌, arith, All,
  any, Bool-cases,
}
use facts.Base.Text.{Text, mem_text, text_eq, text_eq_iff}
use facts.Fact.{ResolvedFact}
use facts.Groups.{filter_loop, filter_disabled_facts, root_name, prune_disabled_descendants}
use facts.Discovery.Descriptors.{
  CoreFactDescriptor, SchedulingPolicy, gateable, always_eager, should_run,
  resolve_core_fact_descriptors,
}

filter_loop-append :
    (disabled : List Text) (xs ys : List ResolvedFact)
    → filter_loop disabled (xs ++ ys) ≡ filter_loop disabled xs ++ filter_loop disabled ys
unfolding filter_loop
filter_loop-append disabled [] ys = unfold filter_loop in refl
filter_loop-append disabled (x ∷ xs) ys =
    let rest = filter_loop-append disabled xs ys in
    elim (Bool-cases (mem_text x.name disabled || mem_text (root_name x.name) disabled)) [
      | inl e ↦ rw (e, filter_loop) rest
      | inr e ↦
          rw (e, filter_loop)
            (ap (λ r. record x { value = prune_disabled_descendants x.name x.value disabled } ∷ r)
              rest)
    ]

-- A name of a list whose members are all disabled is disabled.
all_disabled :
    (t : Text) (roots disabled : List Text)
    → any (λ root. not (mem_text root disabled)) roots ≡ false
    → mem_text t roots ≡ true
    → mem_text t disabled ≡ true
all_disabled t [] disabled h m = absurd (unfold mem_text in ground arith)
all_disabled t (r ∷ roots) disabled h m = elim (Bool-cases (text_eq r t)) [
  | inl e ↦ let p : r ≡ t = (text_eq_iff r t).0 e in rw (← p) (ground arith)
  | inr e ↦ all_disabled t roots disabled (ground arith) (unfold mem_text in ground arith)
]

abbrev pub IsEmittedBy : CoreFactDescriptor → List ResolvedFact → Type 0
IsEmittedBy d facts = All (λ fact. mem_text (root_name fact.name) d.emitted_roots ≡ true) facts

filter_loop-gone :
    (disabled : List Text) (d : CoreFactDescriptor) (facts : List ResolvedFact)
    → any (λ root. not (mem_text root disabled)) d.emitted_roots ≡ false
    → IsEmittedBy d facts
    → filter_loop disabled facts ≡ []
unfolding filter_loop
filter_loop-gone disabled d [] h e = refl
filter_loop-gone disabled d (fact ∷ facts) h (r, e) =
    let gone : (mem_text fact.name disabled || mem_text (root_name fact.name) disabled) ≡ true =
      ground (arith, all_disabled (root_name fact.name) d.emitted_roots disabled h r) in
    rw (gone, filter_loop) (filter_loop-gone disabled d facts h e)

-- What a descriptor gives is filtered out where it does not run.
skipped-nothing :
    (disabled : List Text) (d : CoreFactDescriptor) (facts : List ResolvedFact)
    → should_run d disabled ≡ false
    → IsEmittedBy d facts
    → filter_loop disabled facts ≡ []
unfolding should_run
skipped-nothing disabled d facts h e = elim (policy_cases d.policy) [
  | inl p ↦ absurd (ground arith)
  | inr p ↦ filter_loop-gone disabled d facts (ground arith) e
]
  where
    policy_cases : (p : SchedulingPolicy) → (p ≡ always_eager) ⊎ (p ≡ gateable)
    policy_cases always_eager = inl refl
    policy_cases gateable = inr refl

module _ (assemble : CoreFactDescriptor → List ResolvedFact) where
  -- The facts of all descriptors, run or not.
  abbrev pub assemble_all : List CoreFactDescriptor → List ResolvedFact
  assemble_all [] = []
  assemble_all (d ∷ descriptors) = assemble d ++ assemble_all descriptors

  gated-filter :
      (disabled : List Text) (descriptors : List CoreFactDescriptor)
      → All (λ d. IsEmittedBy d (assemble d)) descriptors
      → filter_loop disabled (resolve_core_fact_descriptors assemble disabled descriptors)
        ≡ filter_loop disabled (assemble_all descriptors)
  unfolding resolve_core_fact_descriptors
  gated-filter disabled [] e = refl
  gated-filter disabled (d ∷ descriptors) (e, es) =
      let rest = gated-filter disabled descriptors es in
      elim (Bool-cases (should_run d disabled)) [
        | inl r ↦
            rw (r, resolve_core_fact_descriptors)
              (rw (filter_loop-append disabled (assemble d) (assemble_all descriptors)) (
                rw (filter_loop-append disabled (assemble d))
                  (ap (λ t. filter_loop disabled (assemble d) ++ t) rest)))
        | inr r ↦
            rw (r, resolve_core_fact_descriptors)
              (rest
                ∙ sym (
                    filter_loop-append disabled (assemble d) (assemble_all descriptors)
                    ∙ ap (λ t. t ++ filter_loop disabled (assemble_all descriptors))
                        (skipped-nothing disabled d (assemble d) r e)))
      ]

filter_loop_nil : (facts : List ResolvedFact) → filter_loop [] facts ≡ facts
unfolding filter_loop mem_text prune_disabled_descendants
filter_loop_nil [] = refl
filter_loop_nil (fact ∷ facts) = ap (λ r. fact ∷ r) (filter_loop_nil facts)

filter-loop_lem :
    (disabled : List Text) (facts : List ResolvedFact)
    → filter_disabled_facts facts disabled ≡ filter_loop disabled facts
unfolding filter_disabled_facts
filter-loop_lem [] facts = sym (filter_loop_nil facts)
filter-loop_lem (d ∷ disabled) facts = refl

-- Where each descriptor emits facts of its roots only, a descriptor that is not run changes
-- nothing: the facts that the filter leaves are those that it leaves of all descriptors' facts.
pub resolve_core_fact_descriptors-filter :
    (assemble : CoreFactDescriptor → List ResolvedFact) (disabled : List Text)
    (descriptors : List CoreFactDescriptor)
    → All (λ d. IsEmittedBy d (assemble d)) descriptors
    → filter_disabled_facts (resolve_core_fact_descriptors assemble disabled descriptors) disabled
      ≡ filter_disabled_facts (assemble_all assemble descriptors) disabled
resolve_core_fact_descriptors-filter assemble disabled descriptors e =
    filter-loop_lem disabled (resolve_core_fact_descriptors assemble disabled descriptors)
    ∙ gated-filter assemble disabled descriptors e
    ∙ sym (filter-loop_lem disabled (assemble_all assemble descriptors))
