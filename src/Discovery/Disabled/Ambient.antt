-- ===== src/Discovery/Disabled/Ambient.antt =====
-- The ambient map of `unionDisabledFacts` of internal/engine/discovery_plan.go.
use facts.Base.{
  Bool, true, false, not, ◌||◌, ◌≡◌, refl, sym, ap, ◌∙◌, List, [], ◌∷◌, ◌++◌, keep, arith, All,
  append_assoc, inl, inr, Bool-cases, if◌then◌else◌,
}
use facts.Base.Text.Members.{mem-append_left, mem-append_right}
use facts.Base.Text.{Text, mem_text, text_eq, text_eq_self}
use facts.Base.Text.Unicode.{Unicode}
use facts.Groups.{FactGroup, disabled_facts_with_groups, fact_hierarchy_covers}
use facts.Groups.Environment.{Outcome, returns, panics, environment_disabled_facts}
use facts.Discovery.Disabled.{
  expand, Sources, note_source, drop_covered, drop_all, ambient_sources, union_disabled_facts,
  disabled_union, disabled_source_env, disabled_source_config,
}

expand-append :
    (xs ys : List Text) (groups : List FactGroup)
    → expand (xs ++ ys) groups ≡ expand xs groups ++ expand ys groups
unfolding expand disabled_facts_with_groups
expand-append [] ys groups = refl
expand-append (x ∷ xs) ys groups =
    rw (expand-append xs ys groups) (sym (append_assoc _ (expand xs groups) (expand ys groups)))

abbrev pub IsIn : List Text → Text × Text → Type 0
IsIn disabled e = mem_text e.0 disabled ≡ true

abbrev pub IsClear : Text → Text × Text → Type 0
IsClear name e = fact_hierarchy_covers name e.0 ≡ false

keep-All :
    (P : Text × Text → Type 0) (test : Text × Text → Bool) (ambient : Sources)
    → All P ambient
    → All P (keep test ambient)
keep-All P test [] h = tt
keep-All P test (e ∷ ambient) (p, h) = elim (Bool-cases (test e)) [
  | inl t ↦ rw (t, keep) (p, keep-All P test ambient h)
  | inr t ↦ rw (t, keep) (keep-All P test ambient h)
]

drop_all-All :
    (P : Text × Text → Type 0) (names : List Text) (ambient : Sources)
    → All P ambient
    → All P (drop_all names ambient)
unfolding drop_all drop_covered
drop_all-All P [] ambient h = h
drop_all-All P (n ∷ names) ambient h =
    drop_all-All P names (drop_covered n ambient) (keep-All P _ ambient h)

drop_covered-IsClear :
    (name : Text) (ambient : Sources) → All (IsClear name) (drop_covered name ambient)
unfolding drop_covered
drop_covered-IsClear name [] = tt
drop_covered-IsClear name (e ∷ ambient) =
    elim (Bool-cases (not (text_eq name e.0 || fact_hierarchy_covers name e.0))) [
      | inl t ↦ rw (t, keep) (ground arith, drop_covered-IsClear name ambient)
      | inr t ↦ rw (t, keep) (drop_covered-IsClear name ambient)
    ]

drop_all-IsClear :
    (names : List Text) (ambient : Sources)
    → All (λ n. All (IsClear n) (drop_all names ambient)) names
unfolding drop_all
drop_all-IsClear [] ambient = tt
drop_all-IsClear (n ∷ names) ambient = (
  drop_all-All (IsClear n) names (drop_covered n ambient) (drop_covered-IsClear n ambient),
  drop_all-IsClear names (drop_covered n ambient),
)

mem-skip : (t x : Text) (xs : List Text) → mem_text t xs ≡ true → mem_text t (x ∷ xs) ≡ true
mem-skip t x xs h = mem-append_right t (x ∷ []) xs h

-- Writes of names that are disabled keep a map to disabled names.
note_source-All :
    (source : Text) (disabled names : List Text) (ambient : Sources)
    → ((t : Text) → mem_text t names ≡ true → mem_text t disabled ≡ true)
    → All (IsIn disabled) ambient
    → All (IsIn disabled) (note_source source names ambient)
unfolding note_source
note_source-All source disabled [] ambient h a = a
note_source-All source disabled (n ∷ names) ambient h a = (
  h n (unfold mem_text in ground (arith, text_eq_self n)),
  note_source-All source disabled names ambient (λ t m. h t (mem-skip t n names m)) a,
)

ambient_sources-All :
    (groups : List FactGroup) (cd env extra : List Text)
    → All (IsIn (expand (cd ++ (extra ++ env)) groups)) (ambient_sources groups cd env extra)
unfolding ambient_sources
ambient_sources-All groups cd env extra =
    let all_names = expand (cd ++ (extra ++ env)) groups in
    let split : all_names ≡ expand cd groups ++ (expand extra groups ++ expand env groups) =
      rw (expand-append cd (extra ++ env) groups, expand-append extra env groups) refl in
    drop_all-All (IsIn all_names) (expand extra groups) _ (
      note_source-All disabled_source_env all_names (expand env groups) _
        (λ t m. rw split (
          mem-append_right t (expand cd groups) (expand extra groups ++ expand env groups)
            (mem-append_right t (expand extra groups) (expand env groups) m)))
        (note_source-All disabled_source_config all_names (expand cd groups) []
          (λ t m.
            rw split
              (mem-append_left t (expand cd groups) (expand extra groups ++ expand env groups) m))
          tt))

returns_pair :
    {A : Type 0} {B : Type 0} (a c : A) (b d : B)
    → Path (Outcome (A × B)) (returns (a, b)) (returns (c, d))
    → (a ≡ c) × (b ≡ d)
returns_pair {A = A} {B = B} a c b d h =
    (ap (λ p. p.0) (from_returns h), ap (λ p. p.1) (from_returns h))
  where
    from_returns :
        Path (Outcome (A × B)) (returns (a, b)) (returns (c, d)) → Path (A × B) (a, b) (c, d)
    from_returns h = cc

module _ (u : Unicode) (cd : List Text) (groups : List FactGroup) (extra : List Text) (inc : Bool)
    (host : List Text) where
  union-returns :
      (env : List Text)
      → environment_disabled_facts u (if inc then host else []) ≡ returns env
      → union_disabled_facts u cd groups extra inc host
        ≡ returns (expand (cd ++ (extra ++ env)) groups, ambient_sources groups cd env extra)
  unfolding union_disabled_facts disabled_union
  union-returns env e = rw e refl

  union-panics :
      environment_disabled_facts u (if inc then host else []) ≡ panics
      → union_disabled_facts u cd groups extra inc host ≡ panics
  unfolding union_disabled_facts disabled_union
  union-panics e = rw e refl

-- Where the sources can be read, each name of the ambient map is disabled, and no name that the
-- command line disables covers it.
pub union_disabled_facts-ambient :
    (u : Unicode) (config_disabled : List Text) (groups : List FactGroup)
    (extra_disabled : List Text) (include_env : Bool) (host_environ : List Text)
    (disabled : List Text) (ambient : Sources)
    → union_disabled_facts u config_disabled groups extra_disabled include_env host_environ
      ≡ returns (disabled, ambient)
    → All (IsIn disabled) ambient
      × All (λ n. All (IsClear n) ambient) (expand extra_disabled groups)
union_disabled_facts-ambient u cd groups extra inc host disabled ambient h =
    from (environment_disabled_facts u (if inc then host else [])) refl
  where
    stopped : Path (Outcome (List Text × Sources)) panics (returns (disabled, ambient)) → ⊥
    stopped p = cc

    from :
        (o : Outcome (List Text))
        → environment_disabled_facts u (if inc then host else []) ≡ o
        → All (IsIn disabled) ambient × All (λ n. All (IsClear n) ambient) (expand extra groups)
    from panics e = absurd (stopped (sym (union-panics u cd groups extra inc host e) ∙ h))
    from (returns env) e =
        let (d, a) =
          returns_pair (expand (cd ++ (extra ++ env)) groups) disabled
            (ambient_sources groups cd env extra) ambient
            (sym (union-returns u cd groups extra inc host env e) ∙ h) in
        rw (← d) (
          rw (← a) (
            ambient_sources-All groups cd env extra,
            unfold ambient_sources in drop_all-IsClear (expand extra groups) _,
          ))
