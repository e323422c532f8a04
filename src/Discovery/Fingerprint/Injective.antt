-- ===== src/Discovery/Fingerprint/Injective.antt =====
-- `disabledFingerprint` and `CoreFacts` of internal/engine/core.go against the disabled sets.
use facts.Base.{
  true, false, false≢true, not, ◌||◌, ◌≡◌, ◌≢◌, ◌⊎◌, inl, inr, refl, sym, ap, ◌∙◌, List, [], ◌∷◌,
  ◌++◌, All, any, arith, Bool-cases,
}
use facts.Base.Text.Members.{mem-sort_texts}
use facts.Base.Text.{Text, text_eq, mem_text, has_byte, text_eq_iff, text_eq_self}
use facts.Base.Text.Order.{sort_texts, insert_text, text_le}
use facts.Base.Text.Split.{join, split, split-join}
use facts.Fact.{ResolvedFact}
use facts.Discovery.Descriptors.{
  CoreFactDescriptor, should_run, resolve_core_fact_descriptors, gateable, always_eager,
  SchedulingPolicy,
}
use facts.Discovery.Fingerprint.{comma, distinct, disabled_fingerprint, CoreMemo, core_facts}

abbrev pub IsSingle : Text → Type 0
IsSingle name = has_byte comma name ≡ false

insert_text-All :
    (x : Text) (xs : List Text) → IsSingle x → All IsSingle xs → All IsSingle (insert_text x xs)
unfolding insert_text
insert_text-All x [] h a = (h, tt)
insert_text-All x (y ∷ xs) h (a, b) = elim (Bool-cases (text_le x y)) [
  | inl e ↦ rw (e, insert_text) (h, (a, b))
  | inr e ↦ rw (e, insert_text) (a, insert_text-All x xs h b)
]

sort_texts-All : (xs : List Text) → All IsSingle xs → All IsSingle (sort_texts xs)
unfolding sort_texts
sort_texts-All [] h = tt
sort_texts-All (x ∷ xs) (h, a) = insert_text-All x (sort_texts xs) h (sort_texts-All xs a)

insert_text-ne_nil : (x : Text) (xs : List Text) → insert_text x xs ≢ []
unfolding insert_text
insert_text-ne_nil x [] e = cc
insert_text-ne_nil x (y ∷ xs) e = elim (Bool-cases (text_le x y)) [
  | inl f ↦ absurd (ground arith)
  | inr f ↦ absurd (ground arith)
]

split-join_ne_nil : (xs : List Text) → xs ≢ [] → All IsSingle xs → split comma (join comma xs) ≡ xs
split-join_ne_nil [] h a = absurd (h refl)
split-join_ne_nil (x ∷ xs) h a = split-join comma x xs a

sort_texts-ne_nil : (xs : List Text) → xs ≢ [] → sort_texts xs ≢ []
unfolding sort_texts
sort_texts-ne_nil [] h = h
sort_texts-ne_nil (x ∷ xs) h = insert_text-ne_nil x (sort_texts xs)

-- A name that comes again adds none.
mem-again :
    (t x : Text) (xs : List Text) → mem_text x xs ≡ true → mem_text t xs ≡ mem_text t (x ∷ xs)
unfolding mem_text
mem-again t x xs h = elim (Bool-cases (text_eq x t)) [
  | inl e ↦
      let same : t ≡ x = sym ((text_eq_iff x t).0 e) in rw e (ap (λ y. mem_text y xs) same ∙ h)
  | inr e ↦ rw e refl
]

mem-distinct : (t : Text) (xs : List Text) → mem_text t (distinct xs) ≡ mem_text t xs
unfolding distinct mem_text
mem-distinct t [] = refl
mem-distinct t (x ∷ xs) = elim (Bool-cases (mem_text x xs)) [
  | inr e ↦ rw (e, distinct) (ap (λ b. text_eq x t || b) (mem-distinct t xs))
  | inl e ↦ rw (e, distinct) (mem-distinct t xs ∙ mem-again t x xs e)
]

distinct-All : (xs : List Text) → All IsSingle xs → All IsSingle (distinct xs)
unfolding distinct
distinct-All [] h = tt
distinct-All (x ∷ xs) (h, a) = elim (Bool-cases (mem_text x xs)) [
  | inl e ↦ rw (e, distinct) (distinct-All xs a)
  | inr e ↦ rw (e, distinct) (h, distinct-All xs a)
]

distinct-ne_nil : (x : Text) (xs : List Text) → distinct (x ∷ xs) ≢ []
unfolding mem_text
distinct-ne_nil x xs e =
    let here : mem_text x (x ∷ xs) ≡ true = ground (arith, text_eq_self x) in
    false≢true (sym (ap (mem_text x) e) ∙ mem-distinct x (x ∷ xs) ∙ here)

fingerprint_names_lem :
    (x : Text) (xs : List Text)
    → All IsSingle (x ∷ xs)
    → split comma (disabled_fingerprint (x ∷ xs)) ≡ sort_texts (distinct (x ∷ xs))
unfolding disabled_fingerprint
fingerprint_names_lem x xs a =
    split-join_ne_nil (sort_texts (distinct (x ∷ xs)))
      (sort_texts-ne_nil (distinct (x ∷ xs)) (distinct-ne_nil x xs))
      (sort_texts-All (distinct (x ∷ xs)) (distinct-All (x ∷ xs) a))

mem-names : (t : Text) (xs : List Text) → mem_text t (sort_texts (distinct xs)) ≡ mem_text t xs
mem-names t xs = mem-sort_texts t (distinct xs) ∙ mem-distinct t xs

mem-same_fingerprint :
    (x y : Text) (xs ys : List Text)
    → All IsSingle (x ∷ xs)
    → All IsSingle (y ∷ ys)
    → disabled_fingerprint (x ∷ xs) ≡ disabled_fingerprint (y ∷ ys)
    → (t : Text) → mem_text t (x ∷ xs) ≡ mem_text t (y ∷ ys)
mem-same_fingerprint x y xs ys a b h t =
    let same : sort_texts (distinct (x ∷ xs)) ≡ sort_texts (distinct (y ∷ ys)) =
      sym (fingerprint_names_lem x xs a) ∙ ap (split comma) h ∙ fingerprint_names_lem y ys b in
    sym (mem-names t (x ∷ xs)) ∙ ap (mem_text t) same ∙ mem-names t (y ∷ ys)

any-same :
    (ms ns roots : List Text)
    → ((t : Text) → mem_text t ms ≡ mem_text t ns)
    → any (λ root. not (mem_text root ms)) roots ≡ any (λ root. not (mem_text root ns)) roots
any-same ms ns [] h = refl
any-same ms ns (r ∷ roots) h = ground (arith, h r, any-same ms ns roots h)

should_run-same :
    (ms ns : List Text) (d : CoreFactDescriptor)
    → ((t : Text) → mem_text t ms ≡ mem_text t ns)
    → should_run d ms ≡ should_run d ns
unfolding should_run
should_run-same ms ns d h = by_policy d.policy
  where
    by_policy :
        (p : SchedulingPolicy)
        → (elim p [
          | always_eager ↦ true
          | gateable ↦ any (λ root. not (mem_text root ms)) d.emitted_roots
        ])
          ≡ (elim p [
            | always_eager ↦ true
            | gateable ↦ any (λ root. not (mem_text root ns)) d.emitted_roots
          ])
    by_policy always_eager = refl
    by_policy gateable = any-same ms ns d.emitted_roots h

resolve-same :
    (assemble : CoreFactDescriptor → List ResolvedFact) (ms ns : List Text)
    (ds : List CoreFactDescriptor)
    → ((t : Text) → mem_text t ms ≡ mem_text t ns)
    → resolve_core_fact_descriptors assemble ms ds ≡ resolve_core_fact_descriptors assemble ns ds
unfolding resolve_core_fact_descriptors
resolve-same assemble ms ns [] h = refl
resolve-same assemble ms ns (d ∷ ds) h =
    rw (should_run-same ms ns d h, resolve_core_fact_descriptors)
      (rw (resolve-same assemble ms ns ds h) refl)

-- A memo that is empty, or holds the facts of a set of names without commas, under its fingerprint.
abbrev pub IsFaithful :
    (CoreFactDescriptor → List ResolvedFact) → List CoreFactDescriptor → CoreMemo → Type 0
IsFaithful assemble ds memo =
    (memo.built ≡ false)
    ⊎ ((x : Text) × (xs : List Text) × All IsSingle (x ∷ xs)
        × (memo.fingerprint ≡ disabled_fingerprint (x ∷ xs))
        × (memo.facts ≡ resolve_core_fact_descriptors assemble (x ∷ xs) ds))

module _ (assemble : CoreFactDescriptor → List ResolvedFact) (ds : List CoreFactDescriptor) where
  core_facts-new :
      (memo : CoreMemo) (ys : List Text)
      → (not memo.built || not (text_eq memo.fingerprint (disabled_fingerprint ys))) ≡ true
      → core_facts assemble ds memo ys ≡ record {
        built = true;
        fingerprint = disabled_fingerprint ys;
        facts = resolve_core_fact_descriptors assemble ys ds;
      }
  unfolding core_facts
  core_facts-new memo ys h = rw (h, core_facts) refl

  core_facts-old :
      (memo : CoreMemo) (ys : List Text)
      → (not memo.built || not (text_eq memo.fingerprint (disabled_fingerprint ys))) ≡ false
      → core_facts assemble ds memo ys ≡ memo
  unfolding core_facts
  core_facts-old memo ys h = rw (h, core_facts) refl

  -- For a set of names without commas, and one name at least, a session's core facts are those that
  -- its gate resolves, whatever such sets the session was asked for before; and the memo stays
  -- faithful.
  pub core_facts-IsFaithful :
      (memo : CoreMemo) (y : Text) (ys : List Text)
      → IsFaithful assemble ds memo
      → All IsSingle (y ∷ ys)
      → ((core_facts assemble ds memo (y ∷ ys)).facts
          ≡ resolve_core_fact_descriptors assemble (y ∷ ys) ds)
        × IsFaithful assemble ds (core_facts assemble ds memo (y ∷ ys))
  core_facts-IsFaithful memo y ys f b =
      elim (Bool-cases
        (not memo.built || not (text_eq memo.fingerprint (disabled_fingerprint (y ∷ ys))))) [
          | inl e ↦ rw (core_facts-new memo (y ∷ ys) e) (refl, inr (y, ys, b, refl, refl))
          | inr e ↦ rw (core_facts-old memo (y ∷ ys) e) (elim f [
            | inl none_built ↦ absurd (ground arith)
            | inr (x, xs, a, p, q) ↦
                let same : memo.fingerprint ≡ disabled_fingerprint (y ∷ ys) =
                  (text_eq_iff memo.fingerprint (disabled_fingerprint (y ∷ ys))).0 (ground arith) in
                (
                  q
                      ∙ resolve-same assemble (x ∷ xs) (y ∷ ys) ds
                          (mem-same_fingerprint x y xs ys a b (sym p ∙ same)),
                  inr (x, xs, a, p, q),
                )
          ])
        ]

-- With a comma in a name, two sets share a fingerprint: that of two different names in order, and that
-- of the one name that joins them.
pub disabled_fingerprint-collides :
    (s t : Text)
    → text_le s t ≡ true
    → text_eq t s ≡ false
    → disabled_fingerprint ((s ++ (comma ∷ t)) ∷ []) ≡ disabled_fingerprint (s ∷ t ∷ [])
unfolding disabled_fingerprint distinct mem_text sort_texts insert_text join
disabled_fingerprint-collides s t h n = rw (n, distinct) (rw (h, insert_text) refl)
