-- ===== src/Groups/Hierarchy.antt =====
-- `factHierarchyMatch` of internal/engine/groups.go against `factHierarchyCovers`.
use facts.Base.{
  ℕ, zero, suc, ◌<◌, true, ◌≡◌, ◌⊎◌, inl, inr, refl, ap, ◌∙◌, [], ◌∷◌, ◌++◌, Option, none, some,
  arith, Option-cases, length, length-append,
}
use facts.Base.Text.{Text, text_eq, text_eq_iff, text_eq_self, has_prefix}
use facts.Base.Text.Split.{cut_last, cut_last-eq_some}
use facts.Fact.{dot}
use facts.Groups.{fact_hierarchy_covers, hierarchy_loop, fact_hierarchy_match}

-- An ancestor of a name, and not the name itself, is an ancestor of what `LastIndex` cuts it to.
cut_last-covers :
    (a name : Text)
    → has_prefix name (a ++ (dot ∷ [])) ≡ true
    → (front : Text) × (cut_last dot name ≡ some front) × (fact_hierarchy_covers a front ≡ true)
unfolding cut_last has_prefix
cut_last-covers [] [] h = absurd (ground arith)
cut_last-covers [] (c ∷ name) h = elim (Option-cases (cut_last dot name)) [
  | inl e ↦ ([], ground arith, unfold fact_hierarchy_covers text_eq in refl)
  | inr (f, e) ↦ (c ∷ f, ground arith, unfold fact_hierarchy_covers text_eq in ground arith)
]
cut_last-covers (x ∷ a) [] h = absurd (ground arith)
cut_last-covers (x ∷ a) (c ∷ name) h =
    let (f, e, g) = cut_last-covers a name (ground arith) in
    (c ∷ f, ground arith, covers_cons x c a f (ground arith) g)
  where
    covers_cons :
        (x c : ℕ) (a f : Text)
        → x ≡ c
        → fact_hierarchy_covers a f ≡ true
        → fact_hierarchy_covers (x ∷ a) (c ∷ f) ≡ true
    covers_cons x c a f e g = unfold fact_hierarchy_covers text_eq in ground arith

pub covers_self : (name : Text) → fact_hierarchy_covers name name ≡ true
unfolding fact_hierarchy_covers
covers_self name = ground (arith, text_eq_self name)

pub covers-cases :
    (a name : Text)
    → fact_hierarchy_covers a name ≡ true
    → (a ≡ name) ⊎ (has_prefix name (a ++ (dot ∷ [])) ≡ true)
unfolding fact_hierarchy_covers
covers-cases a name h = ground (arith, text_eq_iff a name)

cut_last-shorter : (name front : Text) → cut_last dot name ≡ some front → length front < length name
cut_last-shorter name front h =
    let (b, e, g) = cut_last-eq_some dot name front h in
    omega (arith, ap length e, length-append front (dot ∷ b))

pub covers_below :
    (a front b : Text)
    → fact_hierarchy_covers a front ≡ true
    → fact_hierarchy_covers a (front ++ (dot ∷ b)) ≡ true
unfolding fact_hierarchy_covers text_eq has_prefix
covers_below [] [] b h = ground arith
covers_below [] (x ∷ front) b h = ground arith
covers_below (y ∷ a) [] b h = absurd (ground arith)
covers_below (y ∷ a) (x ∷ front) b h = ground (arith, covers_below a front b)

module _ {ℓ} {A : Type ℓ} (known : Text → Option A) where
  -- With fuel beyond the length of the name, nothing found means that no ancestor is known.
  hierarchy_loop-none :
      (fuel : ℕ) (name a : Text)
      → length name < fuel
      → hierarchy_loop fuel known name ≡ none
      → fact_hierarchy_covers a name ≡ true
      → known a ≡ none
  unfolding hierarchy_loop
  hierarchy_loop-none zero name a l h c = absurd (omega arith)
  hierarchy_loop-none (suc fuel) name a l h c = elim (Option-cases (known name)) [
    | inr (v, e) ↦ absurd (ground arith)
    | inl e ↦ elim (covers-cases a name c) [
      | inl same ↦ rw same e
      | inr below ↦
          let (front, cut, c') = cut_last-covers a name below in
          hierarchy_loop-none fuel front a (omega (arith, cut_last-shorter name front cut))
            (ground arith) c'
    ]
  ]

  -- A lookup along a name's ancestors misses only if none of them, the name included, is known.
  pub fact_hierarchy_match-none :
      (name a : Text)
      → fact_hierarchy_match name known ≡ none
      → fact_hierarchy_covers a name ≡ true
      → known a ≡ none
  unfolding fact_hierarchy_match
  fact_hierarchy_match-none name a = hierarchy_loop-none (suc (length name)) name a (omega arith)

  hierarchy_loop-some :
      (fuel : ℕ) (name n : Text) {v : A}
      → hierarchy_loop fuel known name ≡ some (n, v)
      → (fact_hierarchy_covers n name ≡ true) × (known n ≡ some v)
  unfolding hierarchy_loop
  hierarchy_loop-some zero name n h = absurd (ground arith)
  hierarchy_loop-some (suc fuel) name n {v} h = elim (Option-cases (known name)) [
    | inr (w, e) ↦ found name n v w e (ground arith)
    | inl e ↦ elim (Option-cases (cut_last dot name)) [
      | inl f ↦ absurd (ground arith)
      | inr (front, f) ↦
          let (b, g, _) = cut_last-eq_some dot name front f in
          let (c, k) = hierarchy_loop-some fuel front n (ground arith) in
          (rw g (covers_below n front b c), k)
    ]
  ]
    where
      found :
          (name n : Text) (v w : A)
          → known name ≡ some w
          → Path (Option (Text × A)) (some (name, w)) (some (n, v))
          → (fact_hierarchy_covers n name ≡ true) × (known n ≡ some v)
      found name n v w e h =
          let p : name ≡ n = cc in (rw (← p) (covers_self name), rw (← p) (e ∙ cc))

  -- What a lookup along a name's ancestors finds is an ancestor, with what is known of it.
  pub fact_hierarchy_match-some :
      (name n : Text) {v : A}
      → fact_hierarchy_match name known ≡ some (n, v)
      → (fact_hierarchy_covers n name ≡ true) × (known n ≡ some v)
  unfolding fact_hierarchy_match
  fact_hierarchy_match-some name n = hierarchy_loop-some (suc (length name)) name n
