-- ===== src/Fact/Collect/Survive.antt =====
-- The tree of `collectFacts` of internal/engine/fact.go as more facts are collected.
use facts.Base.{
  Bool, true, false, ◌||◌, ◌≡◌, ◌≢◌, ◌⊎◌, inl, inr, refl, sym, ap, ◌∙◌, List, [], ◌∷◌, ◌++◌, some,
  arith, is_nil, All, Bool-cases,
}
use facts.Base.Text.{Text, text_eq, text_eq_iff, has_byte}
use facts.Base.Text.Split.{split, join, join-split}
use facts.Value.{Value, obj, Fields, put, is_obj, is_null}
use facts.Fact.{ResolvedFact, insert, dig_value, dot}
use facts.Fact.Node.{node, node-put_ne, dig_value-node}
use facts.Fact.Insert.{insert-node_self, insert_refused}
use facts.Fact.Conflict.{Conflict, insert_refused_iff}
use facts.Fact.Keep.{insert_keeps_map, insert_keeps_leaf}
use facts.Fact.Collect.{
  Collected, head_part, collect_insert, collect_fact, collect_none, collect_from, collect_facts,
}
use facts.Fact.Collect.Laws.{Change, same, inserted, flat, collect_fact-Change, collect_fact-insert}

-- A path of the structured tree: its first key is no dotted name.
abbrev pub IsStructured : List Text → Type 0
IsStructured ks = has_byte dot (head_part ks) ≡ false

dotted_apart :
    (name k : Text) → has_byte dot name ≡ true → has_byte dot k ≡ false → text_eq name k ≡ false
dotted_apart name k d e = elim (Bool-cases (text_eq name k)) [
  | inr f ↦ f
  | inl f ↦ absurd (ground (arith, text_eq_iff name k))
]

Change-keeps_map :
    {root : Fields} {fact : ResolvedFact} {root' : Fields} (ks : List Text) {n : Fields}
    → Change root fact root'
    → IsStructured ks
    → node (obj root) ks ≡ some (obj n)
    → (n' : Fields) × (node (obj root') ks ≡ some (obj n'))
Change-keeps_map ks {n} same s h = (n, h)
Change-keeps_map {root} {fact = fact} ks inserted s h =
    insert_keeps_map (split dot fact.name) ks fact.value root h
Change-keeps_map {root} {fact = fact} [] (flat d) s h =
    (put fact.name fact.value root, unfold node in refl)
Change-keeps_map {root} {fact = fact} (k ∷ ks) {n} (flat d) s h =
    (n, node-put_ne fact.name k ks fact.value root (dotted_apart fact.name k d s) ∙ h)

Change-keeps_leaf :
    {root : Fields} {fact : ResolvedFact} {root' : Fields} (ks : List Text) {v : Value}
    → Change root fact root'
    → IsStructured ks
    → split dot fact.name ≢ ks
    → node (obj root) ks ≡ some v
    → is_obj v ≡ false
    → node (obj root') ks ≡ some v
Change-keeps_leaf ks same s ne h f = h
Change-keeps_leaf {root} {fact = fact} ks inserted s ne h f =
    insert_keeps_leaf (split dot fact.name) ks fact.value root h f ne
Change-keeps_leaf {root} {fact = fact} [] (flat d) s ne h f = absurd (unfold node in ground arith)
Change-keeps_leaf {root} {fact = fact} (k ∷ ks) (flat d) s ne h f =
    node-put_ne fact.name k ks fact.value root (dotted_apart fact.name k d s) ∙ h

-- A map of the structured tree stays a map at its path, whatever facts are collected after it.
pub collect_from_keeps_map :
    (dotted : Bool) (c : Collected) (facts : List ResolvedFact) (ks : List Text) {n : Fields}
    → IsStructured ks
    → node (obj c.root) ks ≡ some (obj n)
    → (n' : Fields) × (node (obj (collect_from dotted c facts).root) ks ≡ some (obj n'))
unfolding collect_from
collect_from_keeps_map dotted c [] ks {n} s h = (n, h)
collect_from_keeps_map dotted c (fact ∷ facts) ks s h =
    let (n', h') = Change-keeps_map ks (collect_fact-Change dotted c fact) s h in
    collect_from_keeps_map dotted (collect_fact dotted c fact) facts ks s h'

-- Another value stays too, unless a later fact has its path for a name.
pub collect_from_keeps_leaf :
    (dotted : Bool) (c : Collected) (facts : List ResolvedFact) (ks : List Text) {v : Value}
    → IsStructured ks
    → All (λ fact. split dot fact.name ≢ ks) facts
    → node (obj c.root) ks ≡ some v
    → is_obj v ≡ false
    → node (obj (collect_from dotted c facts).root) ks ≡ some v
unfolding collect_from
collect_from_keeps_leaf dotted c [] ks s a h f = h
collect_from_keeps_leaf dotted c (fact ∷ facts) ks s a h f =
    collect_from_keeps_leaf dotted (collect_fact dotted c fact) facts ks s a.1
      (Change-keeps_leaf ks (collect_fact-Change dotted c fact) s a.0 h f) f

pub collect_from-append :
    (dotted : Bool) (c : Collected) (xs ys : List ResolvedFact)
    → collect_from dotted c (xs ++ ys) ≡ collect_from dotted (collect_from dotted c xs) ys
unfolding collect_from
collect_from-append dotted c [] ys = refl
collect_from-append dotted c (x ∷ xs) ys =
    collect_from-append dotted (collect_fact dotted c x) xs ys

-- The first part of a split name holds no separator.
pub split-IsStructured : (s : Text) → IsStructured (split dot s)
unfolding split has_byte
split-IsStructured [] = refl
split-IsStructured (c ∷ s) = ground (arith, split-IsStructured s)

split_injective : (a b : Text) → split dot a ≡ split dot b → a ≡ b
split_injective a b h = sym (join-split dot a) ∙ ap (join dot) h ∙ join-split dot b

names_apart :
    (name : Text) (facts : List ResolvedFact)
    → All (λ fact. fact.name ≢ name) facts
    → All (λ fact. split dot fact.name ≢ split dot name) facts
names_apart name [] a = tt
names_apart name (fact ∷ facts) a =
    (λ e. a.0 (split_injective fact.name name e), names_apart name facts a.1)

-- A fact that is inserted at its turn is reported, or it is in the tree.
pub collect_insert_outcome :
    (c : Collected) (fact : ResolvedFact)
    → (Conflict c.root (split dot fact.name)
        × ((collect_insert c fact (split dot fact.name)).collisions ≡ c.collisions ++ fact ∷ [])
        × ((collect_insert c fact (split dot fact.name)).root ≡ c.root))
      ⊎ (((collect_insert c fact (split dot fact.name)).collisions ≡ c.collisions)
          × (node (obj (collect_insert c fact (split dot fact.name)).root) (split dot fact.name)
              ≡ some fact.value))
unfolding collect_insert
collect_insert_outcome c fact =
    let ks = split dot fact.name in
    elim (Bool-cases (insert c.root ks fact.value).1) [
      | inl e ↦ inr (
        rw (e, collect_insert) refl,
        rw (e, collect_insert) (insert-node_self ks fact.value c.root e),
      )
      | inr e ↦ inl (
        (insert_refused_iff ks fact.value c.root).0 e,
        rw (e, collect_insert) refl,
        rw (e, collect_insert) (insert_refused ks fact.value c.root e),
      )
    ]

collect_facts-insert :
    (dotted : Bool) (before after : List ResolvedFact) (fact : ResolvedFact)
    → is_null fact.value ≡ false
    → (is_nil fact.type || dotted) ≡ true
    → collect_facts (before ++ fact ∷ after) dotted
      ≡ collect_from dotted
          (collect_insert (collect_facts before dotted) fact (split dot fact.name))
          after
unfolding collect_facts collect_from
collect_facts-insert dotted before after fact v t =
    collect_from-append dotted collect_none before (fact ∷ after)
    ∙ ap (λ c. collect_from dotted c after)
        (collect_fact-insert dotted (collect_from dotted collect_none before) fact v
          (inl (ground arith)))

-- A fact whose value is neither nil nor a map, and that is of no type or merged by its dots, meets
-- one of two ends. Its name conflicts with the tree of the facts before it: then it is reported as
-- a collision, and the tree is left alone. Or nothing is reported, and the finished tree leads from
-- its name to its value, if no later fact has the same name.
pub collect_facts_accounted :
    (dotted : Bool) (before after : List ResolvedFact) (fact : ResolvedFact)
    → is_null fact.value ≡ false
    → is_obj fact.value ≡ false
    → (is_nil fact.type || dotted) ≡ true
    → All (λ later. later.name ≢ fact.name) after
    → (Conflict (collect_facts before dotted).root (split dot fact.name)
        × ((collect_facts (before ++ fact ∷ []) dotted).collisions
            ≡ (collect_facts before dotted).collisions ++ fact ∷ [])
        × ((collect_facts (before ++ fact ∷ []) dotted).root ≡ (collect_facts before dotted).root))
      ⊎ (((collect_facts (before ++ fact ∷ []) dotted).collisions
            ≡ (collect_facts before dotted).collisions)
          × (dig_value
                (obj (collect_facts (before ++ fact ∷ after) dotted).root)
                (split dot fact.name)
              ≡ some fact.value))
collect_facts_accounted dotted before after fact v m t a =
    let one = collect_facts-insert dotted before [] fact v t in
    let ks = split dot fact.name in
    elim (collect_insert_outcome (collect_facts before dotted) fact) [
      | inl (clash, reported, alone) ↦
          inl
            (clash, rw one (unfold collect_from in reported), rw one (unfold collect_from in alone))
      | inr (quiet, stored) ↦ inr (
        rw one (unfold collect_from in quiet),
        rw (collect_facts-insert dotted before after fact v t) (
            dig_value-node _ fact.value ks (
              collect_from_keeps_leaf dotted _ after ks (split-IsStructured fact.name)
                (names_apart fact.name after a) stored m)),
      )
    ]
