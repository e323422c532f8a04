-- ===== src/Fact/Keep.antt =====
-- The values of a tree before and after `insert` of internal/engine/fact.go.
use facts.Base.{
  true, false, ◌≡◌, ◌≢◌, ◌⊎◌, inl, inr, refl, sym, ap, ◌∙◌, List, [], ◌∷◌, ◌++◌, append-nil, some,
  arith, Option-cases, Bool-cases,
}
use facts.Base.Text.{Text, text_eq, text_eq_iff}
use facts.Value.{Value, obj, Fields, is_obj, lookup}
use facts.Value.Laws.{obj-cases}
use facts.Fact.{insert}
use facts.Fact.Node.{node}
use facts.Fact.Insert.{diverge, insert_refused, insert-node_self, insert-node-diverge}
use facts.Fact.Conflict.{Conflict, insert_refused_iff, node_leaf}

-- Two paths part, or one begins with the other.
path-cases :
    (ks js : List Text)
    → (diverge ks js ≡ true)
      ⊎ ((t : List Text) × (js ≡ ks ++ t))
      ⊎ ((x : Text) × (t : List Text) × (ks ≡ js ++ (x ∷ t)))
path-cases [] js = inr (inl (js, refl))
path-cases (k ∷ ks) [] = inr (inr (k, ks, refl))
path-cases (k ∷ ks) (j ∷ js) = elim (Bool-cases (text_eq k j)) [
  | inr apart ↦ inl (unfold diverge in ground arith)
  | inl same ↦
      let p = (text_eq_iff k j).0 same in
      elim (path-cases ks js) [
        | inl d ↦ inl (unfold diverge in ground arith)
        | inr (inl (t, e)) ↦ inr (inl (t, ground (arith)))
        | inr (inr (x, t, e)) ↦ inr (inr (x, t, ground (arith)))
      ]
]

-- A path to a node passes a node at each of its fronts.
node-append :
    (ps qs : List Text) (v w : Value)
    → node v (ps ++ qs) ≡ some w
    → (u : Value) × (node v ps ≡ some u) × (node u qs ≡ some w)
unfolding node
node-append [] qs v w h = (v, refl, h)
node-append (p ∷ ps) qs (obj m) w h = elim (Option-cases (lookup p m)) [
  | inl e ↦ absurd (ground arith)
  | inr (x, e) ↦ let (u, a, b) = node-append ps qs x w (ground arith) in (u, ground arith, b)
]
node-append (p ∷ ps) qs _ w h = absurd (ground arith)

inner_is_obj :
    (k : Text) (ks : List Text) (v w : Value) → node v (k ∷ ks) ≡ some w → is_obj v ≡ true
inner_is_obj k ks v w h = elim (Bool-cases (is_obj v)) [
  | inl e ↦ e
  | inr e ↦ absurd (ground (arith, node_leaf k ks v e))
]

Conflict-stored :
    {m : Fields} {ks : List Text} (v : Value) → Conflict m ks → (insert m ks v).1 ≢ true
Conflict-stored {m} {ks} v c h = ground (arith, (insert_refused_iff ks v m).1 c)

-- A successful insertion is neither onto a map nor above one.
stored_not_above :
    (ks t : List Text) (v u : Value) (m : Fields)
    → node (obj m) (ks ++ t) ≡ some u
    → (insert m ks v).1 ≡ true
    → (t ≡ []) × (is_obj u ≡ false)
stored_not_above ks [] v u m h s = elim (Bool-cases (is_obj u)) [
  | inr e ↦ (refl, e)
  | inl e ↦ absurd (
      Conflict-stored v
        (record {
          front = ks;
          back = [];
          value = u;
          splits = sym (append-nil ks);
          meets = rw append-nil at h;
          clash = e;
        })
        s)
]
stored_not_above ks (x ∷ t) v u m h s =
    let (w, a, b) = node-append ks (x ∷ t) (obj m) u h in
    absurd (
      Conflict-stored v
        (record {
          front = ks;
          back = [];
          value = w;
          splits = sym (append-nil ks);
          meets = a;
          clash = inner_is_obj x t w u b;
        })
        s)

-- It passes maps only.
stored_below :
    (js t : List Text) (x : Text) (v u : Value) (m : Fields)
    → node (obj m) js ≡ some u
    → (insert m (js ++ (x ∷ t)) v).1 ≡ true
    → is_obj u ≡ true
stored_below js t x v u m h s = elim (Bool-cases (is_obj u)) [
  | inl e ↦ e
  | inr e ↦ absurd (
      Conflict-stored v
        (record { front = js; back = x ∷ t; value = u; splits = refl; meets = h; clash = e }) s)
]

stored_inner :
    (js t : List Text) (x : Text) (v : Value) (m : Fields)
    → (insert m (js ++ (x ∷ t)) v).1 ≡ true
    → (n : Fields) × (node (obj (insert m (js ++ (x ∷ t)) v).0) js ≡ some (obj n))
stored_inner js t x v m s =
    let after = (insert m (js ++ (x ∷ t)) v).0 in
    let (u, a, b) = node-append js (x ∷ t) (obj after) v (insert-node_self _ v m s) in
    elim (obj-cases u) [
      | inl (n, f) ↦ (n, a ∙ ap some f)
      | inr f ↦ absurd (ground (arith, f, inner_is_obj x t u v b))
    ]

module _ (ks js : List Text) (v : Value) (m : Fields) where
  -- Maps stay maps: an insertion may put more into a map of the tree, and never takes it away.
  pub insert_keeps_map :
      {n : Fields}
      → node (obj m) js ≡ some (obj n)
      → (n' : Fields) × (node (obj (insert m ks v).0) js ≡ some (obj n'))
  insert_keeps_map {n} h = elim (Bool-cases (insert m ks v).1) [
    | inr refused ↦ (n, rw (insert_refused ks v m refused) h)
    | inl stored ↦ elim (path-cases ks js) [
      | inl d ↦ (n, insert-node-diverge ks js v m d ∙ h)
      | inr (inl (t, e)) ↦ absurd (cc ((stored_not_above ks t v (obj n) m (rw e at h) stored).1))
      | inr (inr (x, t, e)) ↦ rw e (stored_inner js t x v m (rw e at stored))
    ]
  ]

  -- A value that is no map stays where a path of the tree leads to it, unless that is the inserted
  -- path.
  pub insert_keeps_leaf :
      {u : Value}
      → node (obj m) js ≡ some u
      → is_obj u ≡ false
      → ks ≢ js
      → node (obj (insert m ks v).0) js ≡ some u
  insert_keeps_leaf {u} h f ne = elim (Bool-cases (insert m ks v).1) [
    | inr refused ↦ rw (insert_refused ks v m refused) h
    | inl stored ↦ elim (path-cases ks js) [
      | inl d ↦ insert-node-diverge ks js v m d ∙ h
      | inr (inl (t, e)) ↦
          let (nil_t, g) = stored_not_above ks t v u m (rw e at h) stored in
          absurd (ne (sym (append-nil ks) ∙ sym (e ∙ ap (λ r. ks ++ r) nil_t)))
      | inr (inr (x, t, e)) ↦
          absurd (ground (arith, f, stored_below js t x v u m h (rw e at stored)))
    ]
  ]
