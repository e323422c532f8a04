-- ===== src/Fact/Insert.antt =====
-- `insert` of internal/engine/fact.go against the nodes of the tree.
use facts.Base.{
  Bool, true, false, ◌≡◌, ◌⊎◌, inl, inr, refl, sym, ◌∙◌, List, [], ◌∷◌, none, some, arith,
  if◌then◌else◌, Bool-cases,
}
use facts.Base.Text.{Text, text_eq, text_eq_iff}
use facts.Value.{Value, obj, Fields, end, lookup, put, is_obj}
use facts.Value.Laws.{put_self, lookup-cases}
use facts.Fact.{insert}
use facts.Fact.Node.{node, node-put_self, node-put_ne, node-some, node-none}

-- The paths part at some key.
unfoldable pub diverge : List Text → List Text → Bool
diverge (k ∷ ks) (j ∷ js) = if text_eq k j then diverge ks js else true
diverge _ _ = false

module _ (k j : Text) (ks : List Text) (v : Value) (m : Fields) where
  pub insert-absent :
      lookup k m ≡ none
      → insert m (k ∷ j ∷ ks) v
        ≡ (put k (obj (insert end (j ∷ ks) v).0) m, (insert end (j ∷ ks) v).1)
  unfolding insert
  insert-absent h = rw (h, insert) refl

  pub insert-map :
      {n : Fields}
      → lookup k m ≡ some (obj n)
      → insert m (k ∷ j ∷ ks) v ≡ (put k (obj (insert n (j ∷ ks) v).0) m, (insert n (j ∷ ks) v).1)
  unfolding insert
  insert-map h = rw (h, insert) refl

  pub insert-leaf :
      {w : Value} → lookup k m ≡ some w → is_obj w ≡ false → insert m (k ∷ j ∷ ks) v ≡ (m, false)
  unfolding insert
  insert-leaf h f = ground arith

pub insert-last :
    (k : Text) (v : Value) (m : Fields)
    → ((n : Fields) × (lookup k m ≡ some (obj n)) × (insert m (k ∷ []) v ≡ (m, false)))
      ⊎ (insert m (k ∷ []) v ≡ (put k v m, true))
unfolding insert
insert-last k v m = elim (lookup-cases k m) [
  | inl e ↦ inr (rw (e, insert) refl)
  | inr (inl (n, e)) ↦ inl (n, e, rw (e, insert) refl)
  | inr (inr (w, e, f)) ↦ inr (ground arith)
]

-- Into an empty map every path goes.
pub insert-end : (k : Text) (ks : List Text) (v : Value) → (insert end (k ∷ ks) v).1 ≡ true
unfolding insert lookup
insert-end k [] v = refl
insert-end k (j ∷ ks) v = insert-end j ks v

-- A refused insertion leaves the map as it was.
pub insert_refused :
    (ks : List Text) (v : Value) (m : Fields) → (insert m ks v).1 ≡ false → (insert m ks v).0 ≡ m
insert_refused [] v m h = unfold insert in refl
insert_refused (k ∷ []) v m h = elim (insert-last k v m) [
  | inl (n, e, f) ↦ ground (arith, f)
  | inr f ↦ ground (arith, f)
]
insert_refused (k ∷ j ∷ ks) v m h = elim (lookup-cases k m) [
  | inl e ↦ absurd (ground (arith, insert-absent k j ks v m e, insert-end j ks v))
  | inr (inl (n, e)) ↦
      ground (arith, insert-map k j ks v m e, insert_refused (j ∷ ks) v n, put_self k (obj n) m)
  | inr (inr (w, e, f)) ↦ ground (arith, insert-leaf k j ks v m e f)
]

-- After an insertion that is not refused, the path leads to the value.
pub insert-node_self :
    (ks : List Text) (v : Value) (m : Fields)
    → (insert m ks v).1 ≡ true
    → node (obj (insert m ks v).0) ks ≡ some v
insert-node_self [] v m h = unfold insert in ground arith
insert-node_self (k ∷ []) v m h = elim (insert-last k v m) [
  | inl (n, e, f) ↦ ground (arith, f)
  | inr f ↦ rw f (node-put_self k [] v m ∙ unfold node in refl)
]
insert-node_self (k ∷ j ∷ ks) v m h = elim (lookup-cases k m) [
  | inl e ↦
      rw (insert-absent k j ks v m e)
        (node-put_self k (j ∷ ks) _ m ∙ insert-node_self (j ∷ ks) v end (insert-end j ks v))
  | inr (inl (n, e)) ↦ rw (insert-map k j ks v m e) (
      node-put_self k (j ∷ ks) _ m
      ∙ insert-node_self (j ∷ ks) v n (ground (arith, insert-map k j ks v m e)))
  | inr (inr (w, e, f)) ↦ ground (arith, insert-leaf k j ks v m e f)
]

diverge-node_end : (ks js : List Text) → diverge ks js ≡ true → node (obj end) js ≡ none
unfolding diverge node lookup
diverge-node_end [] (j ∷ js) h = refl
diverge-node_end (k ∷ ks) (j ∷ js) h = refl
diverge-node_end [] [] h = ground arith
diverge-node_end (k ∷ ks) [] h = ground arith

module _ (k j : Text) (ks js : List Text) (v : Value) (m : Fields) where
  pub node-insert_absent :
      lookup k m ≡ none
      → node (obj (insert m (k ∷ j ∷ ks) v).0) (k ∷ js) ≡ node (obj (insert end (j ∷ ks) v).0) js
  node-insert_absent e = rw (insert-absent k j ks v m e) (node-put_self k js _ m)

  pub node-insert_map :
      {n : Fields}
      → lookup k m ≡ some (obj n)
      → node (obj (insert m (k ∷ j ∷ ks) v).0) (k ∷ js) ≡ node (obj (insert n (j ∷ ks) v).0) js
  node-insert_map e = rw (insert-map k j ks v m e) (node-put_self k js _ m)

-- A path that parts from the inserted one leads where it led.
pub insert-node-diverge :
    (ks js : List Text) (v : Value) (m : Fields)
    → diverge ks js ≡ true
    → node (obj (insert m ks v).0) js ≡ node (obj m) js
insert-node-diverge [] js v m h = unfold diverge in ground arith
insert-node-diverge (k ∷ ks) [] v m h = unfold diverge in ground arith
insert-node-diverge (k ∷ []) (j ∷ js) v m h = elim (insert-last k v m) [
  | inl (n, e, f) ↦ rw f refl
  | inr f ↦ rw f (node-put_ne k j js v m (unfold diverge in ground arith))
]
insert-node-diverge (k ∷ i ∷ ks) (j ∷ js) v m h = elim (Bool-cases (text_eq k j)) [
  | inl same ↦
      let p = (text_eq_iff k j).0 same in
      let deeper : diverge (i ∷ ks) js ≡ true = unfold diverge in ground arith in
      elim (lookup-cases k m) [
        | inl e ↦ rw (← p) (
            node-insert_absent k i ks js v m e
            ∙ insert-node-diverge (i ∷ ks) js v end deeper
            ∙ diverge-node_end (i ∷ ks) js deeper
            ∙ sym (node-none k js m e))
        | inr (inl (n, e)) ↦ rw (← p) (
            node-insert_map k i ks js v m e
            ∙ insert-node-diverge (i ∷ ks) js v n deeper
            ∙ sym (node-some k js m e))
        | inr (inr (w, e, f)) ↦ rw (insert-leaf k i ks v m e f) refl
      ]
  | inr apart ↦ elim (lookup-cases k m) [
    | inl e ↦ rw (insert-absent k i ks v m e) (node-put_ne k j js _ m apart)
    | inr (inl (n, e)) ↦ rw (insert-map k i ks v m e) (node-put_ne k j js _ m apart)
    | inr (inr (w, e, f)) ↦ rw (insert-leaf k i ks v m e f) refl
  ]
]
