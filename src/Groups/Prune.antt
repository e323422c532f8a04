-- ===== src/Groups/Prune.antt =====
-- `pruneDottedValue` of internal/engine/groups.go against the nodes of the value.
pub mod Dig
use facts.Base.{
  true, false, ◌≡◌, ◌≢◌, inl, inr, refl, sym, ◌∙◌, List, [], ◌∷◌, none, some, arith, Option-cases,
  Bool-cases,
}
use facts.Base.Text.{Text, text_eq, text_eq_iff, text_eq_self}
use facts.Value.{Value, obj, Fields, end, field, lookup, put, remove, is_obj}
use facts.Value.Laws.{lookup-remove, obj-cases}
use facts.Fact.Node.{node, node-some, node-none, node-put_self, node-put_ne}
use facts.Fact.Conflict.{node_leaf}
use facts.Fact.Insert.{diverge}
use facts.Groups.{put_child, prune_dotted_value}

node-remove_self :
    (k : Text) (ks : List Text) (m : Fields) → node (obj (remove k m)) (k ∷ ks) ≡ none
node-remove_self k ks m =
    node-none k ks (remove k m) (ground (arith, lookup-remove k k m, text_eq_self k))

node-remove_ne :
    (k j : Text) (ks : List Text) (m : Fields)
    → text_eq k j ≡ false
    → node (obj (remove k m)) (j ∷ ks) ≡ node (obj m) (j ∷ ks)
unfolding node
node-remove_ne k j ks m h = ground (arith, lookup-remove k j m)

node_end : (j : Text) (ks : List Text) → node (obj end) (j ∷ ks) ≡ none
unfolding node lookup
node_end j ks = refl

-- Below the key of a child stands the child, also where an empty one is taken out.
node-put_child_self :
    (k j : Text) (ks : List Text) (v : Value) (m : Fields)
    → node (put_child k v m) (k ∷ j ∷ ks) ≡ node v (j ∷ ks)
unfolding put_child
node-put_child_self k j ks (obj end) m =
    node-remove_self k (j ∷ ks) (put k (obj end) m) ∙ sym (node_end j ks)
node-put_child_self k j ks (obj (field i w n)) m = node-put_self k (j ∷ ks) (obj (field i w n)) m
node-put_child_self k j ks v m = node-put_self k (j ∷ ks) v m

node-put_child_ne :
    (k j : Text) (ks : List Text) (v : Value) (m : Fields)
    → text_eq k j ≡ false
    → node (put_child k v m) (j ∷ ks) ≡ node (obj m) (j ∷ ks)
unfolding put_child
node-put_child_ne k j ks (obj end) m h =
    node-remove_ne k j ks (put k (obj end) m) h ∙ node-put_ne k j ks (obj end) m h
node-put_child_ne k j ks (obj (field i w n)) m h = node-put_ne k j ks (obj (field i w n)) m h
node-put_child_ne k j ks v m h = node-put_ne k j ks v m h

module _ (k j : Text) (ks : List Text) (m : Fields) where
  pub prune-some :
      {child : Value}
      → lookup k m ≡ some child
      → prune_dotted_value (obj m) (k ∷ j ∷ ks) ≡ put_child k (prune_dotted_value child (j ∷ ks)) m
  unfolding prune_dotted_value
  prune-some h = rw (h, prune_dotted_value) refl

  pub prune-none : lookup k m ≡ none → prune_dotted_value (obj m) (k ∷ j ∷ ks) ≡ obj m
  unfolding prune_dotted_value
  prune-none h = rw (h, prune_dotted_value) refl

pub prune-leaf :
    (v : Value) (k : Text) (ks : List Text) → is_obj v ≡ false → prune_dotted_value v (k ∷ ks) ≡ v
unfolding prune_dotted_value
prune-leaf (obj m) k ks h = cc
prune-leaf _ k ks h = refl

node-put_child_below :
    (k : Text) (js : List Text) (v : Value) (m : Fields)
    → js ≢ []
    → node (put_child k v m) (k ∷ js) ≡ node v js
node-put_child_below k [] v m h = absurd (h refl)
node-put_child_below k (j ∷ js) v m h = node-put_child_self k j js v m

diverge-ne_nil : (ks js : List Text) → diverge ks js ≡ true → js ≢ []
unfolding diverge
diverge-ne_nil [] [] h e = cc
diverge-ne_nil (k ∷ ks) [] h e = cc
diverge-ne_nil [] (j ∷ js) h e = cc
diverge-ne_nil (k ∷ ks) (j ∷ js) h e = cc

-- A path that parts from the pruned one leads where it led.
pub node-prune_diverge :
    (ks js : List Text) (v : Value)
    → diverge ks js ≡ true
    → node (prune_dotted_value v ks) js ≡ node v js
node-prune_diverge [] js v h = unfold prune_dotted_value in refl
node-prune_diverge (k ∷ ks) [] v h = absurd (unfold diverge in ground arith)
node-prune_diverge (k ∷ []) (j ∷ js) v h = elim (obj-cases v) [
  | inr f ↦ rw (prune-leaf v k [] f) refl
  | inl (m, e) ↦
      rw e (unfold prune_dotted_value in node-remove_ne k j js m (unfold diverge in ground arith))
]
node-prune_diverge (k ∷ i ∷ ks) (j ∷ js) v h = elim (obj-cases v) [
  | inr f ↦ rw (prune-leaf v k (i ∷ ks) f) refl
  | inl (m, e) ↦ rw e (elim (Option-cases (lookup k m)) [
    | inl l ↦ rw (prune-none k i ks m l) refl
    | inr (child, l) ↦ rw (prune-some k i ks m l) (elim (Bool-cases (text_eq k j)) [
      | inr apart ↦ node-put_child_ne k j js _ m apart
      | inl same ↦
          let deeper : diverge (i ∷ ks) js ≡ true = unfold diverge in ground arith in
          rw (← (text_eq_iff k j).0 same) (
            node-put_child_below k js _ m (diverge-ne_nil (i ∷ ks) js deeper)
            ∙ node-prune_diverge (i ∷ ks) js child deeper
            ∙ sym (node-some k js m l))
    ])
  ])
]
