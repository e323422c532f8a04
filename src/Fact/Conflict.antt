-- ===== src/Fact/Conflict.antt =====
-- Where `insert` of internal/engine/fact.go refuses a path, described without the code.
use facts.Base.{
  false, ◌≡◌, inl, inr, ◌↔◌, refl, sym, ap, ◌∙◌, List, [], ◌∷◌, ◌++◌, none, some, arith, is_nil,
}
use mathlib.Core.Option.{some-injective}
use facts.Base.Text.{Text}
use facts.Value.{Value, obj, Fields, lookup, is_obj}
use facts.Value.Laws.{lookup-cases}
use facts.Fact.{insert}
use facts.Fact.Node.{node, node-some, node-none}
use facts.Fact.Insert.{insert-last, insert-absent, insert-map, insert-leaf, insert-end}

-- The path meets a value where it needs a map to go on, or ends at a map.
pub record Conflict (m : Fields) (ks : List Text) : Type 0 where
  pub front : List Text
  pub back : List Text
  pub value : Value
  pub splits : ks ≡ front ++ back
  pub meets : node (obj m) front ≡ some value
  pub clash : is_obj value ≡ is_nil back

Conflict-cons :
    (k : Text) {ks : List Text} (m : Fields) {n : Fields}
    → lookup k m ≡ some (obj n)
    → Conflict n ks
    → Conflict m (k ∷ ks)
Conflict-cons k m e c = record {
  front = k ∷ c.front;
  back = c.back;
  value = c.value;
  splits = ap (◌∷◌ k) c.splits;
  meets = node-some k c.front m e ∙ c.meets;
  clash = c.clash;
}

Conflict-here :
    (k : Text) (ks : List Text) (m : Fields) (v : Value)
    → lookup k m ≡ some v
    → is_obj v ≡ is_nil ks
    → Conflict m (k ∷ ks)
Conflict-here k ks m v e c = record {
  front = k ∷ [];
  back = ks;
  value = v;
  splits = refl;
  meets = node-some k [] m e ∙ unfold node in refl;
  clash = c;
}

pub insert-Conflict :
    (ks : List Text) (v : Value) (m : Fields) → (insert m ks v).1 ≡ false → Conflict m ks
insert-Conflict [] v m h = record {
  front = [];
  back = [];
  value = obj m;
  splits = refl;
  meets = unfold node in refl;
  clash = refl;
}
insert-Conflict (k ∷ []) v m h = elim (insert-last k v m) [
  | inl (n, e, f) ↦ Conflict-here k [] m (obj n) e refl
  | inr f ↦ absurd (ground (arith, f))
]
insert-Conflict (k ∷ j ∷ ks) v m h = elim (lookup-cases k m) [
  | inl e ↦ absurd (ground (arith, insert-absent k j ks v m e, insert-end j ks v))
  | inr (inl (n, e)) ↦
      Conflict-cons k m e (insert-Conflict (j ∷ ks) v n (ground (arith, insert-map k j ks v m e)))
  | inr (inr (w, e, f)) ↦ Conflict-here k (j ∷ ks) m w e f
]

insert_down :
    (k : Text) (ks : List Text) (v : Value) (m : Fields) {n : Fields}
    → lookup k m ≡ some (obj n)
    → (insert n ks v).1 ≡ false
    → (insert m (k ∷ ks) v).1 ≡ false
insert_down k [] v m e h = unfold insert in rw (e, insert) refl
insert_down k (j ∷ ks) v m e h = rw (insert-map k j ks v m e) h

pub node_leaf : (k : Text) (ks : List Text) (v : Value) → is_obj v ≡ false → node v (k ∷ ks) ≡ none
unfolding node
node_leaf k ks (obj m) h = cc
node_leaf k ks _ h = refl

insert_leaf_clash :
    (k : Text) (ps qs : List Text) (v u w : Value) (m : Fields)
    → lookup k m ≡ some u
    → is_obj u ≡ false
    → node u ps ≡ some w
    → is_obj w ≡ is_nil qs
    → (insert m (k ∷ (ps ++ qs)) v).1 ≡ false
insert_leaf_clash k [] [] v u w m e f h c = absurd (unfold node in ground (arith, some-injective h))
insert_leaf_clash k [] (q ∷ qs) v u w m e f h c = ground (arith, insert-leaf k q qs v m e f)
insert_leaf_clash k (p ∷ ps) qs v u w m e f h c = absurd (ground (arith, node_leaf p ps u f))

-- The converse, along the front of the path.
insert_clash :
    (ps qs : List Text) (v w : Value) (m : Fields)
    → node (obj m) ps ≡ some w
    → is_obj w ≡ is_nil qs
    → (insert m (ps ++ qs) v).1 ≡ false
insert_clash [] [] v w m h c = unfold insert in refl
insert_clash [] (q ∷ qs) v w m h c = absurd (unfold node in ground arith)
insert_clash (k ∷ ps) qs v w m h c = elim (lookup-cases k m) [
  | inl e ↦ absurd (ground (arith, node-none k ps m e))
  | inr (inl (n, e)) ↦
      insert_down k (ps ++ qs) v m e (insert_clash ps qs v w n (sym (node-some k ps m e) ∙ h) c)
  | inr (inr (u, e, f)) ↦ insert_leaf_clash k ps qs v u w m e f (sym (node-some k ps m e) ∙ h) c
]

-- `insert` refuses exactly where the path conflicts with the tree: at a value that is no map where
-- the path goes on, or at a map where the path ends.
pub insert_refused_iff :
    (ks : List Text) (v : Value) (m : Fields) → ((insert m ks v).1 ≡ false) ↔ Conflict m ks
insert_refused_iff ks v m = (
  insert-Conflict ks v m,
  λ c. rw c.splits (insert_clash c.front c.back v c.value m c.meets c.clash),
)
