-- ===== src/Fact/Node.antt =====
-- The nodes of a structured tree, independent of the code: where a path of map keys leads.
use facts.Base.{inl, inr, false, ◌≡◌, refl, List, [], ◌∷◌, Option, none, some, arith, Option-cases}
use facts.Base.Text.{Text, text_eq, text_eq_self}
use facts.Value.{Value, obj, Fields, lookup, put}
use facts.Value.Laws.{lookup-put}
use facts.Fact.{dig_value}

-- Through maps only; no slice is entered.
unfoldable pub node : Value → List Text → Option Value
node v [] = some v
node (obj m) (k ∷ ks) = elim (lookup k m) [ none ↦ none | some v ↦ node v ks ]
node _ (k ∷ ks) = none

-- What `digValue` finds at a path of map keys.
pub dig_value-node : (v w : Value) (ks : List Text) → node v ks ≡ some w → dig_value v ks ≡ some w
unfolding node dig_value
dig_value-node v w [] h = h
dig_value-node (obj m) w (k ∷ ks) h = elim (Option-cases (lookup k m)) [
  | inl e ↦ ground arith
  | inr (u, e) ↦ ground (arith, dig_value-node u w ks)
]
dig_value-node _ w (k ∷ ks) h = ground arith

pub node-some :
    (k : Text) (ks : List Text) (m : Fields) {v : Value}
    → lookup k m ≡ some v
    → node (obj m) (k ∷ ks) ≡ node v ks
unfolding node
node-some k ks m h = rw (h, node) refl

pub node-none :
    (k : Text) (ks : List Text) (m : Fields) → lookup k m ≡ none → node (obj m) (k ∷ ks) ≡ none
unfolding node
node-none k ks m h = rw (h, node) refl

pub node-put_self :
    (k : Text) (ks : List Text) (v : Value) (m : Fields)
    → node (obj (put k v m)) (k ∷ ks) ≡ node v ks
node-put_self k ks v m =
    node-some k ks (put k v m) (ground (arith, lookup-put k k v m, text_eq_self k))

pub node-put_ne :
    (k j : Text) (ks : List Text) (v : Value) (m : Fields)
    → text_eq k j ≡ false
    → node (obj (put k v m)) (j ∷ ks) ≡ node (obj m) (j ∷ ks)
unfolding node
node-put_ne k j ks v m h = ground (arith, lookup-put k j v m)
