-- ===== src/Groups/Prune/Dig.antt =====
-- `pruneDottedValue` of internal/engine/groups.go against `digValue`, which also enters slices and maps
-- with keys of any type.
use facts.Base.{
  Bool, true, false, ◌≡◌, inl, inr, refl, sym, ◌∙◌, List, [], ◌∷◌, none, some, arith, Option-cases,
  if◌then◌else◌,
}
use facts.Base.Text.{Text, text_eq_self}
use facts.Value.{Value, obj, Fields, end, field, lookup, put, remove, is_obj}
use facts.Value.Laws.{lookup-put, lookup-remove, obj-cases}
use facts.Fact.{dig_value}
use facts.Groups.{put_child, prune_dotted_value}
use facts.Groups.Prune.{prune-some, prune-none, prune-leaf}

-- A path leads into a value that is no map with string keys, with parts of the path left.
unfoldable pub leaves_maps : Value → List Text → Bool
leaves_maps v [] = false
leaves_maps (obj m) (k ∷ ks) = elim (lookup k m) [ none ↦ false | some v ↦ leaves_maps v ks ]
leaves_maps _ (k ∷ ks) = true

module _ (k : Text) (ks : List Text) (m : Fields) where
  dig-some : {v : Value} → lookup k m ≡ some v → dig_value (obj m) (k ∷ ks) ≡ dig_value v ks
  unfolding dig_value
  dig-some h = rw (h, dig_value) refl

  dig-none : lookup k m ≡ none → dig_value (obj m) (k ∷ ks) ≡ none
  unfolding dig_value
  dig-none h = rw (h, dig_value) refl

dig-put_self :
    (k : Text) (ks : List Text) (v : Value) (m : Fields)
    → dig_value (obj (put k v m)) (k ∷ ks) ≡ dig_value v ks
dig-put_self k ks v m =
    dig-some k ks (put k v m) (ground (arith, lookup-put k k v m, text_eq_self k))

dig-remove_self :
    (k : Text) (ks : List Text) (m : Fields) → dig_value (obj (remove k m)) (k ∷ ks) ≡ none
dig-remove_self k ks m =
    dig-none k ks (remove k m) (ground (arith, lookup-remove k k m, text_eq_self k))

dig_end : (j : Text) (ks : List Text) → dig_value (obj end) (j ∷ ks) ≡ none
unfolding dig_value lookup
dig_end j ks = refl

-- Below the key of a child stands the child, also where an empty one is taken out.
dig-put_child_self :
    (k j : Text) (ks : List Text) (v : Value) (m : Fields)
    → dig_value (put_child k v m) (k ∷ j ∷ ks) ≡ dig_value v (j ∷ ks)
unfolding put_child
dig-put_child_self k j ks (obj end) m =
    dig-remove_self k (j ∷ ks) (put k (obj end) m) ∙ sym (dig_end j ks)
dig-put_child_self k j ks (obj (field i w n)) m = dig-put_self k (j ∷ ks) (obj (field i w n)) m
dig-put_child_self k j ks v m = dig-put_self k (j ∷ ks) v m

leaves-leaf :
    (v : Value) (k : Text) (ks : List Text) → is_obj v ≡ false → leaves_maps v (k ∷ ks) ≡ true
unfolding leaves_maps
leaves-leaf (obj m) k ks h = cc
leaves-leaf _ k ks h = refl

leaves_one : (k : Text) (m : Fields) → leaves_maps (obj m) (k ∷ []) ≡ false
unfolding leaves_maps
leaves_one k m = elim (Option-cases (lookup k m)) [
  | inl e ↦ rw (e, leaves_maps) refl
  | inr (v, e) ↦ rw (e, leaves_maps) refl
]

leaves-none :
    (k : Text) (ks : List Text) (m : Fields)
    → lookup k m ≡ none
    → leaves_maps (obj m) (k ∷ ks) ≡ false
unfolding leaves_maps
leaves-none k ks m h = rw (h, leaves_maps) refl

leaves-some :
    (k : Text) (ks : List Text) (m : Fields) {v : Value}
    → lookup k m ≡ some v
    → leaves_maps (obj m) (k ∷ ks) ≡ leaves_maps v ks
unfolding leaves_maps
leaves-some k ks m h = rw (h, leaves_maps) refl

-- After the pruning of a path that is not empty, nothing is found at it where it stays in maps with
-- string keys; where it leads into a slice or another value, what was found at it is found still.
pub dig_value-prune_self :
    (v : Value) (k : Text) (ks : List Text)
    → dig_value (prune_dotted_value v (k ∷ ks)) (k ∷ ks)
      ≡ (if leaves_maps v (k ∷ ks) then dig_value v (k ∷ ks) else none)
dig_value-prune_self v k [] = elim (obj-cases v) [
  | inr f ↦ rw (prune-leaf v k [] f, leaves-leaf v k [] f) refl
  | inl (m, e) ↦ rw (e, leaves_one k m) (unfold prune_dotted_value in dig-remove_self k [] m)
]
dig_value-prune_self v k (j ∷ ks) = elim (obj-cases v) [
  | inr f ↦ rw (prune-leaf v k (j ∷ ks) f, leaves-leaf v k (j ∷ ks) f) refl
  | inl (m, e) ↦ rw e (elim (Option-cases (lookup k m)) [
    | inl h ↦ rw (prune-none k j ks m h, dig-none k (j ∷ ks) m h, leaves-none k (j ∷ ks) m h) refl
    | inr (child, h) ↦
        rw (prune-some k j ks m h, dig-some k (j ∷ ks) m h, leaves-some k (j ∷ ks) m h)
          (dig-put_child_self k j ks _ m ∙ dig_value-prune_self child j ks)
  ])
]
