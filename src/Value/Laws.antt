-- ===== src/Value/Laws.antt =====
-- The laws of the maps of `Value.antt`, in a form that has no side condition.
use facts.Base.{
  ◌≡◌, refl, ap, ◌∙◌, ◌⊎◌, inl, inr, false, none, some, Option-cases, arith, if◌then◌else◌,
}
use facts.Base.Text.{Text, text_eq, text_eq_iff}
use facts.Value.{Value, obj, is_obj, Fields, end, field, lookup, put, remove}

pub lookup-put :
    (k j : Text) (v : Value) (m : Fields)
    → lookup j (put k v m) ≡ (if text_eq k j then some v else lookup j m)
unfolding lookup put
lookup-put k j v end = refl
lookup-put k j v (field i w m) =
    ground (arith, text_eq_iff k j, text_eq_iff i k, text_eq_iff i j, lookup-put k j v m)

pub lookup-remove :
    (k j : Text) (m : Fields) → lookup j (remove k m) ≡ (if text_eq k j then none else lookup j m)
unfolding lookup remove
lookup-remove k j end = ground arith
lookup-remove k j (field i w m) =
    ground (arith, text_eq_iff k j, text_eq_iff i k, text_eq_iff i j, lookup-remove k j m)

-- Writing back what is there changes nothing.
pub put_self : (k : Text) (v : Value) (m : Fields) → lookup k m ≡ some v → put k v m ≡ m
unfolding lookup put
put_self k v end h = absurd (ground arith)
put_self k v (field i w m) h = ground (arith, put_self k v m)

-- A value is a map, or it is not.
pub obj-cases : (v : Value) → ((m : Fields) × (v ≡ obj m)) ⊎ (is_obj v ≡ false)
obj-cases (obj m) = inl (m, refl)
obj-cases _ = inr refl

-- What stands under a key: nothing, a map, or another value.
pub lookup-cases :
    (k : Text) (m : Fields)
    → (lookup k m ≡ none)
      ⊎ ((n : Fields) × (lookup k m ≡ some (obj n)))
      ⊎ ((v : Value) × (lookup k m ≡ some v) × (is_obj v ≡ false))
lookup-cases k m = elim (Option-cases (lookup k m)) [
  | inl e ↦ inl e
  | inr (v, e) ↦ elim (obj-cases v) [
    | inl (n, f) ↦ inr (inl (n, e ∙ ap some f))
    | inr f ↦ inr (inr (v, e, f))
  ]
]
