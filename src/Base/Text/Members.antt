-- ===== src/Base/Text/Members.antt =====
-- Membership in lists that are joined or sorted.
use facts.Base.{true, ◌≡◌, refl, List, [], ◌∷◌, ◌++◌, arith, inl, inr}
use facts.Base.Tests.{Bool-cases}
use facts.Base.Text.{Text, mem_text}
use facts.Base.Text.Order.{sort_texts, insert_text, text_le}

pub mem-append_left :
    (t : Text) (xs ys : List Text) → mem_text t xs ≡ true → mem_text t (xs ++ ys) ≡ true
unfolding mem_text
mem-append_left t [] ys h = absurd (ground arith)
mem-append_left t (x ∷ xs) ys h = ground (arith, mem-append_left t xs ys)

pub mem-append_right :
    (t : Text) (xs ys : List Text) → mem_text t ys ≡ true → mem_text t (xs ++ ys) ≡ true
unfolding mem_text
mem-append_right t [] ys h = h
mem-append_right t (x ∷ xs) ys h = ground (arith, mem-append_right t xs ys)

mem-insert_text :
    (t x : Text) (xs : List Text) → mem_text t (insert_text x xs) ≡ mem_text t (x ∷ xs)
unfolding insert_text mem_text
mem-insert_text t x [] = refl
mem-insert_text t x (y ∷ xs) = elim (Bool-cases (text_le x y)) [
  | inl e ↦ rw (e, insert_text) refl
  | inr e ↦ rw (e, insert_text) (ground (arith, mem-insert_text t x xs))
]

pub mem-sort_texts : (t : Text) (xs : List Text) → mem_text t (sort_texts xs) ≡ mem_text t xs
unfolding sort_texts mem_text
mem-sort_texts t [] = refl
mem-sort_texts t (x ∷ xs) = ground (arith, mem-insert_text t x (sort_texts xs), mem-sort_texts t xs)
