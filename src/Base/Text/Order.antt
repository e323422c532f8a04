-- ===== src/Base/Text/Order.antt =====
-- The order of Go strings, and `sort.Strings` on the keys of a map.
use Prim.Native.Nat.{compare, Ordering}
use mathlib.Core.Bool.{Bool, true, false}
use mathlib.Core.List.{List, [], ◌∷◌}
use facts.Base.Tests.{if◌then◌else◌}
use facts.Base.Text.{Text}

-- `a <= b` on strings: byte by byte, a prefix first
unfoldable pub text_le : Text → Text → Bool
text_le [] b = true
text_le (x ∷ a) [] = false
text_le (x ∷ a) (y ∷ b) =
    let rest = text_le a b in
    elim (compare x y) [ Ordering.lt ↦ true | Ordering.eq ↦ rest | Ordering.gt ↦ false ]

unfoldable pub insert_text : Text → List Text → List Text
unfolding text_le
insert_text t [] = t ∷ []
insert_text t (x ∷ xs) = let rest = insert_text t xs in if text_le t x then t ∷ x ∷ xs else x ∷ rest

-- `sort.Strings`: by insertion, which for a total order gives the one sorted permutation
unfoldable pub sort_texts : List Text → List Text
unfolding insert_text
sort_texts [] = []
sort_texts (t ∷ ts) = insert_text t (sort_texts ts)
