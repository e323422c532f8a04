-- ===== src/Base/Text/Unicode.antt =====
-- The functions of Go's package `strings` whose results rest on the tables of Unicode: a parameter
-- of the model. `ascii` is them on ASCII texts, for tests.
use facts.Base.{ℕ, ◌+◌, Bool, ◌&&◌, ◌||◌, List, [], ◌∷◌, map, leb, ◌==◌, if◌then◌else◌}
use facts.Base.Text.{Text, text_eq}

pub record Unicode : Type 0 where
  -- `strings.ToLower`
  pub to_lower : Text → Text
  -- `strings.EqualFold`
  pub equal_fold : Text → Text → Bool
  -- `strings.TrimSpace`
  pub trim_space : Text → Text
  -- the runes of a `range` over a string, each encoded again
  pub runes : Text → List Text

abbrev lower_byte : ℕ → ℕ
lower_byte c = if leb b'A' c && leb c b'Z' then c + 32 else c

abbrev is_space : ℕ → Bool
is_space c = c == b' ' || (leb 9 c && leb c 13)

trim_left : Text → Text
trim_left [] = []
trim_left (c ∷ s) = let rest = trim_left s in if is_space c then rest else c ∷ s

trim_right : Text → Text
trim_right [] = []
trim_right (c ∷ s) = elim (trim_right s) [
  | [] ↦ if is_space c then [] else c ∷ []
  | d ∷ r ↦ c ∷ d ∷ r
]

unfoldable pub ascii : Unicode
unfolding trim_left trim_right text_eq
ascii = record {
  to_lower = map lower_byte;
  equal_fold = λ a b. text_eq (map lower_byte a) (map lower_byte b);
  trim_space = λ s. trim_right (trim_left s);
  runes = map (λ c. c ∷ []);
}
