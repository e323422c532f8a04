-- ===== src/Groups/Environment.antt =====
-- internal/engine/external.go: the names of environment facts, and the disabled facts that the
-- environment names in FACTS_DISABLE or FACTER_DISABLE.
pub mod Tail
use facts.Base.{
  ℕ, zero, suc, ◌-◌, ◌<◌, ◌≡◌, refl, Bool, true, false, not, ◌&&◌, ◌||◌, List, [], ◌∷◌, Option,
  none, some, is_nil, all, length, lt→ltb, ltb, leb, ◌==◌, if◌then◌else◌,
}
use facts.Base.Text.{Text, text, text_eq, has_prefix, drop_prefix}
use facts.Base.Text.Split.{split, cut}
use facts.Base.Text.Unicode.{Unicode}

-- A run that returns, or that stops with a panic.
pub data Outcome {ℓ} (A : Type ℓ) : Type ℓ where
  returns : A → Outcome A
  panics : Outcome A

infixl 5 ◌>>=◌
abbrev pub ◌>>=◌ {ℓ κ} : {A : Type ℓ} {B : Type κ} → Outcome A → (A → Outcome B) → Outcome B
returns a >>= f = f a
panics >>= f = panics

abbrev word_byte : ℕ → Bool
word_byte c = c == b'_' || (leb b'0' c && leb c b'9') || (leb b'a' c && leb c b'z')

-- `isRubyWord`
unfoldable pub is_ruby_word : Text → Bool
is_ruby_word s = not (is_nil s) && all word_byte s

unfoldable pub drop : ℕ → Text → Text
drop zero s = s
drop (suc n) [] = []
drop (suc n) (c ∷ s) = drop n s

-- `name[len(name)-len(rest):]`, which panics where the offset is negative.
slice_tail : Text → Text → Outcome Text
unfolding drop
slice_tail name rest =
    if ltb (length name) (length rest)
    then panics
    else returns (drop (length name - length rest) name)

-- A fact's name, whether the prefix is native, and whether the variable names a fact.
pub record EnvironmentName : Type 0 where
  pub fact_name : Text
  pub native : Bool
  pub ok : Bool

abbrev pub prefixes : List (Text × Bool)
prefixes =
    (text "facts_", true)
    ∷ (text "facts", true)
    ∷ (text "facter_", false)
    ∷ (text "facter", false)
    ∷ []

prefix_loop : Text → Text → List (Text × Bool) → Outcome EnvironmentName
unfolding slice_tail is_ruby_word
prefix_loop name lower_name [] = returns (record { fact_name = []; native = false; ok = false })
prefix_loop name lower_name ((prefix, native) ∷ rows) =
    let rest = drop_prefix lower_name prefix in
    let tail = slice_tail name rest in
    let later = prefix_loop name lower_name rows in
    if has_prefix lower_name prefix
    then tail >>= (λ t. returns (record { fact_name = t; native = native; ok = is_ruby_word rest }))
    else later

-- `environmentFactName`
unfoldable pub environment_fact_name : Unicode → Text → Outcome EnvironmentName
unfolding prefix_loop
environment_fact_name u name = prefix_loop name (u.to_lower name) prefixes

keep_parts : Unicode → List Text → List Text
keep_parts u [] = []
keep_parts u (part ∷ parts) =
    let rest = keep_parts u parts in
    let entry = u.to_lower (u.trim_space part) in if is_nil entry then rest else entry ∷ rest

-- `splitDisableList`
unfoldable pub split_disable_list : Unicode → Text → List Text
unfolding keep_parts
split_disable_list u value = keep_parts u (split b',' value)

-- The values of the control variables that the loop has met: the native one and the compatible one.
pub record Controls : Type 0 where
  pub native_value : Option Text
  pub compat_value : Option Text

abbrev pub reserved_disable_control_name : Text
reserved_disable_control_name = text "disable"

note_control : Unicode → Controls → EnvironmentName → Text → Controls
note_control u c name value =
    if not name.ok || not (text_eq (u.to_lower name.fact_name) reserved_disable_control_name)
    then c
    else if name.native
    then record c { native_value = some value }
    else record c { compat_value = some value }

-- The loop of `environmentDisabledFacts`.
unfoldable pub control_loop : Unicode → Controls → List Text → Outcome Controls
unfolding environment_fact_name note_control
control_loop u c [] = returns c
control_loop u c (entry ∷ env) = elim (cut b'=' entry) [
  | none ↦ control_loop u c env
  | some (name, value) ↦ elim (environment_fact_name u name) [
    | panics ↦ panics
    | returns n ↦ control_loop u (note_control u c n value) env
  ]
]

control_entries : Unicode → Controls → List Text
control_entries u c = elim c.native_value [
  | some value ↦ split_disable_list u value
  | none ↦ elim c.compat_value [ some value ↦ split_disable_list u value | none ↦ [] ]
]

-- `environmentDisabledFacts`
unfoldable pub environment_disabled_facts : Unicode → List Text → Outcome (List Text)
unfolding control_loop control_entries
environment_disabled_facts u env =
    control_loop u (record { native_value = none; compat_value = none }) env
    >>= (λ c. returns (control_entries u c))
