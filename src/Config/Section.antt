-- ===== src/Config/Section.antt =====
-- `configSection` of internal/engine/config.go: what stands in the braces of a named section. The
-- loops over an index run on fuel.
pub mod Termination
pub mod Braces
pub mod Opening
pub mod Matching
use facts.Base.{
  ℕ, zero, suc, ◌+◌, ◌-◌, Bool, true, false, not, ◌&&◌, ◌||◌, List, [], ◌∷◌, Option, none, some,
  length, take, get_elem?, ltb, leb, ◌==◌, if◌then◌else◌,
}
use facts.Base.Text.{Text}
use facts.Base.Text.Unicode.{Unicode}
use facts.Groups.Environment.{drop}

-- A result that waits for one that may be out of fuel.
abbrev pub chain {ℓ κ} : {A : Type ℓ} {B : Type κ} → Option A → (A → Option B) → Option B
chain none f = none
chain (some a) f = f a

abbrev pub is_skipped : ℕ → Bool
is_skipped c = c == b' ' || c == b'\t' || c == b'\r' || c == b'\n' || c == b','

-- The loop of a comment; `none` is the end of the fuel, here and below
unfoldable skip_comment : ℕ → Text → ℕ → Option ℕ
skip_comment zero content i = none
skip_comment (suc fuel) content i =
    let rest = skip_comment fuel content (suc i) in
    elim (get_elem? content i) [ none ↦ some i | some c ↦ if c == b'\n' then some i else rest ]

-- The loop of a string, behind its first quote.
unfoldable skip_string : ℕ → Text → ℕ → Option ℕ
skip_string zero content i = none
skip_string (suc fuel) content i =
    let escaped = skip_string fuel content (i + 2) in
    let rest = skip_string fuel content (suc i) in
    elim (get_elem? content i) [
      | none ↦ some i
      | some c ↦ if c == b'\\' then escaped else if c == b'"' then some (suc i) else rest
    ]

-- Fuel for one pass over a content.
abbrev pub enough : Text → ℕ
enough content = suc (length content)

unfoldable skip_loop : ℕ → Text → ℕ → Option ℕ
unfolding skip_comment skip_string
skip_loop zero content i = none
skip_loop (suc fuel) content i =
    let rest = skip_loop fuel content (suc i) in
    let comment = chain (skip_comment (enough content) content i) (skip_loop fuel content) in
    let string = chain (skip_string (enough content) content (suc i)) (skip_loop fuel content) in
    elim (get_elem? content i) [
      | none ↦ some i
      | some c ↦
          if is_skipped c
          then rest
          else if c == b'#'
          then comment
          else if c == b'"'
          then string
          else some i
    ]

-- `skipConfigSpaceCommentsAndStrings`
unfoldable pub skip_config_space_comments_and_strings : Text → ℕ → Option ℕ
unfolding skip_loop
skip_config_space_comments_and_strings content i = skip_loop (enough content) content i

abbrev name_byte : ℕ → Bool
name_byte b =
    b == b'_'
    || b == b'-'
    || b == b'.'
    || (leb b'0' b && leb b b'9')
    || (leb b'A' b && leb b b'Z')
    || (leb b'a' b && leb b b'z')

-- Whether a byte that may be there can be part of a name.
in_name : Option ℕ → Bool
in_name none = false
in_name (some b) = name_byte b

byte_before : Text → ℕ → Option ℕ
byte_before content zero = none
byte_before content (suc pos) = get_elem? content pos

-- `configNameAt`
unfoldable pub config_name_at : Unicode → Text → ℕ → Text → Bool
unfolding in_name byte_before drop
config_name_at u content pos name =
    not (in_name (byte_before content pos))
    && not (ltb (length content - pos) (length name))
    && u.equal_fold (take (length name) (drop pos content)) name
    && not (in_name (get_elem? content (pos + length name)))

-- Where a search for the opening brace ends.
pub data Found : Type 0 where
  out_of_fuel : Found
  not_found : Found
  found : ℕ → Found

-- The brace behind a name and its `:` or `=`: the `some none` of a name without one.
unfoldable brace_if : Text → ℕ → Option ℕ
brace_if content j = elim (get_elem? content j) [
  | none ↦ none
  | some c ↦ if c == b'{' then some j else none
]

unfoldable brace_behind : Text → ℕ → Option (Option ℕ)
unfolding skip_config_space_comments_and_strings brace_if
brace_behind content k = chain (skip_config_space_comments_and_strings content k) (λ j.
    elim (get_elem? content j) [
      | none ↦ some none
      | some c ↦
          if c == b':' || c == b'='
          then chain (skip_config_space_comments_and_strings content (suc j))
              (λ j2. some (brace_if content j2))
          else some none
    ])

unfoldable found_behind : Option (Option ℕ) → Found → Found
found_behind none rest = out_of_fuel
found_behind (some none) rest = rest
found_behind (some (some j)) rest = found j

-- What the loop makes of the byte at `k`: `next` goes on from a depth and an index.
unfoldable open_byte : Unicode → Text → Text → ℕ → ℕ → (ℕ → ℕ → Found) → ℕ → Found
unfolding brace_behind config_name_at found_behind
open_byte u content name depth k next c =
    if c == b'{'
    then next (suc depth) (suc k)
    else if c == b'}'
    then next (depth - 1) (suc k)
    else if not (depth == 0)
    then next depth (suc k)
    else if not (config_name_at u content k name)
    then next depth (suc k)
    else found_behind (brace_behind content (k + length name)) (next depth (suc k))

-- A round, with the index behind what is skipped.
unfoldable open_round : Unicode → Text → Text → ℕ → (ℕ → ℕ → Found) → Option ℕ → Found
unfolding open_byte
open_round u content name depth next none = out_of_fuel
open_round u content name depth next (some k) = elim (get_elem? content k) [
  | none ↦ not_found
  | some c ↦ open_byte u content name depth k next c
]

unfoldable open_loop : Unicode → ℕ → Text → Text → ℕ → ℕ → Found
unfolding open_round skip_config_space_comments_and_strings
open_loop u zero content name depth i = out_of_fuel
open_loop u (suc fuel) content name depth i =
    open_round u content name depth (open_loop u fuel content name)
      (skip_config_space_comments_and_strings content i)

-- `configSectionOpenBrace`
unfoldable pub config_section_open_brace : Unicode → Text → Text → Found
unfolding open_loop
config_section_open_brace u content name = open_loop u (enough content) content name 0 0

-- The loop that closes the section, over what is at index `i`; the depth is at least 1 behind the
-- opening brace
unfoldable pub close_loop : ℕ → ℕ → Text → Option ℕ
close_loop depth i [] = none
close_loop depth i (c ∷ s) =
    let deeper = close_loop (suc depth) (suc i) s in
    let back = close_loop (depth - 1) (suc i) s in
    let rest = close_loop depth (suc i) s in
    if c == b'{' then deeper else if c == b'}' then if depth == 1 then some i else back else rest

-- `content[open+1:i]`, or `content[open+1:]`
unfoldable section_text : Text → ℕ → Option ℕ → Text
unfolding drop
section_text content open_at none = drop (suc open_at) content
section_text content open_at (some i) = take (i - suc open_at) (drop (suc open_at) content)

-- What is behind the search for the opening brace; `none` is the end of the fuel.
unfoldable section_of : Text → Found → Option Text
unfolding close_loop section_text drop
section_of content out_of_fuel = none
section_of content not_found = some []
section_of content (found i) = some (section_text content i (close_loop 0 i (drop i content)))

-- `configSection`
unfoldable pub config_section : Unicode → Text → Text → Option Text
unfolding config_section_open_brace section_of
config_section u content name = section_of content (config_section_open_brace u content name)
