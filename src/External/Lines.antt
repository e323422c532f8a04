-- ===== src/External/Lines.antt =====
-- `parseKeyValueFacts` of internal/engine/external.go: facts as lines `name=value`. The scanner of Go's
-- `bufio` stops with an error at a line that fills its buffer.
pub mod RoundTrip
use facts.Base.{
  ℕ, ◌^◌, Bool, true, false, not, ◌&&◌, ◌||◌, List, [], ◌∷◌, ◌++◌, Option, none, some, length, ltb,
  is_nil, ◌==◌, if◌then◌else◌,
}
use facts.Base.Text.{Text, text, has_byte, has_prefix, drop_prefix}
use facts.Base.Text.Split.{split, cut}
use facts.Base.Text.Unicode.{Unicode}
use facts.Value.{str}
use facts.Fact.{ResolvedFact, external}

-- `maxExternalFactBytes`
abbrev pub max_bytes : ℕ
max_bytes = 1048576

-- The end of a line without `\r`, as `bufio.ScanLines` drops it.
unfoldable pub drop_return : Text → Text
drop_return [] = []
drop_return (c ∷ []) = if c == b'\r' then [] else c ∷ []
drop_return (c ∷ d ∷ s) = c ∷ drop_return (d ∷ s)

-- The lines of a content: what is behind the last newline counts where it is not empty.
unfoldable pub drop_last_empty : List Text → List Text
drop_last_empty [] = []
drop_last_empty (l ∷ []) = if is_nil l then [] else l ∷ []
drop_last_empty (l ∷ m ∷ lines) = l ∷ drop_last_empty (m ∷ lines)

unfoldable pub scan_lines : Text → List Text
unfolding drop_last_empty split
scan_lines content = drop_last_empty (split b'\n' content)

abbrev byte_order_mark : Text
byte_order_mark = 239 ∷ 187 ∷ 191 ∷ []

drop_mark : Text → Text
drop_mark s = if has_prefix s byte_order_mark then drop_prefix s byte_order_mark else s

-- `strings.ToLower(strings.TrimPrefix(strings.TrimSpace(name), "\ufeff"))`
unfoldable pub line_name : Unicode → Text → Text
unfolding drop_mark
line_name u name = u.to_lower (drop_mark (u.trim_space name))

-- What a line is: no fact, a fact, or the error of a null byte.
pub data KeyValue : Type 0 where
  no_fact : KeyValue
  null_byte : KeyValue
  pair : Text → Text → KeyValue

check_pair : Text → Text → KeyValue
check_pair name value =
    if is_nil name
    then no_fact
    else if has_byte 0 name || has_byte 0 value
    then null_byte
    else pair name value

unfoldable pub key_value : Unicode → Text → KeyValue
unfolding check_pair line_name
key_value u line = elim (cut b'=' line) [
  | none ↦ no_fact
  | some (name, value) ↦ if is_nil value then no_fact else check_pair (line_name u name) value
]

add_fact : Text → Text → Option (List ResolvedFact) → Option (List ResolvedFact)
add_fact name value none = none
add_fact name value (some facts) =
    some (
      record { name = name; value = str value; user_query = []; type = external; file = [] }
      ∷ facts)

-- The loop; `none` is an error
unfoldable pub key_value_loop : Unicode → List Text → Option (List ResolvedFact)
unfolding key_value drop_return add_fact
key_value_loop u [] = some []
key_value_loop u (line ∷ lines) =
    let rest = key_value_loop u lines in
    if not (ltb (length line) max_bytes) then none else elim (key_value u (drop_return line)) [
      | no_fact ↦ rest
      | null_byte ↦ none
      | pair name value ↦ add_fact name value rest
    ]

-- `parseKeyValueFacts`
unfoldable pub parse_key_value_facts : Unicode → Text → Option (List ResolvedFact)
unfolding key_value_loop scan_lines
parse_key_value_facts u content = key_value_loop u (scan_lines content)
