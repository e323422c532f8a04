-- ===== src/Format/Hocon.antt =====
-- internal/engine/formatter.go: the HOCON format.
use facts.Base.{ℕ, suc, not, List, [], ◌∷◌, ◌++◌, map, if◌then◌else◌}
use facts.Base.Text.{Text, text}
use facts.Value.{
  Value, null, str, int, float, bool, arr, strs, ints, obj, Items, nil, cons, Fields, end, field,
}
use facts.Projection.{OutputShape}
use facts.Format.Plain.{
  FormatLibrary, View, hocon_key, is_plain_hocon_string, repeat, join_with, sorted_keys, all_lines,
  all_parts, bool_text,
}

abbrev hocon_indent : ℕ → Text
hocon_indent depth = repeat (text "    ") depth

hocon_string : FormatLibrary → Text → Text
unfolding is_plain_hocon_string
hocon_string lib s = if not (is_plain_hocon_string s) then lib.quote s else s

unfoldable pub hocon_brackets : List Text → Text
unfolding join_with
hocon_brackets parts = b'[' ∷ (join_with (text ",") parts ++ text "]")

abbrev hocon_key_line : FormatLibrary → ℕ → Text → Text → Text
hocon_key_line lib depth k rest = hocon_indent depth ++ (hocon_key lib k ++ (b'=' ∷ rest))

-- `hoconLines` with braces at depth 0, on the lines of its keys at depth 1.
unfoldable pub block : List (Text × List Text) → Text
unfolding join_with all_lines sorted_keys
block lines = join_with (text "\n") (text "{" ∷ (all_lines (sorted_keys lines) ++ (text "}" ∷ [])))

-- `hoconScalar`, `hoconArrayScalar` on the items of an array, and `hoconLines` with the lines of each key
unfoldable mutual
  unfolding hocon_string hocon_brackets block all_lines sorted_keys repeat hocon_key

  pub hocon_scalar : FormatLibrary → Value → Text
  hocon_scalar lib null = []
  hocon_scalar lib (str s) = hocon_string lib s
  hocon_scalar lib (int i) = lib.itoa i
  hocon_scalar lib (float f) = lib.format_float f
  hocon_scalar lib (bool b) = bool_text b
  hocon_scalar lib (obj m) = block (hocon_fields lib 1 m)
  hocon_scalar lib (arr vs) = hocon_brackets (hocon_array_scalars lib vs)
  hocon_scalar lib (strs ss) = hocon_brackets (map lib.quote ss)
  hocon_scalar lib (ints is) = hocon_brackets (map lib.itoa is)
  hocon_scalar lib v = lib.sprint v

  pub hocon_array_scalars : FormatLibrary → Items → List Text
  hocon_array_scalars lib nil = []
  hocon_array_scalars lib (cons (str s) vs) = lib.quote s ∷ hocon_array_scalars lib vs
  hocon_array_scalars lib (cons v vs) = hocon_scalar lib v ∷ hocon_array_scalars lib vs

  pub hocon_fields : FormatLibrary → ℕ → Fields → List (Text × List Text)
  hocon_fields lib depth end = []
  hocon_fields lib depth (field k (obj c) m) =
      (
        k,
        hocon_key_line lib depth k (text "{")
            ∷ (all_lines (sorted_keys (hocon_fields lib (suc depth) c))
                ++ ((hocon_indent depth ++ text "}") ∷ [])),
      )
      ∷ hocon_fields lib depth m
  hocon_fields lib depth (field k v m) =
      (k, hocon_key_line lib depth k (hocon_scalar lib v) ∷ []) ∷ hocon_fields lib depth m

-- The lines of a query map.
query_lines : FormatLibrary → Fields → List (Text × Text)
unfolding hocon_scalar
query_lines lib end = []
query_lines lib (field k v m) = (k, lib.quote k ++ (b'=' ∷ hocon_scalar lib v)) ∷ query_lines lib m

-- `FormatHOCON`
unfoldable pub format_hocon : FormatLibrary → View → Text
unfolding hocon_scalar hocon_fields query_lines join_with all_lines all_parts sorted_keys
format_hocon lib v = elim v.shape [
  | OutputShape.empty ↦ []
  | OutputShape.full_tree ↦
      join_with (text "\n") (all_lines (sorted_keys (hocon_fields lib 0 v.full_tree))) ++ text "\n"
  | OutputShape.single_query ↦ hocon_scalar lib v.single_query
  | OutputShape.multi_query ↦
      join_with (text "\n") (all_parts (sorted_keys (query_lines lib v.multi_query))) ++ text "\n"
]
