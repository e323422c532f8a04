-- ===== src/Format/Yaml/Lines.antt =====
-- internal/engine/formatter.go: the lines of the YAML format, against the newlines in what they are
-- made of.
use facts.Base.{
  ℕ, suc, Bool, true, false, not, arith, ◌&&◌, ◌||◌, ◌≡◌, refl, [], ◌∷◌, ◌++◌, Bool-cases,
  both_left, both_right, All, inl, inr,
}
use facts.Base.Text.{Text, text, text_eq, has_byte}
use facts.Value.{
  Value, null, str, int, float, bool, arr, strs, ints, obj, any_map, other, Items, nil, cons,
  Fields, end, field,
}
use facts.Format.Plain.{
  FormatLibrary, yaml_key, is_plain_output_key, is_plain_yaml_key, is_plain_yaml_string,
  sorted_keys, bool_text, plain_key_byte, plain_yaml_byte,
}
use facts.Format.Yaml.{
  yaml_string, yaml_scalar, yaml_scalars, yaml_parts, yaml_sequence_map, yaml_element, indent,
  yaml_sequence_lines, key_line, yaml_fields, yaml_field, yaml_lines,
}
use facts.Format.Yaml.OneLine.{
  OneLine, PrintsOneLine, SprintsInline, sprints_inline, items_inline, fields_inline, OneLine-nil,
  OneLine-append, OneLine-cons, OneLine-repeat, OneLine-bytes, AllKeys, AllKeys-sorted,
  all_lines-OneLine, map-OneLine, spaces-OneLine, in_braces-OneLine, in_brackets-OneLine,
  inline_contents-OneLine, word-OneLine,
}

not-true : (b : Bool) → not b ≡ true → b ≡ false
not-true b h = ground (arith, h)

module _ (lib : FormatLibrary) (prints : PrintsOneLine lib) where
  yaml_key-OneLine : (k : Text) → OneLine (yaml_key lib k)
  unfolding yaml_key is_plain_output_key plain_key_byte
  yaml_key-OneLine k = elim (Bool-cases (is_plain_output_key k true && is_plain_yaml_key lib k)) [
    | inl e ↦ rw e (OneLine-bytes (plain_key_byte true) k refl (both_right _ _ (both_left _ _ e)))
    | inr e ↦ rw e (prints.json_one k)
  ]

  plain_string-OneLine : (s : Text) → is_plain_yaml_string lib s ≡ true → OneLine s
  unfolding is_plain_yaml_string plain_yaml_byte
  plain_string-OneLine s h = OneLine-bytes plain_yaml_byte s refl (both_right _ _ (both_left _ _ h))

  yaml_string-OneLine : (s : Text) → OneLine (yaml_string lib s)
  unfolding yaml_string
  yaml_string-OneLine s = elim (Bool-cases (text_eq s (text "true") || text_eq s (text "false"))) [
    | inl e ↦ rw e (
        OneLine-cons b'\'' _ refl
          (OneLine-append s (text "'") (word-OneLine s e) (OneLine-cons b'\'' [] refl OneLine-nil)))
    | inr e ↦ rw e (elim (Bool-cases (is_plain_yaml_string lib s)) [
      | inl p ↦ rw p (plain_string-OneLine s p)
      | inr p ↦ rw p (prints.quote_one s)
    ])
  ]

  bool_text-OneLine : (b : Bool) → OneLine (bool_text b)
  unfolding has_byte
  bool_text-OneLine true = refl
  bool_text-OneLine false = refl

  part-OneLine : (k s : Text) → OneLine s → OneLine (yaml_key lib k ++ (text ": " ++ s))
  part-OneLine k s h =
      OneLine-append (yaml_key lib k) _ (yaml_key-OneLine k)
        (OneLine-cons b':' _ refl (OneLine-cons b' ' s refl h))

  mutual
    unfolding yaml_scalar sprints_inline

    yaml_scalar-OneLine : (v : Value) → SprintsInline lib v → OneLine (yaml_scalar lib v)
    yaml_scalar-OneLine null h = prints.quote_one []
    yaml_scalar-OneLine (str s) h = yaml_string-OneLine s
    yaml_scalar-OneLine (int i) h = prints.itoa_one i
    yaml_scalar-OneLine (float f) h = prints.float_one f
    yaml_scalar-OneLine (bool b) h = bool_text-OneLine b
    yaml_scalar-OneLine (obj m) h =
        in_braces-OneLine _ (inline_contents-OneLine (yaml_parts lib m) (yaml_parts-OneLine m h))
    yaml_scalar-OneLine (arr vs) h =
        in_brackets-OneLine (yaml_scalars lib vs) (yaml_scalars-OneLine vs h)
    yaml_scalar-OneLine (strs ss) h =
        in_brackets-OneLine _ (map-OneLine (yaml_string lib) ss yaml_string-OneLine)
    yaml_scalar-OneLine (ints is) h =
        in_brackets-OneLine _ (map-OneLine lib.itoa is prints.itoa_one)
    yaml_scalar-OneLine (any_map m) h = not-true _ h
    yaml_scalar-OneLine (other i) h = not-true _ h

    yaml_scalars-OneLine :
        (vs : Items) → items_inline lib vs ≡ true → All OneLine (yaml_scalars lib vs)
    yaml_scalars-OneLine nil h = tt
    yaml_scalars-OneLine (cons v vs) h =
        (yaml_scalar-OneLine v (both_left _ _ h), yaml_scalars-OneLine vs (both_right _ _ h))

    yaml_parts-OneLine :
        (m : Fields) → fields_inline lib m ≡ true → AllKeys OneLine (yaml_parts lib m)
    yaml_parts-OneLine end h = tt
    yaml_parts-OneLine (field k v m) h = (
      part-OneLine k (yaml_scalar lib v) (yaml_scalar-OneLine v (both_left _ _ h)),
      yaml_parts-OneLine m (both_right _ _ h),
    )

  indent-OneLine : (depth : ℕ) (s : Text) → OneLine s → OneLine (indent depth ++ s)
  indent-OneLine depth s h =
      OneLine-append (indent depth) s (OneLine-repeat (text "  ") depth spaces-OneLine) h

  sequence_map-OneLine :
      (m : Fields) → fields_inline lib m ≡ true → OneLine (yaml_sequence_map lib m)
  unfolding yaml_sequence_map
  sequence_map-OneLine end h =
      in_braces-OneLine _ (inline_contents-OneLine (yaml_parts lib end) (yaml_parts-OneLine end h))
  sequence_map-OneLine (field k v end) h =
      inline_contents-OneLine (yaml_parts lib (field k v end))
        (yaml_parts-OneLine (field k v end) h)
  sequence_map-OneLine (field k v (field j w m)) h = in_braces-OneLine _ (
      inline_contents-OneLine (yaml_parts lib (field k v (field j w m)))
        (yaml_parts-OneLine (field k v (field j w m)) h))

  yaml_element-OneLine : (v : Value) → SprintsInline lib v → OneLine (yaml_element lib v)
  unfolding yaml_element sprints_inline
  yaml_element-OneLine (obj m) h = sequence_map-OneLine m h
  yaml_element-OneLine v h = yaml_scalar-OneLine v h

  sequence_lines-OneLine :
      (depth : ℕ) (vs : Items)
      → items_inline lib vs ≡ true
      → All OneLine (yaml_sequence_lines lib depth vs)
  unfolding yaml_sequence_lines sprints_inline
  sequence_lines-OneLine depth nil h = tt
  sequence_lines-OneLine depth (cons v vs) h = (
    indent-OneLine depth _ (
        OneLine-cons b'-' _ refl
          (OneLine-cons b' ' _ refl (yaml_element-OneLine v (both_left _ _ h)))),
    sequence_lines-OneLine depth vs (both_right _ _ h),
  )

  key_line-OneLine :
      (depth : ℕ) (k rest : Text) → OneLine rest → OneLine (key_line lib depth k rest)
  key_line-OneLine depth k rest h =
      indent-OneLine depth _
        (OneLine-append (yaml_key lib k) _ (yaml_key-OneLine k) (OneLine-cons b':' rest refl h))

  mutual
    unfolding yaml_fields sprints_inline

    yaml_fields-OneLine :
        (depth : ℕ) (m : Fields)
        → fields_inline lib m ≡ true
        → AllKeys (All OneLine) (yaml_fields lib depth m)
    yaml_fields-OneLine depth end h = tt
    yaml_fields-OneLine depth (field k v m) h = (
      yaml_field-OneLine depth k v (both_left _ _ h),
      yaml_fields-OneLine depth m (both_right _ _ h),
    )

    yaml_field-OneLine :
        (depth : ℕ) (k : Text) (v : Value)
        → SprintsInline lib v
        → All OneLine (yaml_field lib depth k v)
    yaml_field-OneLine depth k (obj m) h = (
      key_line-OneLine depth k [] OneLine-nil,
      all_lines-OneLine (sorted_keys (yaml_fields lib (suc depth) m)) (
          AllKeys-sorted (All OneLine) (yaml_fields lib (suc depth) m)
            (yaml_fields-OneLine (suc depth) m h)),
    )
    yaml_field-OneLine depth k (arr vs) h =
        (key_line-OneLine depth k [] OneLine-nil, sequence_lines-OneLine depth vs h)
    yaml_field-OneLine depth k v h = (
      key_line-OneLine depth k (b' ' ∷ yaml_scalar lib v)
          (OneLine-cons b' ' _ refl (yaml_scalar-OneLine v h)),
      tt,
    )

  -- Where the printers of strconv and of JSON strings write no newline, and `fmt.Sprint` writes none of
  -- the parts that are left to it (maps with keys of any type, and values of other types), no line of
  -- the YAML format holds a newline, whatever the keys and the other strings of the value hold.
  pub yaml_lines-OneLine :
      (v : Value) (depth : ℕ) → SprintsInline lib v → All OneLine (yaml_lines lib v depth)
  unfolding yaml_lines sprints_inline
  yaml_lines-OneLine (obj m) depth h =
      all_lines-OneLine (sorted_keys (yaml_fields lib depth m))
        (AllKeys-sorted (All OneLine) (yaml_fields lib depth m) (yaml_fields-OneLine depth m h))
  yaml_lines-OneLine (arr vs) depth h = sequence_lines-OneLine depth vs h
  yaml_lines-OneLine v depth h = (indent-OneLine depth _ (yaml_scalar-OneLine v h), tt)
