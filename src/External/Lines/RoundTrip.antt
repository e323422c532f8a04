-- ===== src/External/Lines/RoundTrip.antt =====
-- `parseKeyValueFacts` of internal/engine/external.go against lines that are written from facts.
use facts.Base.{
  ◌<◌, false, ◌||◌, ◌≡◌, ◌≢◌, refl, ap, ◌∙◌, List, [], ◌∷◌, ◌++◌, some, map, length, lt→ltb, is_nil,
  arith, All,
}
use facts.Base.Text.{Text, has_byte}
use facts.Base.Text.Split.{split, split-append, cut-append, split-ne-nil}
use facts.Base.Text.Unicode.{Unicode}
use facts.Value.{str}
use facts.Fact.{ResolvedFact, external}
use facts.External.Lines.{
  max_bytes, drop_return, drop_last_empty, scan_lines, line_name, pair, key_value, key_value_loop,
  parse_key_value_facts,
}

-- A name and a value as a line.
abbrev pub line_of : Text × Text → Text
line_of (name, value) = name ++ (b'=' ∷ value)

abbrev pub render : List (Text × Text) → Text
render [] = []
render (p ∷ pairs) = line_of p ++ (b'\n' ∷ render pairs)

abbrev pub external_fact : Text × Text → ResolvedFact
external_fact (name, value) = record {
  name = name;
  value = str value;
  user_query = [];
  type = external;
  file = [];
}

-- A pair that a line can hold: a name that is left as it is, without `=`; a value that is not empty
-- and does not end in `\r`; no newline and no null byte; and a line below the limit.
pub record IsLine (u : Unicode) (p : Text × Text) : Type 0 where
  pub name_kept : line_name u p.0 ≡ p.0
  pub name_some : is_nil p.0 ≡ false
  pub name_no_equals : has_byte b'=' p.0 ≡ false
  pub value_some : is_nil p.1 ≡ false
  pub value_end : drop_return p.1 ≡ p.1
  pub one_line : has_byte b'\n' (line_of p) ≡ false
  pub no_null : (has_byte 0 p.0 || has_byte 0 p.1) ≡ false
  pub short : length (line_of p) < max_bytes

drop_last_empty-cons :
    (l : Text) (lines : List Text)
    → lines ≢ []
    → drop_last_empty (l ∷ lines) ≡ l ∷ drop_last_empty lines
unfolding drop_last_empty
drop_last_empty-cons l [] h = absurd (h refl)
drop_last_empty-cons l (m ∷ lines) h = refl

scan_lines-render :
    (u : Unicode) (pairs : List (Text × Text))
    → All (IsLine u) pairs
    → scan_lines (render pairs) ≡ map line_of pairs
unfolding scan_lines
scan_lines-render u [] h = unfold split drop_last_empty in refl
scan_lines-render u (p ∷ pairs) (l, h) =
    ap drop_last_empty (split-append b'\n' (line_of p) (render pairs) l.one_line)
    ∙ drop_last_empty-cons (line_of p) (split b'\n' (render pairs))
        (split-ne-nil b'\n' (render pairs))
    ∙ ap (λ t. line_of p ∷ t) (scan_lines-render u pairs h)

drop_return-append :
    (a : Text) (b : Text) → is_nil b ≡ false → drop_return (a ++ b) ≡ a ++ drop_return b
unfolding drop_return
drop_return-append [] b h = refl
drop_return-append (c ∷ []) [] h = absurd (ground arith)
drop_return-append (c ∷ []) (d ∷ b) h = refl
drop_return-append (c ∷ d ∷ a) b h = ap (λ t. c ∷ t) (drop_return-append (d ∷ a) b h)

drop_return-line :
    (u : Unicode) (p : Text × Text) → IsLine u p → drop_return (line_of p) ≡ line_of p
drop_return-line u (name, value) l =
    drop_return-append name (b'=' ∷ value) refl
    ∙ ap (λ t. name ++ t)
        (drop_return-append (b'=' ∷ []) value l.value_some ∙ ap (λ t. b'=' ∷ t) l.value_end)

key_value-line :
    (u : Unicode) (p : Text × Text) → IsLine u p → key_value u (line_of p) ≡ pair p.0 p.1
unfolding key_value
key_value-line u (name, value) l =
    rw (cut-append b'=' name value l.name_no_equals, key_value)
      (rw (l.value_some, key_value)
        (rw (l.name_kept, key_value) (rw l.name_some (rw l.no_null refl))))

key_value_loop-lines :
    (u : Unicode) (pairs : List (Text × Text))
    → All (IsLine u) pairs
    → key_value_loop u (map line_of pairs) ≡ some (map external_fact pairs)
unfolding key_value_loop
key_value_loop-lines u [] h = refl
key_value_loop-lines u (p ∷ pairs) (l, h) =
    rw (lt→ltb (length (line_of p)) max_bytes l.short, drop_return-line u p l, key_value-line u p l)
      (rw (key_value_loop-lines u pairs h) refl)

-- Facts that are written as lines `name=value` are read again, in order, with their names and values,
-- where each name is not empty, holds no `=` and is left as it is by the trimming and lowering of
-- names, each value is not empty and does not end in `\r`, neither holds a newline or a null byte, and
-- each line is below the limit of a line's length.
pub parse_key_value_facts-render :
    (u : Unicode) (pairs : List (Text × Text))
    → All (IsLine u) pairs
    → parse_key_value_facts u (render pairs) ≡ some (map external_fact pairs)
unfolding parse_key_value_facts
parse_key_value_facts-render u pairs h =
    ap (key_value_loop u) (scan_lines-render u pairs h) ∙ key_value_loop-lines u pairs h
