-- ===== src/Format/Yaml/OneLine.antt =====
-- internal/engine/formatter.go: what its formats are made of, against newlines.
use facts.Base.{
  ℕ, zero, suc, Bool, true, false, not, ◌&&◌, ◌||◌, ◌≡◌, refl, sym, ap, ◌∙◌, List, [], ◌∷◌, ◌++◌,
  map, all, both_left, both_right, Bool-cases, ==_iff, false≢true, All, arith, inl, inr, ◌==◌,
}
use facts.Base.Int.{ℤ}
use facts.Base.Text.{Text, text, text_eq, text_eq_iff, has_byte}
use facts.Base.Text.Order.{text_le}
use facts.Value.{Value, any_map, other, arr, obj, Items, nil, cons, Fields, end, field}
use facts.Format.Plain.{
  FormatLibrary, repeat, join_with, insert_key, sorted_keys, all_lines, all_parts,
}
use facts.Format.Yaml.{inline_contents, in_braces, in_brackets}

-- A text without a newline.
abbrev pub OneLine : Text → Type 0
OneLine s = has_byte b'\n' s ≡ false

-- `strconv.Quote`, `strconv.Itoa`, `strconv.FormatFloat` and the encoder of a JSON string write no
-- newline. `fmt.Sprint` does, of a value that holds one.
pub record PrintsOneLine (lib : FormatLibrary) : Type 0 where
  pub quote_one : (s : Text) → OneLine (lib.quote s)
  pub json_one : (s : Text) → OneLine (lib.json_string s)
  pub itoa_one : (i : ℤ) → OneLine (lib.itoa i)
  pub float_one : (f : ℕ) → OneLine (lib.format_float f)

pub OneLine-nil : OneLine []
unfolding has_byte
OneLine-nil = refl

pub OneLine-append : (a b : Text) → OneLine a → OneLine b → OneLine (a ++ b)
unfolding has_byte
OneLine-append [] b h k = k
OneLine-append (c ∷ a) b h k = ground (arith, h, OneLine-append a b)

pub OneLine-cons : (c : ℕ) (s : Text) → (c == b'\n') ≡ false → OneLine s → OneLine (c ∷ s)
unfolding has_byte
OneLine-cons c s h k = rw (h, k) refl

pub OneLine-repeat : (s : Text) (n : ℕ) → OneLine s → OneLine (repeat s n)
unfolding repeat
OneLine-repeat s zero h = OneLine-nil
OneLine-repeat s (suc n) h = OneLine-append s (repeat s n) h (OneLine-repeat s n h)

pub OneLine-bytes : (p : ℕ → Bool) (s : Text) → p b'\n' ≡ false → all p s ≡ true → OneLine s
OneLine-bytes p [] h k = OneLine-nil
OneLine-bytes p (c ∷ s) h k = elim (Bool-cases (c == b'\n')) [
  | inl e ↦
      absurd (false≢true (sym h ∙ sym (ap p ((==_iff c b'\n').0 e)) ∙ both_left (p c) (all p s) k))
  | inr e ↦ OneLine-cons c s e (OneLine-bytes p s h (both_right (p c) (all p s) k))
]

pub OneLine-join :
    (sep : Text) (ps : List Text) → OneLine sep → All OneLine ps → OneLine (join_with sep ps)
unfolding join_with
OneLine-join sep [] h k = OneLine-nil
OneLine-join sep (p ∷ []) h k = k.0
OneLine-join sep (p ∷ q ∷ ps) h (k, ks) =
    OneLine-append p _ k (OneLine-append sep _ h (OneLine-join sep (q ∷ ps) h ks))

-- What `fmt.Sprint` prints of a value, in the default case of `yamlScalar`, holds no newline: for each
-- part of a value that this case meets.
unfoldable mutual
  pub sprints_inline : FormatLibrary → Value → Bool
  sprints_inline lib (any_map m) = not (has_byte b'\n' (lib.sprint (any_map m)))
  sprints_inline lib (other i) = not (has_byte b'\n' (lib.sprint (other i)))
  sprints_inline lib (arr vs) = items_inline lib vs
  sprints_inline lib (obj m) = fields_inline lib m
  sprints_inline lib v = true

  pub items_inline : FormatLibrary → Items → Bool
  items_inline lib nil = true
  items_inline lib (cons v vs) = sprints_inline lib v && items_inline lib vs

  pub fields_inline : FormatLibrary → Fields → Bool
  fields_inline lib end = true
  fields_inline lib (field k v m) = sprints_inline lib v && fields_inline lib m

abbrev pub SprintsInline : FormatLibrary → Value → Type 0
SprintsInline lib v = sprints_inline lib v ≡ true

-- A property of what is printed for each key.
abbrev pub AllKeys {ℓ κ} : {A : Type ℓ} → (A → Type κ) → List (Text × A) → Type κ
AllKeys P [] = Unit
AllKeys P ((k, a) ∷ ps) = P a × AllKeys P ps

pub AllKeys-insert {ℓ κ} :
    {A : Type ℓ} (P : A → Type κ) (p : Text × A) (ps : List (Text × A))
    → P p.1
    → AllKeys P ps
    → AllKeys P (insert_key p ps)
unfolding insert_key
AllKeys-insert P (k, a) [] h hs = (h, tt)
AllKeys-insert P (k, a) ((j, b) ∷ ps) h (g, hs) = elim (Bool-cases (text_le k j)) [
  | inl e ↦ rw e (h, (g, hs))
  | inr e ↦ rw e (g, AllKeys-insert P (k, a) ps h hs)
]

pub AllKeys-sorted {ℓ κ} :
    {A : Type ℓ} (P : A → Type κ) (ps : List (Text × A)) → AllKeys P ps → AllKeys P (sorted_keys ps)
unfolding sorted_keys
AllKeys-sorted P [] h = tt
AllKeys-sorted P ((k, a) ∷ ps) (h, hs) =
    AllKeys-insert P (k, a) (sorted_keys ps) h (AllKeys-sorted P ps hs)

pub All-append {ℓ κ} :
    {A : Type ℓ} (P : A → Type κ) (xs ys : List A) → All P xs → All P ys → All P (xs ++ ys)
All-append P [] ys h k = k
All-append P (x ∷ xs) ys (h, hs) k = (h, All-append P xs ys hs k)

pub all_lines-OneLine :
    (ps : List (Text × List Text)) → AllKeys (All OneLine) ps → All OneLine (all_lines ps)
unfolding all_lines
all_lines-OneLine [] h = tt
all_lines-OneLine ((k, ls) ∷ ps) (h, hs) =
    All-append OneLine ls (all_lines ps) h (all_lines-OneLine ps hs)

pub all_parts-OneLine : (ps : List (Text × Text)) → AllKeys OneLine ps → All OneLine (all_parts ps)
unfolding all_parts
all_parts-OneLine [] h = tt
all_parts-OneLine ((k, p) ∷ ps) (h, hs) = (h, all_parts-OneLine ps hs)

pub map-OneLine {ℓ} :
    {A : Type ℓ} (f : A → Text) (xs : List A) → ((x : A) → OneLine (f x)) → All OneLine (map f xs)
map-OneLine f [] h = tt
map-OneLine f (x ∷ xs) h = (h x, map-OneLine f xs h)

pub true-OneLine : OneLine (text "true")
unfolding has_byte
true-OneLine = refl

pub false-OneLine : OneLine (text "false")
unfolding has_byte
false-OneLine = refl

pub spaces-OneLine : OneLine (text "  ")
unfolding has_byte
spaces-OneLine = refl

pub comma-OneLine : OneLine (text ", ")
unfolding has_byte
comma-OneLine = refl

pub in_braces-OneLine : (s : Text) → OneLine s → OneLine (in_braces s)
unfolding in_braces
in_braces-OneLine s h =
    OneLine-cons b'{' _ refl (OneLine-append s (text "}") h (OneLine-cons b'}' [] refl OneLine-nil))

pub in_brackets-OneLine : (parts : List Text) → All OneLine parts → OneLine (in_brackets parts)
unfolding in_brackets
in_brackets-OneLine parts h = OneLine-cons b'[' _ refl (
    OneLine-append _ (text "]") (OneLine-join (text ", ") parts comma-OneLine h)
      (OneLine-cons b']' [] refl OneLine-nil))

pub inline_contents-OneLine :
    (ps : List (Text × Text)) → AllKeys OneLine ps → OneLine (inline_contents ps)
unfolding inline_contents
inline_contents-OneLine ps h =
    OneLine-join (text ", ") (all_parts (sorted_keys ps)) comma-OneLine
      (all_parts-OneLine (sorted_keys ps) (AllKeys-sorted OneLine ps h))

pub word-OneLine :
    (s : Text) → (text_eq s (text "true") || text_eq s (text "false")) ≡ true → OneLine s
word-OneLine s h = elim (Bool-cases (text_eq s (text "true"))) [
  | inl e ↦ rw ((text_eq_iff s (text "true")).0 e) true-OneLine
  | inr e ↦ rw ((text_eq_iff s (text "false")).0 (rw e at h)) false-OneLine
]
