-- ===== src/Format/Legacy/Quotes.antt =====
-- `stripCommaAndUnescapedQuotes` of internal/engine/formatter.go against lines whose quotes are escaped.
use facts.Base.{
  ℕ, false, ◌≡◌, refl, sym, ap, ◌∙◌, [], ◌∷◌, ◌++◌, is_nil, Bool-cases, ==_iff, arith, ◌⊎◌, inl,
  inr, ◌==◌, if◌then◌else◌,
}
use facts.Base.Text.{Text, text, has_byte}
use facts.Format.Legacy.{strip_from, replace_pair, strip_comma_and_unescaped_quotes}

-- A string with a backslash before each quote, as `encoding/json` writes it where it holds nothing
-- else to escape.
unfoldable pub escape_quotes : Text → Text
escape_quotes [] = []
escape_quotes (c ∷ s) = if c == b'"' then b'\\' ∷ b'"' ∷ escape_quotes s else c ∷ escape_quotes s

strip_from-cons :
    (c : ℕ) (s : Text)
    → (c == b'"') ≡ false
    → (c == b'\\') ≡ false
    → is_nil s ≡ false
    → strip_from false (c ∷ s) ≡ c ∷ strip_from false s
unfolding strip_from
strip_from-cons c s h k l = rw (h, k, l, strip_from) (ground arith)

not_byte :
    (c d : ℕ) (s : Text) → has_byte d (c ∷ s) ≡ false → ((c == d) ≡ false) × (has_byte d s ≡ false)
unfolding has_byte
not_byte c d s h = ground (arith, h)

is_nil-append_cons : (p : Text) (d : ℕ) (s : Text) → is_nil (p ++ (d ∷ s)) ≡ false
is_nil-append_cons [] d s = refl
is_nil-append_cons (c ∷ p) d s = refl

strip_from-plain :
    (p : Text) (d : ℕ) (s : Text)
    → has_byte b'"' p ≡ false
    → has_byte b'\\' p ≡ false
    → strip_from false (p ++ (d ∷ s)) ≡ p ++ strip_from false (d ∷ s)
strip_from-plain [] d s h k = refl
strip_from-plain (c ∷ p) d s h k =
    strip_from-cons c (p ++ (d ∷ s)) (not_byte c b'"' p h).0 (not_byte c b'\\' p k).0
      (is_nil-append_cons p d s)
    ∙ ap (λ t. c ∷ t) (strip_from-plain p d s (not_byte c b'"' p h).1 (not_byte c b'\\' p k).1)

-- The closing quote of a string, and the end of its line.
abbrev pub Ending : Text → Type 0
Ending e = (e ≡ text "\"") ⊎ (e ≡ text "\",")

strip_from-Ending : (e : Text) → Ending e → strip_from false e ≡ []
unfolding strip_from
strip_from-Ending e (inl h) = rw h refl
strip_from-Ending e (inr h) = rw h refl

Ending-cons : (e : Text) → Ending e → (d : ℕ) × (s : Text) × (e ≡ d ∷ s)
Ending-cons e (inl h) = (b'"', [], h)
Ending-cons e (inr h) = (b'"', text ",", h)

is_nil-append-Ending : (s e : Text) → Ending e → is_nil (s ++ e) ≡ false
is_nil-append-Ending s e h =
    let (d, t, same) = Ending-cons e h in rw same (is_nil-append_cons s d t)

strip_from-escaped_quote :
    (t : Text) → strip_from false (b'\\' ∷ b'"' ∷ t) ≡ b'\\' ∷ b'"' ∷ strip_from false t
unfolding strip_from
strip_from-escaped_quote t = refl

replace-escaped_quote :
    (t : Text)
    → replace_pair b'\\' b'"' (text "\"") (b'\\' ∷ b'"' ∷ t)
      ≡ b'"' ∷ replace_pair b'\\' b'"' (text "\"") t
unfolding replace_pair
replace-escaped_quote t = refl

strip_from-escape :
    (s e : Text)
    → has_byte b'\\' s ≡ false
    → Ending e
    → strip_from false (escape_quotes s ++ e) ≡ escape_quotes s
unfolding escape_quotes
strip_from-escape [] e h k = strip_from-Ending e k
strip_from-escape (c ∷ s) e h k = elim (Bool-cases (c == b'"')) [
  | inl m ↦ rw m (
      strip_from-escaped_quote (escape_quotes s ++ e)
      ∙ ap (λ t. b'\\' ∷ b'"' ∷ t) (strip_from-escape s e (not_byte c b'\\' s h).1 k))
  | inr m ↦ rw m (
      strip_from-cons c (escape_quotes s ++ e) m (not_byte c b'\\' s h).0
        (is_nil-append-Ending (escape_quotes s) e k)
      ∙ ap (λ t. c ∷ t) (strip_from-escape s e (not_byte c b'\\' s h).1 k))
]

replace-cons :
    (c : ℕ) (t : Text)
    → (c == b'\\') ≡ false
    → replace_pair b'\\' b'"' (text "\"") (c ∷ t) ≡ c ∷ replace_pair b'\\' b'"' (text "\"") t
unfolding replace_pair
replace-cons c [] h = refl
replace-cons c (d ∷ t) h = rw (h, replace_pair) refl

replace-plain :
    (p t : Text)
    → has_byte b'\\' p ≡ false
    → replace_pair b'\\' b'"' (text "\"") (p ++ t) ≡ p ++ replace_pair b'\\' b'"' (text "\"") t
replace-plain [] t h = refl
replace-plain (c ∷ p) t h =
    replace-cons c (p ++ t) (not_byte c b'\\' p h).0
    ∙ ap (λ x. c ∷ x) (replace-plain p t (not_byte c b'\\' p h).1)

replace-escape :
    (s : Text)
    → has_byte b'\\' s ≡ false
    → replace_pair b'\\' b'"' (text "\"") (escape_quotes s) ≡ s
unfolding escape_quotes
replace-escape [] h = unfold replace_pair in refl
replace-escape (c ∷ s) h = elim (Bool-cases (c == b'"')) [
  | inl m ↦ rw m (
      replace-escaped_quote (escape_quotes s)
      ∙ ap (λ d. d ∷ replace_pair b'\\' b'"' (text "\"") (escape_quotes s))
          (sym ((==_iff c b'"').0 m))
      ∙ ap (λ x. c ∷ x) (replace-escape s (not_byte c b'\\' s h).1))
  | inr m ↦ rw m (
      replace-cons c (escape_quotes s) (not_byte c b'\\' s h).0
      ∙ ap (λ x. c ∷ x) (replace-escape s (not_byte c b'\\' s h).1))
]

-- A line `p"s",` of JSON text, its comma there or not, in which `p` holds no quote and no backslash
-- and the quotes of `s` are escaped, gives back `p` and `s`, if `s` holds no backslash.
pub strip-escape_quotes :
    (p s e : Text)
    → has_byte b'"' p ≡ false
    → has_byte b'\\' p ≡ false
    → has_byte b'\\' s ≡ false
    → Ending e
    → strip_comma_and_unescaped_quotes (p ++ (b'"' ∷ (escape_quotes s ++ e))) ≡ p ++ s
unfolding strip_comma_and_unescaped_quotes
strip-escape_quotes p s e h k l m =
    ap (replace_pair b'\\' b'"' (text "\"")) (
      strip_from-plain p b'"' (escape_quotes s ++ e) h k
      ∙ ap (λ t. p ++ t) (unfold strip_from in strip_from-escape s e l m))
    ∙ replace-plain p (escape_quotes s) k
    ∙ ap (λ t. p ++ t) (replace-escape s l)
