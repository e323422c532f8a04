-- ===== src/Projection/Glob/Wildcard.antt =====
-- `factMatchesQuery` of internal/engine/projection.go on a fact name with a wildcard, against the texts
-- around it.
use facts.Base.{
  ℕ, true, false, not, ◌&&◌, ◌≡◌, ◌↔◌, refl, sym, ap, ◌∙◌, inl, inr, List, [], ◌∷◌, ◌++◌, map,
  arith, Bool-cases, ◌==◌, both_left, both_right, ==_iff,
}
use facts.Base.Text.{Text, text, has_byte, has_prefix, contains}
use facts.Projection.Glob.{Piece, byte, wildcard, glob, glob_match}
use facts.Projection.{fact_matches_query}

abbrev asterisk : ℕ
asterisk = b'*'

abbrev bytes : Text → List Piece
bytes s = map byte s

-- A text without an asterisk stands for itself.
glob-bytes : (s : Text) → has_byte asterisk s ≡ false → glob s ≡ bytes s
unfolding glob has_byte
glob-bytes [] h = refl
glob-bytes (c ∷ []) h = refl
glob-bytes (c ∷ d ∷ s) h = ground (arith, h, glob-bytes (d ∷ s))

glob-wildcard :
    (a b : Text)
    → has_byte asterisk a ≡ false
    → has_byte asterisk b ≡ false
    → glob (a ++ (b'.' ∷ asterisk ∷ b)) ≡ bytes a ++ (wildcard ∷ bytes b)
unfolding glob has_byte
glob-wildcard [] b h k = ap (λ g. wildcard ∷ g) (glob-bytes b k)
glob-wildcard (c ∷ []) b h k = ground (arith, h, glob-bytes b k)
glob-wildcard (c ∷ d ∷ a) b h k = ground (arith, h, glob-wildcard (d ∷ a) b)

contains-wildcard : (a b : Text) → contains (a ++ (b'.' ∷ asterisk ∷ b)) (text ".*") ≡ true
unfolding contains
contains-wildcard [] b = unfold has_prefix in ground arith
contains-wildcard (c ∷ a) b = ground (arith, contains-wildcard a b)

match-bytes :
    (a : Text) (g : List Piece) (s : Text)
    → glob_match (bytes a ++ g) s ≡ true
    → (t : Text) × (s ≡ a ++ t) × (glob_match g t ≡ true)
unfolding glob_match
match-bytes [] g s h = (s, refl, h)
match-bytes (b ∷ a) g [] h = absurd (ground arith)
match-bytes (b ∷ a) g (c ∷ s) h =
    let (t, e, m) = match-bytes a g s (both_right (b == c) (glob_match (bytes a ++ g) s) h) in
    let same : c ≡ b = sym ((==_iff b c).0 (both_left (b == c) (glob_match (bytes a ++ g) s) h)) in
    (t, rw (same, e) refl, m)

bytes-match :
    (a : Text) (g : List Piece) (t : Text)
    → glob_match g t ≡ true
    → glob_match (bytes a ++ g) (a ++ t) ≡ true
unfolding glob_match
bytes-match [] g t h = h
bytes-match (b ∷ a) g t h = ground (arith, bytes-match a g t h)

match-wildcard :
    (g : List Piece) (s : Text)
    → glob_match (wildcard ∷ g) s ≡ true
    → (w : Text) × (t : Text) × (s ≡ w ++ t) × (has_byte b'\n' w ≡ false) × (glob_match g t ≡ true)
unfolding glob_match has_byte
match-wildcard g [] h = ([], [], refl, refl, h)
match-wildcard g (c ∷ s) h = elim (Bool-cases (glob_match g (c ∷ s))) [
  | inl e ↦ ([], c ∷ s, refl, refl, e)
  | inr e ↦
      let further : not (c == b'\n') && glob_match (wildcard ∷ g) s ≡ true = ground (arith, h, e) in
      let (w, t, p, n, m) =
        match-wildcard g s (both_right (not (c == b'\n')) (glob_match (wildcard ∷ g) s) further) in
      (c ∷ w, t, ap (λ x. c ∷ x) p, ground (arith, further, n), m)
]

wildcard-match :
    (g : List Piece) (w t : Text)
    → has_byte b'\n' w ≡ false
    → glob_match g t ≡ true
    → glob_match (wildcard ∷ g) (w ++ t) ≡ true
unfolding glob_match has_byte
wildcard-match g [] [] n h = h
wildcard-match g [] (c ∷ t) n h = rw (h, glob_match) refl
wildcard-match g (c ∷ w) t n h = ground (arith, n, wildcard-match g w t)

match-all : (b t : Text) → glob_match (bytes b) t ≡ true → t ≡ b
unfolding glob_match
match-all [] [] h = refl
match-all [] (c ∷ t) h = absurd (ground arith)
match-all (c ∷ b) [] h = absurd (ground arith)
match-all (c ∷ b) (d ∷ t) h =
    let same : d ≡ c = sym ((==_iff c d).0 (both_left (c == d) (glob_match (bytes b) t) h)) in
    let rest : t ≡ b = match-all b t (both_right (c == d) (glob_match (bytes b) t) h) in
    rw (same, rest) refl

all-match : (b : Text) → glob_match (bytes b) b ≡ true
unfolding glob_match
all-match [] = refl
all-match (c ∷ b) = ground (arith, all-match b)

-- The texts that a name's pattern stands for.
abbrev pub IsFilled : Text → Text → Text → Type 0
IsFilled a b query = (w : Text) × (query ≡ a ++ (w ++ b)) × (has_byte b'\n' w ≡ false)

module _ (a b query : Text) where
  pattern-IsFilled : glob_match (bytes a ++ (wildcard ∷ bytes b)) query ≡ true → IsFilled a b query
  pattern-IsFilled m =
      let (s, e, n) = match-bytes a (wildcard ∷ bytes b) query m in
      let (w, t, p, line, r) = match-wildcard (bytes b) s n in
      (w, e ∙ ap (λ x. a ++ x) (p ∙ ap (λ x. w ++ x) (match-all b t r)), line)

  IsFilled-pattern : IsFilled a b query → glob_match (bytes a ++ (wildcard ∷ bytes b)) query ≡ true
  IsFilled-pattern (w, e, line) =
      ap (glob_match (bytes a ++ (wildcard ∷ bytes b))) e
      ∙ bytes-match a (wildcard ∷ bytes b) (w ++ b)
          (wildcard-match (bytes b) w b line (all-match b))

  -- A fact name of a text, `.*` and a text, neither of them with an asterisk, matches a query without a
  -- dot exactly where the query is the first text, bytes that are no newline, and the second text:
  -- every other byte of the name stands for itself.
  pub fact_matches_query-IsFilled :
      has_byte asterisk a ≡ false
      → has_byte asterisk b ≡ false
      → contains query (text ".") ≡ false
      → (fact_matches_query (a ++ (b'.' ∷ asterisk ∷ b)) query ≡ true) ↔ IsFilled a b query
  unfolding fact_matches_query
  fact_matches_query-IsFilled h k n =
      rw (contains-wildcard a b, n, glob-wildcard a b h k) (pattern-IsFilled, IsFilled-pattern)
