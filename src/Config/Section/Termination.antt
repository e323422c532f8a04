-- ===== src/Config/Section/Termination.antt =====
-- The loops of `configSection` in internal/engine/config.go against their fuel.
use facts.Base.{
  ℕ, zero, suc, ◌+◌, ◌-◌, ◌≤◌, ◌<◌, Bool, true, false, not, ◌||◌, ◌≡◌, ◌≢◌, refl, ap, ◌∙◌, [], ◌∷◌,
  Option, none, some, Option-cases, Bool-cases, ==_iff, length, get_elem?, arith, inl, inr, ◌==◌,
  if◌then◌else◌,
}
use facts.Base.Text.{Text}
use facts.Base.Text.Unicode.{Unicode}
use facts.Config.Section.{
  chain, is_skipped, skip_comment, skip_string, enough, skip_loop,
  skip_config_space_comments_and_strings, config_name_at, Found, out_of_fuel, not_found, found,
  brace_behind, found_behind, open_byte, open_round, open_loop, section_of,
  config_section_open_brace, config_section,
}

-- A result that is at an index or behind it.
abbrev From : ℕ → Option ℕ → Type 0
From i none = ⊥
From i (some j) = i ≤ j

From-later : (i k : ℕ) (r : Option ℕ) → i ≤ k → From k r → From i r
From-later i k none h f = f
From-later i k (some j) h f = omega (arith, h, f)

get_elem?-below : (content : Text) (i c : ℕ) → get_elem? content i ≡ some c → i < length content
get_elem?-below [] i c h = absurd (ground arith)
get_elem?-below (x ∷ s) zero c h = omega arith
get_elem?-below (x ∷ s) (suc i) c h = omega (arith, get_elem?-below s i c h)

From-if :
    (b : Bool) (i : ℕ) (r r2 : Option ℕ)
    → From i r
    → (b ≡ false → From i r2)
    → From i (if b then r else r2)
From-if true i r r2 f g = f
From-if false i r r2 f g = g refl

skip_comment-From :
    (fuel : ℕ) (content : Text) (i : ℕ)
    → 0 < fuel
    → length content < fuel + i
    → From i (skip_comment fuel content i)
unfolding skip_comment
skip_comment-From zero content i p h = absurd (omega (arith, p))
skip_comment-From (suc fuel) content i p h = elim (Option-cases (get_elem? content i)) [
  | inl e ↦ rw (e, From) (omega arith)
  | inr (c, e) ↦
      let below = get_elem?-below content i c e in
      rw (e, skip_comment)
        (From-if (c == b'\n') i (some i) _ (omega arith) (λ _.
          From-later i (suc i) (skip_comment fuel content (suc i)) (omega arith)
            (skip_comment-From fuel content (suc i) (omega (arith, h, below)) (omega (arith, h)))))
]

skip_string-From :
    (fuel : ℕ) (content : Text) (i : ℕ)
    → 0 < fuel
    → length content < fuel + i
    → From i (skip_string fuel content i)
unfolding skip_string
skip_string-From zero content i p h = absurd (omega (arith, p))
skip_string-From (suc fuel) content i p h = elim (Option-cases (get_elem? content i)) [
  | inl e ↦ rw (e, From) (omega arith)
  | inr (c, e) ↦
      let below = get_elem?-below content i c e in
      rw (e, skip_string)
        (From-if (c == b'\\') i _ _
          (From-later i (i + 2) (skip_string fuel content (i + 2)) (omega arith)
            (skip_string-From fuel content (i + 2) (omega (arith, h, below)) (omega (arith, h))))
          (λ _. From-if (c == b'"') i (some (suc i)) _ (omega arith) (λ _.
            From-later i (suc i) (skip_string fuel content (suc i)) (omega arith) (
              skip_string-From fuel content (suc i) (omega (arith, h, below)) (omega (arith, h))))))
]

From-bind :
    (i k : ℕ) (r : Option ℕ) (f : ℕ → Option ℕ)
    → From k r
    → ((j : ℕ) → k ≤ j → From i (f j))
    → From i (chain r f)
From-bind i k none f h g = absurd h
From-bind i k (some j) f h g = g j h

-- A comment ends behind its first byte.
skip_comment-mark :
    (content : Text) (i : ℕ)
    → get_elem? content i ≡ some b'#'
    → From (suc i) (skip_comment (enough content) content i)
unfolding skip_comment
skip_comment-mark content i e =
    let below = get_elem?-below content i b'#' e in
    rw (e, skip_comment)
      (skip_comment-From (length content) content (suc i) (omega (arith, below)) (omega arith))

skip_loop-From :
    (fuel : ℕ) (content : Text) (i : ℕ)
    → 0 < fuel
    → length content < fuel + i
    → From i (skip_loop fuel content i)
unfolding skip_loop
skip_loop-From zero content i p h = absurd (omega (arith, p))
skip_loop-From (suc fuel) content i p h = elim (Option-cases (get_elem? content i)) [
  | inl e ↦ rw (e, From) (omega arith)
  | inr (c, e) ↦
      let below = get_elem?-below content i c e in
      let next : (j : ℕ) → suc i ≤ j → From i (skip_loop fuel content j) = λ j k.
        From-later i j (skip_loop fuel content j) (omega (arith, k))
          (skip_loop-From fuel content j (omega (arith, h, below)) (omega (arith, h, k))) in
      rw (e, skip_loop)
        (From-if (is_skipped c) i _ _ (next (suc i) (omega arith)) (λ _.
          elim (Bool-cases (c == b'#')) [
            | inl m ↦ rw m (
                From-bind i (suc i) (skip_comment (enough content) content i)
                  (skip_loop fuel content)
                  (skip_comment-mark content i (e ∙ ap (λ d. some d) ((==_iff c b'#').0 m))) next)
            | inr m ↦ rw m (
                From-if (c == b'"') i _ (some i)
                  (From-bind i (suc i) (skip_string (enough content) content (suc i))
                    (skip_loop fuel content)
                    (skip_string-From (enough content) content (suc i) (omega arith) (omega arith))
                    next)
                  (λ _. omega arith))
          ]))
]

skip-From : (content : Text) (i : ℕ) → From i (skip_config_space_comments_and_strings content i)
unfolding skip_config_space_comments_and_strings
skip-From content i = skip_loop-From (enough content) content i (omega arith) (omega arith)

-- A result that is there.
abbrev Given {ℓ} : {A : Type ℓ} → Option A → Type 0
Given none = ⊥
Given (some a) = Unit

Given-bind :
    {A : Type 0} (i : ℕ) (r : Option ℕ) (f : ℕ → Option A)
    → From i r
    → ((j : ℕ) → Given (f j))
    → Given (chain r f)
Given-bind i none f h g = absurd h
Given-bind i (some j) f h g = g j

Given-if {ℓ} :
    {A : Type ℓ} (b : Bool) (r r2 : Option A) → Given r → Given r2 → Given (if b then r else r2)
Given-if true r r2 f g = f
Given-if false r r2 f g = g

brace_behind-Given : (content : Text) (k : ℕ) → Given (brace_behind content k)
unfolding brace_behind
brace_behind-Given content k =
    Given-bind k (skip_config_space_comments_and_strings content k) _ (skip-From content k) (λ j.
      elim (Option-cases (get_elem? content j)) [
        | inl e ↦ rw (e, Given) tt
        | inr (c, e) ↦
            rw (e, brace_behind)
              (Given-if (c == b':' || c == b'=') _ (some none)
                (Given-bind (suc j) (skip_config_space_comments_and_strings content (suc j)) _
                  (skip-From content (suc j)) (λ _. tt))
                tt)
      ])

abbrev Returns : Found → Type 0
Returns out_of_fuel = ⊥
Returns not_found = Unit
Returns (found i) = Unit

Returns-if : (b : Bool) (x y : Found) → Returns x → Returns y → Returns (if b then x else y)
Returns-if true x y f g = f
Returns-if false x y f g = g

found_behind-Returns :
    (o : Option (Option ℕ)) (rest : Found) → Given o → Returns rest → Returns (found_behind o rest)
unfolding found_behind
found_behind-Returns none rest g h = absurd g
found_behind-Returns (some none) rest g h = h
found_behind-Returns (some (some j)) rest g h = tt

open_byte-Returns :
    (u : Unicode) (content name : Text) (depth k : ℕ) (next : ℕ → ℕ → Found) (c : ℕ)
    → ((d : ℕ) → Returns (next d (suc k)))
    → Returns (open_byte u content name depth k next c)
unfolding open_byte
open_byte-Returns u content name depth k next c h = Returns-if (c == b'{') _ _ (h (suc depth)) (
    Returns-if (c == b'}') _ _ (h (depth - 1)) (
      Returns-if (not (depth == 0)) _ _ (h depth) (
        Returns-if (not (config_name_at u content k name)) _ _ (h depth) (
          found_behind-Returns (brace_behind content (k + length name)) (next depth (suc k))
            (brace_behind-Given content (k + length name)) (h depth)))))

open_round-Returns :
    (u : Unicode) (content name : Text) (depth i : ℕ) (next : ℕ → ℕ → Found) (r : Option ℕ)
    → From i r
    → ((d k : ℕ) → i ≤ k → k < length content → Returns (next d (suc k)))
    → Returns (open_round u content name depth next r)
unfolding open_round
open_round-Returns u content name depth i next none f h = absurd f
open_round-Returns u content name depth i next (some k) f h =
    elim (Option-cases (get_elem? content k)) [
      | inl e ↦ rw (e, Returns) tt
      | inr (c, e) ↦
          rw (e, open_round)
            (open_byte-Returns u content name depth k next c
              (λ d. h d k f (get_elem?-below content k c e)))
    ]

open_loop-Returns :
    (u : Unicode) (fuel : ℕ) (content name : Text) (depth i : ℕ)
    → 0 < fuel
    → length content < fuel + i
    → Returns (open_loop u fuel content name depth i)
unfolding open_loop
open_loop-Returns u zero content name depth i p h = absurd (omega (arith, p))
open_loop-Returns u (suc fuel) content name depth i p h =
    open_round-Returns u content name depth i (open_loop u fuel content name)
      (skip_config_space_comments_and_strings content i) (skip-From content i)
      (λ d k a b.
        open_loop-Returns u fuel content name d (suc k) (omega (arith, h, a, b))
          (omega (arith, h, a)))

section_of-Returns : (content : Text) (f : Found) → Returns f → section_of content f ≢ none
unfolding section_of
section_of-Returns content out_of_fuel r e = r
section_of-Returns content not_found r e = absurd (ground (arith, e))
section_of-Returns content (found i) r e = absurd (ground (arith, e))

-- `configSection` returns: the fuel of its loops, one more than the length of the content, is enough
-- for every content, name and table of Unicode.
pub config_section-returns :
    (u : Unicode) (content name : Text) → config_section u content name ≢ none
unfolding config_section config_section_open_brace
config_section-returns u content name =
    section_of-Returns content (config_section_open_brace u content name)
      (open_loop-Returns u (enough content) content name 0 0 (omega arith) (omega arith))
