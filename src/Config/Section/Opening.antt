-- ===== src/Config/Section/Opening.antt =====
-- The search for the opening brace, `configSectionOpenBrace` of internal/engine/config.go, against the
-- byte where it ends.
use facts.Base.{
  ℕ, zero, suc, ◌+◌, ◌-◌, Bool, true, false, not, ◌||◌, ◌≡◌, ap, ◌∙◌, Option, none, some,
  Option-cases, Bool-cases, ==_iff, length, get_elem?, inl, inr, ◌==◌, if◌then◌else◌,
}
use facts.Base.Text.{Text}
use facts.Base.Text.Unicode.{Unicode}
use facts.Config.Section.{
  chain, Found, out_of_fuel, not_found, found, brace_if, brace_behind, found_behind, open_byte,
  open_round, open_loop, skip_config_space_comments_and_strings, config_name_at,
}

-- An index that is a brace's, where there is one.
abbrev pub IsBrace : Text → Option ℕ → Type 0
IsBrace content none = Unit
IsBrace content (some k) = get_elem? content k ≡ some b'{'

abbrev pub IsBraceIf : Text → Option (Option ℕ) → Type 0
IsBraceIf content none = Unit
IsBraceIf content (some o) = IsBrace content o

abbrev pub AtBrace : Text → Found → Type 0
AtBrace content out_of_fuel = Unit
AtBrace content not_found = Unit
AtBrace content (found i) = get_elem? content i ≡ some b'{'

pub IsBrace-if :
    (content : Text) (c j : ℕ)
    → get_elem? content j ≡ some c
    → IsBrace content (if c == b'{' then some j else none)
IsBrace-if content c j e = elim (Bool-cases (c == b'{')) [
  | inl m ↦ rw (m, IsBrace) (e ∙ ap (λ d. some d) ((==_iff c b'{').0 m))
  | inr m ↦ rw (m, IsBrace) tt
]

pub brace_if-IsBrace : (content : Text) (j : ℕ) → IsBrace content (brace_if content j)
unfolding brace_if
brace_if-IsBrace content j = elim (Option-cases (get_elem? content j)) [
  | inl e ↦ rw (e, IsBrace) tt
  | inr (c, e) ↦ rw (e, IsBrace) (IsBrace-if content c j e)
]

pub IsBraceIf-bind :
    (content : Text) (r : Option ℕ) (f : ℕ → Option (Option ℕ))
    → ((j : ℕ) → IsBraceIf content (f j))
    → IsBraceIf content (chain r f)
IsBraceIf-bind content none f h = tt
IsBraceIf-bind content (some j) f h = h j

pub IsBraceIf-if :
    (content : Text) (b : Bool) (x y : Option (Option ℕ))
    → IsBraceIf content x
    → IsBraceIf content y
    → IsBraceIf content (if b then x else y)
IsBraceIf-if content true x y f g = f
IsBraceIf-if content false x y f g = g

pub brace_behind-IsBraceIf : (content : Text) (k : ℕ) → IsBraceIf content (brace_behind content k)
unfolding brace_behind
brace_behind-IsBraceIf content k =
    IsBraceIf-bind content (skip_config_space_comments_and_strings content k) _ (λ j.
      elim (Option-cases (get_elem? content j)) [
        | inl e ↦ rw (e, IsBraceIf) tt
        | inr (c, e) ↦
            rw (e, brace_behind)
              (IsBraceIf-if content (c == b':' || c == b'=') _ (some none)
                (IsBraceIf-bind content (skip_config_space_comments_and_strings content (suc j)) _
                  (λ j2. brace_if-IsBrace content j2))
                tt)
      ])

pub AtBrace-if :
    (content : Text) (b : Bool) (x y : Found)
    → AtBrace content x
    → AtBrace content y
    → AtBrace content (if b then x else y)
AtBrace-if content true x y f g = f
AtBrace-if content false x y f g = g

pub found_behind-AtBrace :
    (content : Text) (o : Option (Option ℕ)) (rest : Found)
    → IsBraceIf content o
    → AtBrace content rest
    → AtBrace content (found_behind o rest)
unfolding found_behind
found_behind-AtBrace content none rest g h = tt
found_behind-AtBrace content (some none) rest g h = h
found_behind-AtBrace content (some (some j)) rest g h = g

pub open_round-AtBrace :
    (u : Unicode) (content name : Text) (depth : ℕ) (next : ℕ → ℕ → Found) (r : Option ℕ)
    → ((d k : ℕ) → AtBrace content (next d k))
    → AtBrace content (open_round u content name depth next r)
unfolding open_round open_byte
open_round-AtBrace u content name depth next none h = tt
open_round-AtBrace u content name depth next (some k) h =
    elim (Option-cases (get_elem? content k)) [
      | inl e ↦ rw (e, AtBrace) tt
      | inr (c, e) ↦
          rw (e, open_round)
            (AtBrace-if content (c == b'{') _ _ (h (suc depth) (suc k)) (
              AtBrace-if content (c == b'}') _ _ (h (depth - 1) (suc k)) (
                AtBrace-if content (not (depth == 0)) _ _ (h depth (suc k)) (
                  AtBrace-if content (not (config_name_at u content k name)) _ _ (h depth (suc k)) (
                    found_behind-AtBrace content (brace_behind content (k + length name))
                      (next depth (suc k)) (brace_behind-IsBraceIf content (k + length name))
                      (h depth (suc k)))))))
    ]

pub open_loop-AtBrace :
    (u : Unicode) (fuel : ℕ) (content name : Text) (depth i : ℕ)
    → AtBrace content (open_loop u fuel content name depth i)
unfolding open_loop
open_loop-AtBrace u zero content name depth i = tt
open_loop-AtBrace u (suc fuel) content name depth i =
    open_round-AtBrace u content name depth (open_loop u fuel content name)
      (skip_config_space_comments_and_strings content i)
      (λ d k. open_loop-AtBrace u fuel content name d k)
