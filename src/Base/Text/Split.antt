-- ===== src/Base/Text/Split.antt =====
-- `strings.Split`, `strings.Cut` and `strings.LastIndex` at a separator of one byte.
use Prim.Native.Nat.{ℕ}
use mathlib.Core.Path.{◌≡◌, refl}
use mathlib.Core.Logic.{◌≢◌, inl, inr}
use mathlib.Core.Bool.{false}
use mathlib.Core.Option.{Option, none, some}
use mathlib.Core.List.{List, [], ◌∷◌, ◌++◌}
use native.Mathlib.Omega.{arith}
use facts.Base.Tests.{◌==◌, if◌then◌else◌, Option-cases}
use facts.Base.Lists.{All}
use facts.Base.Text.{Text, has_byte}

push_head : ℕ → List Text → List Text
push_head c [] = (c ∷ []) ∷ []
push_head c (p ∷ ps) = (c ∷ p) ∷ ps

-- `strings.Split(s, sep)`: one part more than there are separators
unfoldable pub split : ℕ → Text → List Text
unfolding push_head
split sep [] = [] ∷ []
split sep (c ∷ s) = let rest = split sep s in if c == sep then [] ∷ rest else push_head c rest

-- `strings.Join(parts, sep)`
unfoldable pub join : ℕ → List Text → Text
join sep [] = []
join sep (p ∷ []) = p
join sep (p ∷ q ∷ ps) = p ++ (sep ∷ join sep (q ∷ ps))

-- `strings.Cut(s, sep)`: the parts before and behind the first separator, if there is one
unfoldable pub cut : ℕ → Text → Option (Text × Text)
cut sep [] = none
cut sep (c ∷ s) =
    let rest = cut sep s in
    if c == sep then some ([], s) else elim rest [ none ↦ none | some (a, b) ↦ some (c ∷ a, b) ]

-- `s[:strings.LastIndex(s, sep)]`, if there is a separator
unfoldable pub cut_last : ℕ → Text → Option Text
cut_last sep [] = none
cut_last sep (c ∷ s) = elim (cut_last sep s) [
  | some a ↦ some (c ∷ a)
  | none ↦ if c == sep then some [] else none
]

pub split-ne-nil : (sep : ℕ) (s : Text) → split sep s ≢ []
unfolding split
split-ne-nil sep [] = ground arith
split-ne-nil sep (c ∷ s) = ground (arith, split-ne-nil sep s)

join-push_head :
    (sep c : ℕ) (ps : List Text) → ps ≢ [] → join sep (push_head c ps) ≡ c ∷ join sep ps
unfolding join push_head
join-push_head sep c [] h = absurd (h refl)
join-push_head sep c (p ∷ []) h = refl
join-push_head sep c (p ∷ q ∷ ps) h = refl

join-nil_cons : (sep : ℕ) (ps : List Text) → ps ≢ [] → join sep ([] ∷ ps) ≡ sep ∷ join sep ps
unfolding join
join-nil_cons sep [] h = absurd (h refl)
join-nil_cons sep (p ∷ ps) h = refl

pub join-split : (sep : ℕ) (s : Text) → join sep (split sep s) ≡ s
unfolding split
join-split sep [] = unfold join in refl
join-split sep (c ∷ s) = ground (
  arith,
  join-split sep s,
  join-push_head sep c (split sep s),
  join-nil_cons sep (split sep s),
  split-ne-nil sep s,
)

pub split-no_sep : (sep : ℕ) (s : Text) → has_byte sep s ≡ false → split sep s ≡ s ∷ []
unfolding split has_byte
split-no_sep sep [] h = refl
split-no_sep sep (c ∷ s) h = ground (arith, split-no_sep sep s)

pub split-append :
    (sep : ℕ) (p s : Text) → has_byte sep p ≡ false → split sep (p ++ (sep ∷ s)) ≡ p ∷ split sep s
unfolding split has_byte
split-append sep [] s h = ground arith
split-append sep (c ∷ p) s h = ground (arith, split-append sep p s)

pub split-join :
    (sep : ℕ) (p : Text) (ps : List Text)
    → All (λ q. has_byte sep q ≡ false) (p ∷ ps)
    → split sep (join sep (p ∷ ps)) ≡ p ∷ ps
unfolding join
split-join sep p [] h = split-no_sep sep p h.0
split-join sep p (q ∷ ps) h =
    ground (arith, split-append sep p (join sep (q ∷ ps)), split-join sep q ps h.1)

push_head-append :
    (c : ℕ) (ps qs : List Text) → ps ≢ [] → push_head c (ps ++ qs) ≡ push_head c ps ++ qs
unfolding push_head
push_head-append c [] qs h = absurd (h refl)
push_head-append c (p ∷ ps) qs h = refl

-- Splitting at a separator splits both sides, whatever they hold.
pub split-append_all :
    (sep : ℕ) (a b : Text) → split sep (a ++ (sep ∷ b)) ≡ split sep a ++ split sep b
unfolding split
split-append_all sep [] b = ground arith
split-append_all sep (c ∷ a) b = ground (
  arith,
  split-append_all sep a b,
  split-ne-nil sep a,
  push_head-append c (split sep a) (split sep b),
)

pub cut-eq_some :
    (sep : ℕ) (s a b : Text)
    → cut sep s ≡ some (a, b)
    → (s ≡ a ++ (sep ∷ b)) × (has_byte sep a ≡ false)
unfolding cut has_byte
cut-eq_some sep [] a b h = cc
cut-eq_some sep (c ∷ s) [] b h = ground arith
cut-eq_some sep (c ∷ s) (x ∷ a) b h = ground (arith, cut-eq_some sep s a b)

pub cut-eq_none : (sep : ℕ) (s : Text) → cut sep s ≡ none → has_byte sep s ≡ false
unfolding cut has_byte
cut-eq_none sep [] h = refl
cut-eq_none sep (c ∷ s) h = ground (arith, cut-eq_none sep s)

pub cut_last-eq_none : (sep : ℕ) (s : Text) → cut_last sep s ≡ none → has_byte sep s ≡ false
unfolding cut_last has_byte
cut_last-eq_none sep [] h = refl
cut_last-eq_none sep (c ∷ s) h = ground (arith, cut_last-eq_none sep s)

pub cut_last-eq_some :
    (sep : ℕ) (s a : Text)
    → cut_last sep s ≡ some a
    → (b : Text) × (s ≡ a ++ (sep ∷ b)) × (has_byte sep b ≡ false)
unfolding cut_last
cut_last-eq_some sep [] a h = absurd (ground arith)
cut_last-eq_some sep (c ∷ s) a h = elim (Option-cases (cut_last sep s)) [
  | inl e ↦ (s, ground arith, cut_last-eq_none sep s e)
  | inr (a', e) ↦ let (b, p, q) = cut_last-eq_some sep s a' e in (b, ground arith, q)
]

pub cut-append :
    (sep : ℕ) (a b : Text) → has_byte sep a ≡ false → cut sep (a ++ (sep ∷ b)) ≡ some (a, b)
unfolding cut has_byte
cut-append sep [] b h = ground arith
cut-append sep (c ∷ a) b h = ground (arith, cut-append sep a b)

pub cut-no_sep : (sep : ℕ) (s : Text) → has_byte sep s ≡ false → cut sep s ≡ none
unfolding cut has_byte
cut-no_sep sep [] h = refl
cut-no_sep sep (c ∷ s) h = ground (arith, cut-no_sep sep s)
