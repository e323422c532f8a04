-- ===== src/Config/Section/Matching.antt =====
-- The loop that closes a section in `configSection` of internal/engine/config.go against an
-- independent description of braces that match.
use facts.Base.{
  ℕ, zero, suc, ◌+◌, ◌-◌, false, ◌≡◌, refl, sym, ap, ◌∙◌, [], ◌∷◌, ◌++◌, append_assoc, some,
  Bool-cases, ==_iff, length, arith, inl, inr, ◌==◌, if◌then◌else◌,
}
use facts.Base.Text.{Text}
use facts.Config.Section.{close_loop}

-- A text whose braces match.
pub data Balanced : Text → Type 0 where
  done : Balanced []
  other :
      {c : ℕ} {a : Text} → (c == b'{') ≡ false → (c == b'}') ≡ false → Balanced a → Balanced (c ∷ a)
  nested : {a b : Text} → Balanced a → Balanced b → Balanced (b'{' ∷ (a ++ (b'}' ∷ b)))

-- A text that closes so many braces more than it opens.
unfoldable pub Closes : ℕ → Text → Type 0
Closes zero a = Balanced a
Closes (suc d) a = (x : Text) × (y : Text) × Balanced x × (a ≡ x ++ (b'}' ∷ y)) × Closes d y

pub Closes-other :
    (d c : ℕ) (a : Text) → (c == b'{') ≡ false → (c == b'}') ≡ false → Closes d a → Closes d (c ∷ a)
unfolding Closes
Closes-other zero c a h k b = other h k b
Closes-other (suc d) c a h k (x, y, b, e, r) = (c ∷ x, y, other h k b, ap (λ t. c ∷ t) e, r)

pub Closes-close : (d : ℕ) (a : Text) → Closes d a → Closes (suc d) (b'}' ∷ a)
unfolding Closes
Closes-close d a r = ([], a, done, refl, r)

pub Closes-open : (d : ℕ) (a : Text) → Closes (suc d) a → Closes d (b'{' ∷ a)
unfolding Closes
Closes-open zero a (x, y, b, e, r) = rw e (nested b r)
Closes-open (suc d) a (x, y, b, e, (x2, y2, b2, e2, r)) = (
  b'{' ∷ (x ++ (b'}' ∷ x2)),
  y2,
  nested b b2,
  ap (λ t. b'{' ∷ t)
      (e ∙ ap (λ t. x ++ (b'}' ∷ t)) e2 ∙ sym (append_assoc x (b'}' ∷ x2) (b'}' ∷ y2))),
  r,
)

-- What the loop closes: the text before the brace, and behind it.
abbrev pub Closed : ℕ → ℕ → Text → ℕ → Type 0
Closed d i s e = (a : Text) × (b : Text) × (s ≡ a ++ (b'}' ∷ b)) × (e ≡ i + length a) × Closes d a

pub Closed-cons :
    (d k i c : ℕ) (s : Text) (e : ℕ)
    → ((a : Text) → Closes d a → Closes k (c ∷ a))
    → Closed d (suc i) s e
    → Closed k i (c ∷ s) e
Closed-cons d k i c s e f (a, b, p, q, r) = (c ∷ a, b, ap (λ t. c ∷ t) p, omega (arith, q), f a r)

pub some-injective : (a b : ℕ) → some a ≡ some b → a ≡ b
some-injective a b h = ground (arith, h)

pub not-one : (d : ℕ) → (suc (suc d) == 1) ≡ false
not-one d = ground arith

pub less-one : (d : ℕ) → suc (suc d) - 1 ≡ suc d
less-one d = omega arith

pub close-brace :
    (d i : ℕ) (s : Text) (e : ℕ)
    → ((d2 i2 : ℕ) → close_loop (suc d2) i2 s ≡ some e → Closed d2 i2 s e)
    → (if suc d == 1 then some i else close_loop (suc d - 1) (suc i) s) ≡ some e
    → Closed d i (b'}' ∷ s) e
unfolding Closes
close-brace zero i s e rec h = ([], s, refl, omega (arith, some-injective i e h), done)
close-brace (suc d) i s e rec h =
    Closed-cons d (suc d) i b'}' s e (λ a r. Closes-close d a r)
      (rec d (suc i) (rw (not-one d, less-one d) at h))

pub close_loop-Closed :
    (d i : ℕ) (s : Text) (e : ℕ) → close_loop (suc d) i s ≡ some e → Closed d i s e
unfolding close_loop
close_loop-Closed d i [] e h = absurd (ground (arith, h))
close_loop-Closed d i (c ∷ s) e h = elim (Bool-cases (c == b'{')) [
  | inl m ↦
      Closed-cons (suc d) d i c s e (λ a r. rw ((==_iff c b'{').0 m) (Closes-open d a r))
        (close_loop-Closed (suc d) (suc i) s e (rw m at h))
  | inr m ↦ elim (Bool-cases (c == b'}')) [
    | inl n ↦
        rw ((==_iff c b'}').0 n)
          (close-brace d i s e (λ d2 i2. close_loop-Closed d2 i2 s e) (rw (m, n) at h))
    | inr n ↦
        Closed-cons d d i c s e (λ a r. Closes-other d c a m n r)
          (close_loop-Closed d (suc i) s e (rw (m, n) at h))
  ]
]
