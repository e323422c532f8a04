-- ===== src/Groups/Ttl.antt =====
-- `GroupTTLSeconds` and `ttlSeconds` of internal/engine/groups.go: a time to live as whole seconds.
-- The diagnostic of an unknown unit is left out.
use facts.Base.{
  ℕ, ◌+◌, ◌-◌, ◌*◌, ◌/◌, ◌%◌, ◌^◌, ◌<◌, ◌≡◌, inl, inr, Bool-cases, Bool, not, ◌&&◌, ◌||◌, List, [],
  ◌∷◌, Option, none, some, arith, is_nil, any, ltb, leb, ◌==◌, if◌then◌else◌,
}
use facts.Base.Int.{ℤ, pos, negsuc}
use facts.Base.Text.{Text, text, text_eq, mem_text, has_byte}
use facts.Base.Text.Number.{parse_int}
use facts.Base.Text.Unicode.{Unicode}

-- `FactTTL` of internal/engine/config.go
pub record FactTtl : Type 0 where
  pub fact : Text
  pub ttl : Text

-- The digits at the front, and what is behind them.
span_digits : Text → Text × Text
span_digits [] = ([], [])
span_digits (c ∷ s) =
    let (d, r) = span_digits s in if leb b'0' c && leb c b'9' then (c ∷ d, r) else ([], c ∷ s)

-- A sign and digits at the front, and what is behind them.
span_number : Text → Text × Text
span_number [] = ([], [])
span_number (c ∷ s) =
    if c == b'-' || c == b'+'
    then (let (d, r) = span_digits s in (c ∷ d, r))
    else span_digits (c ∷ s)

no_digits : Text → Bool
no_digits t = is_nil t || text_eq t (text "-") || text_eq t (text "+")

-- The units of one scale: seconds are the amount times the second field over the third.
abbrev pub UnitRow : Type 0
UnitRow = List Text × ℕ × ℕ

abbrev pub unit_rows : List UnitRow
unit_rows =
    (text "ns" ∷ text "nanos" ∷ text "nanosecond" ∷ text "nanoseconds" ∷ [], 1, 1000000000)
    ∷ (text "us" ∷ text "micros" ∷ text "microsecond" ∷ text "microseconds" ∷ [], 1, 1000000)
    ∷ (text "ms" ∷ text "milis" ∷ text "millisecond" ∷ text "milliseconds" ∷ [], 1, 1000)
    ∷ (text "s" ∷ text "second" ∷ text "seconds" ∷ [], 1, 1)
    ∷ (text "m" ∷ text "minute" ∷ text "minutes" ∷ [], 60, 1)
    ∷ (text "h" ∷ text "hour" ∷ text "hours" ∷ [], 3600, 1)
    ∷ (text "d" ∷ text "day" ∷ text "days" ∷ [], 86400, 1)
    ∷ []

unfoldable pub find_row : (List Text → Bool) → List UnitRow → Option (ℕ × ℕ)
find_row test [] = none
find_row test ((names, multiplier, divisor) ∷ rows) =
    if test names then some (multiplier, divisor) else find_row test rows

-- `ttlUnitScale`: the exact names first, then the names but for their case
unfoldable pub ttl_unit_scale : Unicode → Text → Option (ℕ × ℕ)
unfolding find_row
ttl_unit_scale u unit = elim (find_row (mem_text unit) unit_rows) [
  | some scale ↦ some scale
  | none ↦ find_row (any (u.equal_fold unit)) unit_rows
]

-- An integer as an `int64`, which wraps around.
unfoldable pub wrap64 : ℤ → ℤ
wrap64 (pos n) = let r = n % 2 ^ 64 in if ltb r (2 ^ 63) then pos r else negsuc (2 ^ 64 - r - 1)
wrap64 (negsuc n) = let r = n % 2 ^ 64 in if ltb r (2 ^ 63) then negsuc r else pos (2 ^ 64 - r - 1)

neg_ℕ : ℕ → ℤ
neg_ℕ n = if n == 0 then pos 0 else negsuc (n - 1)

times : ℤ → ℕ → ℤ
times (pos n) k = pos (n * k)
times (negsuc n) k = neg_ℕ ((n + 1) * k)

-- Go's `/`, which rounds to 0.
over : ℤ → ℕ → ℤ
over (pos n) d = pos (n / d)
over (negsuc n) d = neg_ℕ ((n + 1) / d)

-- `n * multiplier / divisor` on `int64`
unfoldable pub scaled : ℤ → ℕ × ℕ → ℤ
unfolding wrap64 times over neg_ℕ
scaled n (multiplier, divisor) = over (wrap64 (times n multiplier)) divisor

unit_of : Text → Text
unit_of rest = if is_nil rest then text "ms" else rest

has_space : Text → Bool
has_space s = has_byte b' ' s || has_byte b'\t' s || has_byte b'\n' s || has_byte b'\r' s

-- `ttlSeconds`; `none` is "not ok"
unfoldable pub ttl_seconds : Unicode → Text → Option ℤ
unfolding span_number span_digits no_digits ttl_unit_scale scaled unit_of has_space
ttl_seconds u v =
    let value = u.trim_space v in
    let (number, behind) = span_number value in
    let rest = u.trim_space behind in
    if is_nil value || no_digits number then none else elim (parse_int number) [
      | none ↦ none
      | some n ↦
          if not (is_nil rest) && has_space rest
          then none
          else elim (ttl_unit_scale u (unit_of rest)) [
            | none ↦ none
            | some scale ↦ some (scaled n scale)
          ]
    ]

-- `GroupTTLSeconds`
unfoldable pub group_ttl_seconds : Unicode → List FactTtl → Text → Option ℤ
unfolding ttl_seconds
group_ttl_seconds u [] fact = none
group_ttl_seconds u (ttl ∷ ttls) fact =
    if text_eq ttl.fact fact then ttl_seconds u ttl.ttl else group_ttl_seconds u ttls fact

-- For a count that is not negative, the seconds are the exact quotient, rounded to 0, where the
-- product fits an `int64`.
pub scaled-exact :
    (n : ℕ) (multiplier divisor : ℕ)
    → n * multiplier < 2 ^ 63
    → scaled (pos n) (multiplier, divisor) ≡ pos (n * multiplier / divisor)
unfolding scaled
scaled-exact n m d h = ground arith

-- An `int64` that differs from a number by a multiple of 2 ^ 64.
abbrev pub IsWrapped : ℕ → ℤ → Type 0
IsWrapped n (pos r) = (r < 2 ^ 63) × (k : ℕ) × (n ≡ r + k * 2 ^ 64)
IsWrapped n (negsuc r) = (r < 2 ^ 63) × (k : ℕ) × (n + (r + 1) ≡ k * 2 ^ 64)

wrap64-IsWrapped : (n : ℕ) → IsWrapped n (wrap64 (pos n))
unfolding wrap64
wrap64-IsWrapped n = elim (Bool-cases (ltb (n % 2 ^ 64) (2 ^ 63))) [
  | inl e ↦ rw (e, wrap64) (ground arith, n / 2 ^ 64, omega arith)
  | inr e ↦ rw (e, wrap64) (ground arith, n / 2 ^ 64 + 1, omega arith)
]

over_one : (i : ℤ) → over i 1 ≡ i
unfolding over neg_ℕ
over_one (pos n) = ground arith
over_one (negsuc n) = ground arith

-- The seconds of a count that is not negative, at the divisor 1, are the `int64` that differs from
-- the product of the count and the multiplier by a multiple of 2 ^ 64: a product that an `int64` does
-- not hold wraps around, to a negative number where it is between 2 ^ 63 and 2 ^ 64.
pub scaled_wraps : (n multiplier : ℕ) → IsWrapped (n * multiplier) (scaled (pos n) (multiplier, 1))
unfolding scaled
scaled_wraps n m = rw (over_one (wrap64 (pos (n * m)))) (wrap64-IsWrapped (n * m))
