-- ===== src/Discovery/CacheGroups/Duration.antt =====
-- `parseTTLDuration` of internal/engine/cache.go: the range of the durations.
use facts.Base.{
  ℕ, ◌+◌, ◌-◌, ◌*◌, ◌/◌, ◌^◌, ◌≤◌, ◌<◌, ◌&&◌, ◌≡◌, Option, some, arith, ltb, inl, inr, Bool-cases,
}
use facts.Discovery.CacheGroups.{ttl_duration, nanoseconds_per_second}

mul-le_of_le_div : (m b s : ℕ) → 0 < s → b ≤ m / s → b * s ≤ m
mul-le_of_le_div m b s h k = grind arith

div-mul_near : (x s : ℕ) → 0 < s → (x / s * s ≤ x) × (x < x / s * s + s)
div-mul_near x s h = grind arith

some_injective : (a b : ℕ) → Path (Option ℕ) (some a) (some b) → a ≡ b
some_injective a b h = cc

-- A duration that is accepted is the amount times the multiplier, but for less than a second, and
-- the product is below 2^63.
pub ttl_duration-bounds :
    (amount multiplier d : ℕ)
    → 0 < multiplier
    → ttl_duration amount multiplier ≡ some d
    → (d ≤ amount * multiplier)
      × (amount * multiplier < d + nanoseconds_per_second)
      × (amount * multiplier < 2 ^ 63)
unfolding ttl_duration
ttl_duration-bounds amount multiplier d p h =
    elim (Bool-cases (ltb 0 multiplier && ltb ((2 ^ 63 - 1) / multiplier) amount)) [
      | inl e ↦ absurd (ground arith)
      | inr e ↦
          let fits : amount * multiplier ≤ 2 ^ 63 - 1 =
            mul-le_of_le_div (2 ^ 63 - 1) amount multiplier p (ground arith) in
          elim (Bool-cases (ltb multiplier nanoseconds_per_second)) [
            | inl f ↦
                let q : amount * multiplier / nanoseconds_per_second * nanoseconds_per_second ≡ d =
                  ground arith in
                let (a, b) =
                  div-mul_near (amount * multiplier) nanoseconds_per_second (omega arith) in
                (rw (← q) a, rw (← q) b, omega arith)
            | inr f ↦
                let q : amount * multiplier ≡ d = ground arith in
                (omega arith, omega arith, omega arith)
          ]
    ]
