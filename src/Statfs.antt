-- ===== src/Statfs.antt =====
-- internal/engine/statfs_math.go: sizes of file systems in bytes. `max_int` is the largest `int` of
-- the platform, `maxInt` and `maxIntUint` of the source; the counts are of 64 bits.
mod Tests
use facts.Base.{
  ℕ, zero, suc, ◌+◌, ◌-◌, ◌*◌, ◌/◌, ◌%◌, ◌^◌, ◌≤◌, ◌<◌, ◌≡◌, refl, ◌||◌, true, false, arith, ltb,
  leb, ◌==◌, Bool-cases, inl, inr, if◌then◌else◌,
}
use Prim.Native.Nat.{min}
use native.Mathlib.Nat.{zero-sub}
use facts.Base.Int.{ℤ, pos, negsuc, pos_part, neg_part}

-- `statfsBlockBytes`
unfoldable pub statfs_block_bytes : ℕ → ℕ → ℕ → ℕ
statfs_block_bytes max_int blocks block_size =
    if blocks == 0 || block_size == 0
    then 0
    else if ltb max_int block_size || ltb (max_int / block_size) blocks
    then max_int
    else (blocks * block_size) % 2 ^ 64

-- `statfsUsedBlockBytes`
unfoldable pub statfs_used_block_bytes : ℕ → ℕ → ℕ → ℕ → ℕ
unfolding statfs_block_bytes
statfs_used_block_bytes max_int blocks bfree block_size =
    if leb blocks bfree then 0 else statfs_block_bytes max_int (blocks - bfree) block_size

-- `statfsNativeBlockBytes`, for a count of a signed or an unsigned type
unfoldable pub statfs_native_block_bytes : ℕ → ℤ → ℕ → ℕ
unfolding statfs_block_bytes
statfs_native_block_bytes max_int (negsuc n) block_size = 0
statfs_native_block_bytes max_int (pos blocks) block_size =
    if blocks == 0 then 0 else statfs_block_bytes max_int blocks block_size

-- `statfsNativeUsedBytes`
unfoldable pub statfs_native_used_bytes : ℕ → ℤ → ℤ → ℕ → ℕ
unfolding statfs_used_block_bytes
statfs_native_used_bytes max_int (negsuc n) bfree block_size = 0
statfs_native_used_bytes max_int (pos blocks) (negsuc n) block_size = 0
statfs_native_used_bytes max_int (pos blocks) (pos bfree) block_size =
    if blocks == 0 then 0 else statfs_used_block_bytes max_int blocks bfree block_size

mul-le_of_le_div : (m b s : ℕ) → 0 < s → b ≤ m / s → b * s ≤ m
mul-le_of_le_div m b s h k = grind arith

lt-mul_of_div_lt : (m b s : ℕ) → 0 < s → m / s < b → m < b * s
lt-mul_of_div_lt m b s h k = grind arith

lt-mul_self : (m b s : ℕ) → m < suc s → m < suc b * suc s
lt-mul_self m b s h = grind arith

-- Where the largest `int` is below 2^64, the product never wraps: the size is the exact product, or
-- the largest `int` where that is less.
pub statfs_block_bytes-min :
    (max_int blocks block_size : ℕ)
    → max_int < 2 ^ 64
    → statfs_block_bytes max_int blocks block_size ≡ min max_int (blocks * block_size)
unfolding statfs_block_bytes
statfs_block_bytes-min m zero s h = ground arith
statfs_block_bytes-min m (suc b) zero h = ground arith
statfs_block_bytes-min m (suc b) (suc s) h = elim (Bool-cases (ltb m (suc s))) [
  | inl big ↦ ground (arith, lt-mul_self m b s)
  | inr fits ↦ elim (Bool-cases (ltb (m / suc s) (suc b))) [
    | inl over ↦ ground (arith, lt-mul_of_div_lt m (suc b) (suc s))
    | inr below ↦ ground (arith, mul-le_of_le_div m (suc b) (suc s))
  ]
]

statfs_used_block_bytes-min :
    (max_int blocks bfree block_size : ℕ)
    → max_int < 2 ^ 64
    → statfs_used_block_bytes max_int blocks bfree block_size
      ≡ min max_int ((blocks - bfree) * block_size)
unfolding statfs_used_block_bytes
statfs_used_block_bytes-min m b f s h = elim (Bool-cases (leb b f)) [
  | inl e ↦ rw e (let z : b - f ≡ 0 = ground arith in rw z (omega arith))
  | inr e ↦ rw e (statfs_block_bytes-min m (b - f) s h)
]

-- Where the largest `int` is below 2^64 and the count of the free blocks is not negative, the used
-- bytes are those of the blocks that are not free, none where more are free than there are or their
-- count is negative, or the largest `int` where that is less.
pub statfs_native_used_bytes-min :
    (max_int : ℕ) (blocks bfree : ℤ) (block_size : ℕ)
    → max_int < 2 ^ 64
    → neg_part bfree ≡ 0
    → statfs_native_used_bytes max_int blocks bfree block_size
      ≡ min max_int ((pos_part blocks - pos_part bfree) * block_size)
unfolding statfs_native_used_bytes
statfs_native_used_bytes-min m b (negsuc n) s h k = absurd (omega arith)
statfs_native_used_bytes-min m (negsuc n) (pos f) s h k = rw zero-sub (omega arith)
statfs_native_used_bytes-min m (pos zero) (pos f) s h k = rw zero-sub (omega arith)
statfs_native_used_bytes-min m (pos (suc b)) (pos f) s h k =
    let z : (suc b == 0) ≡ false = ground arith in
    rw z (statfs_used_block_bytes-min m (suc b) f s h)
