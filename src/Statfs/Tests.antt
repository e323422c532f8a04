-- ===== src/Statfs/Tests.antt =====
-- The theorems on sizes at counts near the limits.
use Prim.Native.Nat.{min}
use facts.Base.{◌-◌, ◌*◌, ◌^◌, ◌≡◌, arith}
use facts.Statfs.{statfs_block_bytes, statfs_block_bytes-min}

statfs_block_bytes-min_example :
    statfs_block_bytes (2 ^ 63 - 1) (2 ^ 60) 4096 ≡ min (2 ^ 63 - 1) (2 ^ 60 * 4096)
statfs_block_bytes-min_example = statfs_block_bytes-min (2 ^ 63 - 1) (2 ^ 60) 4096 (omega arith)
