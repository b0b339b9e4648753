-- ===== src/Wire/Long.antt =====
-- The 64-bit fields of the messages. Those of services/mon/share/Cluster.h are written as uint64_t by the monitor, and read by
-- the client through a pointer to uint32_t, which then skips 8 bytes.
use muti.Common.{ℕ, ◌+◌, ◌*◌, ◌<◌, ◌/◌, ◌%◌, ◌^◌, ◌≡◌, ◌++◌, ok, ◌>>=◌, arith}
use muti.Wire.{Bytes, Reader, read_u32, read_bytes, u32_bytes}

unfoldable pub u64_bytes : ℕ → Bytes
u64_bytes n = u32_bytes (n % 2 ^ 32) ++ u32_bytes (n / 2 ^ 32)

unfoldable pub read_u64_low : Reader ℕ
unfolding read_u32 read_bytes
read_u64_low buf = do (low, buf₁) ← read_u32 buf; (high, buf₂) ← read_bytes 4 buf₁; ok (low, buf₂)

-- `*(uint64_t*)buf`, which is a size_t or a pointer too
unfoldable pub read_u64 : Reader ℕ
unfolding read_u32
read_u64 buf = do
  (low, buf₁) ← read_u32 buf
  (high, buf₂) ← read_u32 buf₁
  ok (low + 2 ^ 32 * high, buf₂)

pub read_u64-u64_bytes :
    (n : ℕ) (rest : Bytes) → n < 2 ^ 64 → read_u64 (u64_bytes n ++ rest) ≡ ok (n, rest)
unfolding read_u64 u64_bytes u32_bytes
read_u64-u64_bytes n rest h = ground arith

-- The client reads the low half of what the monitor writes.
pub read_u64_low-u64_bytes :
    (n : ℕ) (rest : Bytes) → read_u64_low (u64_bytes n ++ rest) ≡ ok (n % 2 ^ 32, rest)
unfolding read_u64_low u64_bytes u32_bytes
read_u64_low-u64_bytes n rest = ground arith
