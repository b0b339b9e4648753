-- ===== src/Wire.antt =====
-- The little-endian fields that libs/cluster/ClusterMap.c and the request encoders write through
-- casted pointers, and read back after a test of the length that is left.
-- A buffer is the list of its bytes; the read position is what is left of the list, so a test
-- `len + n > buf_len` is a test that fewer than n bytes are left.
pub mod Laws
pub mod Long
use muti.Common.{
  ℕ, zero, suc, ◌+◌, ◌-◌, ◌*◌, ◌/◌, ◌%◌, ◌^◌, ◌<◌, List, [], ◌∷◌, ◌++◌, Outcome, ok, failed, ◌>>=◌,
  All, ltb, if◌then◌else◌,
}

abbrev pub Bytes : Type 0
Bytes = List ℕ

abbrev pub IsByte : ℕ → Type 0
IsByte b = b < 256

-- What a read returns, with the rest of the buffer.
abbrev pub Reader {ℓ} : Type ℓ → Type ℓ
Reader A = Bytes → Outcome (A × Bytes)

-- `*(uint8_t*)buf`
unfoldable pub read_u8 : Reader ℕ
read_u8 [] = failed
read_u8 (b ∷ rest) = ok (b, rest)

unfoldable pub read_u16 : Reader ℕ
read_u16 (b0 ∷ b1 ∷ rest) = ok (b0 + 256 * b1, rest)
read_u16 _ = failed

-- `*(uint32_t*)buf`, which is `*(int32_t*)buf` as a bit pattern
unfoldable pub read_u32 : Reader ℕ
read_u32 (b0 ∷ b1 ∷ b2 ∷ b3 ∷ rest) = ok (b0 + 256 * b1 + 65536 * b2 + 16777216 * b3, rest)
read_u32 _ = failed

-- `*(int8_t*)buf` in an unsigned int: the sign is extended.
unfoldable pub sign_extend8 : ℕ → ℕ
sign_extend8 b = if ltb b 128 then b else 2 ^ 32 - 256 + b

-- `memcpy` of n bytes out of the buffer
unfoldable pub read_bytes : ℕ → Reader Bytes
read_bytes zero buf = ok ([], buf)
read_bytes (suc n) [] = failed
read_bytes (suc n) (b ∷ buf) = do (bs, rest) ← read_bytes n buf; ok (b ∷ bs, rest)

-- n words, one after another
unfoldable pub read_words : ℕ → Reader (List ℕ)
read_words zero buf = ok ([], buf)
read_words (suc n) buf = do
  (w, rest) ← read_u32 buf
  (ws, rest') ← read_words n rest
  ok (w ∷ ws, rest')

unfoldable pub u16_bytes : ℕ → Bytes
u16_bytes n = n % 256 ∷ n / 256 % 256 ∷ []

unfoldable pub u32_bytes : ℕ → Bytes
u32_bytes n = n % 256 ∷ n / 256 % 256 ∷ n / 65536 % 256 ∷ n / 16777216 % 256 ∷ []

unfoldable pub words_bytes : List ℕ → Bytes
words_bytes [] = []
words_bytes (w ∷ ws) = u32_bytes w ++ words_bytes ws
