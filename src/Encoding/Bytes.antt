-- ===== src/Encoding/Bytes.antt =====
-- `read_be32` and `write_be32` of common/src/bytes.cpp, on uint32_t.
mod Tests
use encoder_next.Prelude.{
  ℕ, ◌+◌, ◌*◌, ◌/◌, ◌%◌, ◌^◌, ◌<◌, ◌≡◌, refl, [], ◌∷◌, Bytes, IsBytes, get_or, arith, length,
}

-- Each byte is shifted to its place; the parts do not overlap.
unfoldable pub read_be32 : Bytes → ℕ
read_be32 b = get_or b 0 0 * 2 ^ 24 + get_or b 1 0 * 2 ^ 16 + get_or b 2 0 * 2 ^ 8 + get_or b 3 0

unfoldable pub write_be32 : ℕ → Bytes
write_be32 value =
    (value / 2 ^ 24 % 256) ∷ (value / 2 ^ 16 % 256) ∷ (value / 2 ^ 8 % 256) ∷ (value % 256) ∷ []

-- A 32-bit number that is written reads back, and its four places hold bytes.
pub read_be32-write_be32 :
    (value : ℕ)
    → value < 2 ^ 32
    → (read_be32 (write_be32 value) ≡ value) × IsBytes (write_be32 value)
unfolding read_be32 write_be32
read_be32-write_be32 value h = (omega arith, omega arith)

-- Four bytes that are read as a number are written back as they were, and the number has 32 bits.
pub write_be32-read_be32 :
    (a b c d : ℕ)
    → IsBytes (a ∷ b ∷ c ∷ d ∷ [])
    → (write_be32 (read_be32 (a ∷ b ∷ c ∷ d ∷ [])) ≡ a ∷ b ∷ c ∷ d ∷ [])
      × (read_be32 (a ∷ b ∷ c ∷ d ∷ []) < 2 ^ 32)
unfolding read_be32 write_be32
write_be32-read_be32 a b c d h = (ground arith, omega arith)
