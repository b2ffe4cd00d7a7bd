-- ===== src/Bytes/Word.antt =====
-- k_read_* and k_write_* of code/kbase.h. A byte is a number below 256, a word its bit pattern: an
-- `k_i32` or `k_i64` is the unsigned word with its bits, so that k_write_i32 is k_write_u32 here.
-- The bits of the bytes that a read joins by `|` are apart, so that `|` is a sum.
use kynovo.Common.{ℕ, ◌+◌, ◌*◌, ◌/◌, ◌%◌, ◌^◌, ◌<◌, ◌≡◌, List, [], ◌∷◌, ◌++◌, arith, All}

abbrev pub Bytes : Type 0
Bytes = List ℕ

abbrev pub IsBytes : Bytes → Type 0
IsBytes bs = All (λ b. b < 256) bs

unfoldable pub write_u8 : ℕ → Bytes
write_u8 v = v % 256 ∷ []

unfoldable pub write_u16 : ℕ → Bytes
write_u16 v = v % 256 ∷ v / 2 ^ 8 % 256 ∷ []

unfoldable pub write_u32 : ℕ → Bytes
write_u32 v = v % 256 ∷ v / 2 ^ 8 % 256 ∷ v / 2 ^ 16 % 256 ∷ v / 2 ^ 24 % 256 ∷ []

unfoldable pub write_u64 : ℕ → Bytes
write_u64 v =
    v % 256
    ∷ v / 2 ^ 8 % 256
    ∷ v / 2 ^ 16 % 256
    ∷ v / 2 ^ 24 % 256
    ∷ v / 2 ^ 32 % 256
    ∷ v / 2 ^ 40 % 256
    ∷ v / 2 ^ 48 % 256
    ∷ v / 2 ^ 56 % 256
    ∷ []

-- The source reads no byte that is not there; the other clauses are never reached.
unfoldable pub read_u8 : Bytes → ℕ
read_u8 (a ∷ p) = a
read_u8 p = 0

unfoldable pub read_u16 : Bytes → ℕ
read_u16 (a ∷ b ∷ p) = a + b * 2 ^ 8
read_u16 p = 0

unfoldable pub read_u32 : Bytes → ℕ
read_u32 (a ∷ b ∷ c ∷ d ∷ p) = a + b * 2 ^ 8 + c * 2 ^ 16 + d * 2 ^ 24
read_u32 p = 0

unfoldable pub read_u64 : Bytes → ℕ
read_u64 (a ∷ b ∷ c ∷ d ∷ e ∷ f ∷ g ∷ h ∷ p) =
    a + b * 2 ^ 8 + c * 2 ^ 16 + d * 2 ^ 24 + e * 2 ^ 32 + f * 2 ^ 40 + g * 2 ^ 48 + h * 2 ^ 56
read_u64 p = 0

pub read-write_u8 : (v : ℕ) (p : Bytes) → v < 2 ^ 8 → read_u8 (write_u8 v ++ p) ≡ v
unfolding read_u8 write_u8
read-write_u8 v p h = omega arith

pub read-write_u16 : (v : ℕ) (p : Bytes) → v < 2 ^ 16 → read_u16 (write_u16 v ++ p) ≡ v
unfolding read_u16 write_u16
read-write_u16 v p h = omega arith

pub read-write_u32 : (v : ℕ) (p : Bytes) → v < 2 ^ 32 → read_u32 (write_u32 v ++ p) ≡ v
unfolding read_u32 write_u32
read-write_u32 v p h = omega arith

pub read-write_u64 : (v : ℕ) (p : Bytes) → v < 2 ^ 64 → read_u64 (write_u64 v ++ p) ≡ v
unfolding read_u64 write_u64
read-write_u64 v p h = omega arith
