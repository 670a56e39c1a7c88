-- ===== src/Wire/Bytes.antt =====
-- Byte strings, and the built-in operations on them that the codec uses: `bytes([x])`,
-- `int.bit_length`, `int.to_bytes` and `int.from_bytes`, big-endian.
pub mod Numbers
pub mod Reader
use trishul_snmp.Prelude.{
  ℕ, zero, suc, ◌+◌, ◌*◌, ◌/◌, ◌%◌, ◌^◌, ◌<◌, List, [], ◌∷◌, Result, ok, err, value_error, ltb,
  ◌==◌, if◌then◌else◌, length,
}

abbrev pub Bytes : Type 0
Bytes = List ℕ

abbrev pub IsByte : ℕ → Type 0
IsByte b = b < 256

-- `bytes([x])` raises ValueError unless x is in range(256).
abbrev pub byte : ℕ → Result Bytes
byte x = if ltb x 256 then ok (x ∷ []) else err value_error

-- `x | 0x80`
abbrev pub set_top_bit : ℕ → ℕ
set_top_bit x = if x / 128 % 2 == 0 then x + 128 else x

-- The number of binary digits: halvings until 0. `n` rounds are enough for `n`.
unfoldable pub bit_length_loop : ℕ → ℕ → ℕ
bit_length_loop zero n = 0
bit_length_loop (suc fuel) n =
    let more = suc (bit_length_loop fuel (n / 2)) in if n == 0 then 0 else more

unfoldable pub bit_length : ℕ → ℕ
unfolding bit_length_loop
bit_length n = bit_length_loop n n

-- `n.to_bytes(k, "big")`, for n below 256 ^ k.
unfoldable pub to_bytes : ℕ → ℕ → Bytes
to_bytes zero n = []
to_bytes (suc k) n = n / 256 ^ k ∷ to_bytes k (n % 256 ^ k)

-- `int.from_bytes(bs, "big")`
unfoldable pub from_bytes : Bytes → ℕ
from_bytes [] = 0
from_bytes (b ∷ bs) = b * 256 ^ length bs + from_bytes bs
