-- ===== src/Wire/Bytes/Numbers.antt =====
-- Bytes and numbers: how many digits a number has, and that its bytes read back.
use native.Mathlib.Nat.{
  pow-succ', pow-zero, div-add-mod', mod-lt, one-le-pow, div-lt_iff_lt-mul, mul-pos,
}
use trishul_snmp.Prelude.{
  ℕ, zero, suc, ◌+◌, ◌*◌, ◌/◌, ◌%◌, ◌^◌, ◌≤◌, ◌<◌, ◌≡◌, refl, ap, arith, length, All, Bool-cases,
  inl, inr, ◌==◌, List, [], ◌∷◌,
}
use trishul_snmp.Wire.Bytes.{IsByte, bit_length_loop, bit_length, to_bytes, from_bytes}

pub pow256-pos : (k : ℕ) → 0 < 256 ^ k
pow256-pos k = one-le-pow k 256 (omega arith)

-- With `c` spare digits, so that the induction goes one binary digit at a time.
pub pow2-le-pow256_spare : (b k c : ℕ) → b ≤ 8 * k + c → 2 ^ b ≤ 256 ^ k * 2 ^ c
pow2-le-pow256_spare zero k c h =
    omega (arith, pow-zero 2, mul-pos (pow256-pos k) (one-le-pow c 2 (omega arith)))
pow2-le-pow256_spare (suc b) k (suc c) h =
    rw (pow-succ' 2 b, pow-succ' 2 c) (omega (arith, pow2-le-pow256_spare b k c (omega arith)))
pow2-le-pow256_spare (suc b) (suc k) zero h =
    rw (pow-succ' 2 b, pow-succ' 256 k)
      (omega (arith, pow-zero 2, pow2-le-pow256_spare b k 7 (omega arith)))
pow2-le-pow256_spare (suc b) zero zero h = absurd (omega arith)

-- `k` bytes hold `8 * k` binary digits.
pub pow2-le-pow256 : (b k : ℕ) → b ≤ 8 * k → 2 ^ b ≤ 256 ^ k
pow2-le-pow256 b k h = omega (arith, pow-zero 2, pow2-le-pow256_spare b k 0 (omega arith))

lt-pow-bit_length_loop : (f n : ℕ) → n ≤ f → n < 2 ^ bit_length_loop f n
unfolding bit_length_loop
lt-pow-bit_length_loop zero n h = omega (arith, pow-zero 2)
lt-pow-bit_length_loop (suc f) n h = elim (Bool-cases (n == 0)) [
  | inl z ↦ rw z (ground (arith, pow-zero 2))
  | inr p ↦ rw (p, pow-succ' 2 _) (ground (arith, lt-pow-bit_length_loop f (n / 2)))
]

-- A number has no more digits than `bit_length` says.
pub lt-pow-bit_length : (n : ℕ) → n < 2 ^ bit_length n
unfolding bit_length
lt-pow-bit_length n = lt-pow-bit_length_loop n n (omega arith)

bit_length_loop-le : (f n m : ℕ) → n < 2 ^ m → bit_length_loop f n ≤ m
unfolding bit_length_loop
bit_length_loop-le zero n m h = omega arith
bit_length_loop-le (suc f) n zero h = ground (arith, pow-zero 2)
bit_length_loop-le (suc f) n (suc m) h =
    ground (arith, pow-succ' 2 m, bit_length_loop-le f (n / 2) m)

pub bit_length-le : (n m : ℕ) → n < 2 ^ m → bit_length n ≤ m
unfolding bit_length
bit_length-le n m h = bit_length_loop-le n n m h

pub bit_length-pos : (n : ℕ) → 0 < n → 0 < bit_length n
unfolding bit_length bit_length_loop
bit_length-pos zero h = absurd (omega arith)
bit_length-pos (suc n) h = ground arith

pub length-to_bytes : (k n : ℕ) → length (to_bytes k n) ≡ k
unfolding to_bytes
length-to_bytes zero n = refl
length-to_bytes (suc k) n = ap suc (length-to_bytes k (n % 256 ^ k))

pub from_bytes-to_bytes : (k n : ℕ) → n < 256 ^ k → from_bytes (to_bytes k n) ≡ n
unfolding to_bytes from_bytes
from_bytes-to_bytes zero n h = omega (arith, pow-zero 256)
from_bytes-to_bytes (suc k) n h =
    rw (length-to_bytes, from_bytes-to_bytes k (n % 256 ^ k) (mod-lt n (pow256-pos k)))
      (div-add-mod' n (256 ^ k))

pub to_bytes-IsByte : (k n : ℕ) → n < 256 ^ k → All IsByte (to_bytes k n)
unfolding to_bytes
to_bytes-IsByte zero n h = tt
to_bytes-IsByte (suc k) n h = (
  (div-lt_iff_lt-mul (pow256-pos k)).1 (omega (arith, pow-succ' 256 k)),
  to_bytes-IsByte k (n % 256 ^ k) (mod-lt n (pow256-pos k)),
)

-- Bytes make a number of at most that many bytes.
pub from_bytes-lt : (bs : List ℕ) → All IsByte bs → from_bytes bs < 256 ^ length bs
unfolding from_bytes
from_bytes-lt [] h = omega (arith, pow-zero 256)
from_bytes-lt (b ∷ bs) h = rw (pow-succ' 256 (length bs)) (grind (arith, from_bytes-lt bs h.1))
