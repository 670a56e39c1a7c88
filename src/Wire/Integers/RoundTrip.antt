-- ===== src/Wire/Integers/RoundTrip.antt =====
-- The decoders of INTEGER contents invert the encoders, on integers of any size.
use native.Mathlib.Nat.{pow-succ', div-lt_iff_lt-mul}
use trishul_snmp.Prelude.{
  ℕ, zero, suc, ◌+◌, ◌-◌, ◌*◌, ◌/◌, ◌^◌, ◌≤◌, ◌<◌, ◌≡◌, refl, sym, ap, ◌∙◌, ◌⊎◌, arith, max, [],
  ◌∷◌, ℤ, pos, negsuc, true, ok, length, All, Bool-cases, inl, inr, leb, lt→leb, le→leb,
}
use trishul_snmp.Wire.Bytes.{Bytes, IsByte, bit_length, to_bytes, from_bytes}
use trishul_snmp.Wire.Bytes.Numbers.{
  pow256-pos, length-to_bytes, from_bytes-to_bytes, lt-pow-bit_length, pow2-le-pow256,
  to_bytes-IsByte, pow2-le-pow256_spare, bit_length-pos,
}
use trishul_snmp.Wire.Integers.{
  to_signed_bytes, is_redundant, strip_redundant, encode_signed_integer, is_negative,
  from_signed_bytes, decode_signed_integer, pad_unsigned, encode_unsigned_integer,
  decode_unsigned_integer,
}

-- The sign bit of `k + 1` bytes: the upper half of their range is negative.
is_negative-to_bytes :
    (k n : ℕ) → n < 256 ^ suc k → is_negative (to_bytes (suc k) n) ≡ leb (128 * 256 ^ k) n
unfolding is_negative to_bytes
is_negative-to_bytes k n h = elim (Bool-cases (leb (128 * 256 ^ k) n)) [
  | inl big ↦ rw big (ground (arith, div-lt_iff_lt-mul {x = n} {y = 128} (pow256-pos k)))
  | inr small ↦ rw small (ground (arith, div-lt_iff_lt-mul {x = n} {y = 128} (pow256-pos k)))
]

from_signed_bytes-pos :
    (k n : ℕ) → n < 128 * 256 ^ k → from_signed_bytes (to_bytes (suc k) n) ≡ pos n
unfolding from_signed_bytes
from_signed_bytes-pos k n h =
    let wide : n < 256 ^ suc k = omega (arith, pow-succ' 256 k) in
    rw
      (
        is_negative-to_bytes k n wide,
        lt→leb (128 * 256 ^ k) n h,
        from_bytes-to_bytes (suc k) n wide,
      )
      refl

from_signed_bytes-negsuc :
    (k n : ℕ)
    → n < 128 * 256 ^ k
    → from_signed_bytes (to_bytes (suc k) (256 ^ suc k - suc n)) ≡ negsuc n
unfolding from_signed_bytes
from_signed_bytes-negsuc k n h =
    let m : ℕ = 256 ^ suc k - suc n in
    let wide : m < 256 ^ suc k = omega (arith, pow256-pos (suc k)) in
    rw
      (
        is_negative-to_bytes k m wide,
        le→leb (128 * 256 ^ k) m (omega (arith, pow-succ' 256 k)),
        from_bytes-to_bytes (suc k) m wide,
        length-to_bytes (suc k) m,
      )
      (ap negsuc (omega (arith, pow-succ' 256 k)))

pub is_redundant-cases :
    (a b : ℕ) → b < 256 → is_redundant a b ≡ true → ((a ≡ 0) × (b < 128)) ⊎ ((a ≡ 255) × (128 ≤ b))
unfolding is_redundant
is_redundant-cases a b hb h = ground arith

-- A byte that repeats the sign bit does not change the number.
from_signed_bytes-redundant :
    (a b : ℕ) (rest : Bytes)
    → b < 256
    → is_redundant a b ≡ true
    → from_signed_bytes (a ∷ b ∷ rest) ≡ from_signed_bytes (b ∷ rest)
unfolding from_signed_bytes is_negative from_bytes
from_signed_bytes-redundant a b rest hb h = elim (is_redundant-cases a b hb h) [
  | inl (z, small) ↦ rw (z, lt→leb 128 b small) (ap pos (omega arith))
  | inr (f, big) ↦
      rw (f, le→leb 128 b big) (ap negsuc (omega (arith, pow-succ' 256 (suc (length rest)))))
]

pub from_signed_bytes-strip :
    (bs : Bytes) → All IsByte bs → from_signed_bytes (strip_redundant bs) ≡ from_signed_bytes bs
unfolding strip_redundant
from_signed_bytes-strip [] h = refl
from_signed_bytes-strip (a ∷ []) h = refl
from_signed_bytes-strip (a ∷ b ∷ rest) h = elim (Bool-cases (is_redundant a b)) [
  | inl yes' ↦ rw yes' (
      from_signed_bytes-strip (b ∷ rest) h.1
      ∙ sym (from_signed_bytes-redundant a b rest h.1.0 yes'))
  | inr no' ↦ rw no' refl
]

strip_redundant-pos : (bs : Bytes) → 0 < length bs → 0 < length (strip_redundant bs)
unfolding strip_redundant
strip_redundant-pos [] h = h
strip_redundant-pos (a ∷ []) h = h
strip_redundant-pos (a ∷ b ∷ rest) h = ground (arith, strip_redundant-pos (b ∷ rest) (omega arith))

decode_signed_integer-pos :
    (bs : Bytes) → 0 < length bs → decode_signed_integer bs ≡ ok (from_signed_bytes bs)
unfolding decode_signed_integer
decode_signed_integer-pos [] h = absurd (omega arith)
decode_signed_integer-pos (b ∷ rest) h = refl

-- The width that the encoder takes has room for the sign bit.
fits_signed : (n k : ℕ) → k ≡ (bit_length n + 8) / 8 - 1 → n < 128 * 256 ^ k
fits_signed n k e =
    omega (arith, lt-pow-bit_length n, pow2-le-pow256_spare (bit_length n) k 7 (omega arith))

-- Of the two's complement in `k + 1` bytes, stripped.
decode_stripped :
    (value : ℤ) (k : ℕ)
    → All IsByte (to_signed_bytes (suc k) value)
    → from_signed_bytes (to_signed_bytes (suc k) value) ≡ value
    → length (to_signed_bytes (suc k) value) ≡ suc k
    → decode_signed_integer (strip_redundant (to_signed_bytes (suc k) value)) ≡ ok value
decode_stripped value k bytes same size =
    let bs : Bytes = to_signed_bytes (suc k) value in
    decode_signed_integer-pos _ (strip_redundant-pos bs (omega (arith, size)))
    ∙ ap ok (from_signed_bytes-strip bs bytes ∙ same)

encode_pos :
    (n k : ℕ)
    → n < 128 * 256 ^ k
    → decode_signed_integer (strip_redundant (to_signed_bytes (suc k) (pos n))) ≡ ok (pos n)
encode_pos n k h =
    decode_stripped (pos n) k
      (unfold to_signed_bytes in to_bytes-IsByte (suc k) n (omega (arith, pow-succ' 256 k)))
      (unfold to_signed_bytes in from_signed_bytes-pos k n h)
      (unfold to_signed_bytes in length-to_bytes (suc k) n)

encode_negsuc :
    (n k : ℕ)
    → n < 128 * 256 ^ k
    → decode_signed_integer (strip_redundant (to_signed_bytes (suc k) (negsuc n))) ≡ ok (negsuc n)
encode_negsuc n k h =
    decode_stripped (negsuc n) k
      (unfold to_signed_bytes in
        to_bytes-IsByte (suc k) (256 ^ suc k - suc n) (omega (arith, pow256-pos (suc k))))
      (unfold to_signed_bytes in from_signed_bytes-negsuc k n h)
      (unfold to_signed_bytes in length-to_bytes (suc k) (256 ^ suc k - suc n))

width : (b : ℕ) → max 1 ((b + 8) / 8) ≡ suc ((b + 8) / 8 - 1)
width b = omega arith

-- What `encode_signed_integer` writes for any integer, `decode_signed_integer` reads.
pub decode-encode_signed :
    (value : ℤ) → decode_signed_integer (encode_signed_integer value) ≡ ok value
unfolding encode_signed_integer
decode-encode_signed (pos zero) =
    unfold decode_signed_integer from_signed_bytes is_negative from_bytes in refl
decode-encode_signed (pos (suc n)) =
    let k : ℕ = (bit_length (suc n) + 8) / 8 - 1 in
    rw (width (bit_length (suc n))) (encode_pos (suc n) k (fits_signed (suc n) k refl))
decode-encode_signed (negsuc n) =
    let k : ℕ = (bit_length (suc n) + 8) / 8 - 1 in
    let h : suc n < 128 * 256 ^ k = fits_signed (suc n) k refl in
    rw (width (bit_length (suc n))) (encode_negsuc n k (omega arith))

pad_unsigned-pos : (bs : Bytes) → 0 < length bs → 0 < length (pad_unsigned bs)
unfolding pad_unsigned
pad_unsigned-pos [] h = h
pad_unsigned-pos (b ∷ rest) h = ground arith

from_bytes-pad : (bs : Bytes) → from_bytes (pad_unsigned bs) ≡ from_bytes bs
unfolding pad_unsigned from_bytes
from_bytes-pad [] = refl
from_bytes-pad (b ∷ rest) = ground arith

decode_unsigned_integer-pos :
    (bs : Bytes) → 0 < length bs → decode_unsigned_integer bs ≡ ok (pos (from_bytes bs))
unfolding decode_unsigned_integer
decode_unsigned_integer-pos [] h = absurd (omega arith)
decode_unsigned_integer-pos (b ∷ rest) h = refl

encode_suc :
    (n k : ℕ)
    → k ≡ (bit_length (suc n) + 7) / 8
    → decode_unsigned_integer (pad_unsigned (to_bytes k (suc n))) ≡ ok (pos (suc n))
encode_suc n k e =
    let bs : Bytes = to_bytes k (suc n) in
    let fits : suc n < 256 ^ k =
      omega
        (arith, lt-pow-bit_length (suc n), pow2-le-pow256 (bit_length (suc n)) k (omega arith)) in
    decode_unsigned_integer-pos _ (
      pad_unsigned-pos bs
        (omega (arith, length-to_bytes k (suc n), bit_length-pos (suc n) (omega arith))))
    ∙ ap (λ v. ok (pos v)) (from_bytes-pad bs ∙ from_bytes-to_bytes k (suc n) fits)

-- What `encode_unsigned_integer` accepts and writes, `decode_unsigned_integer` reads.
pub decode-encode_unsigned :
    (value : ℤ) (bs : Bytes)
    → encode_unsigned_integer value ≡ ok bs
    → decode_unsigned_integer bs ≡ ok value
unfolding encode_unsigned_integer
decode-encode_unsigned (negsuc n) bs h = cc
decode-encode_unsigned (pos zero) bs h =
    let e : 0 ∷ [] ≡ bs = cc in rw (← e) (unfold decode_unsigned_integer from_bytes in refl)
decode-encode_unsigned (pos (suc n)) bs h =
    let e : pad_unsigned (to_bytes ((bit_length (suc n) + 7) / 8) (suc n)) ≡ bs = cc in
    rw (← e) (encode_suc n _ refl)
