-- ===== src/Wire/Ber/RoundTrip.antt =====
-- What `encode_length` and `encode_tlv` write, `decode_length` and `decode_tlv` read.
use trishul_snmp.Prelude.{
  ℕ, ◌+◌, ◌/◌, ◌%◌, ◌^◌, ◌≤◌, ◌<◌, ◌≡◌, refl, ap, arith, [], ◌∷◌, ◌++◌, Result, ok, err, sym, ◌∙◌,
  >>=-eq-ok, ltb, length, Bool-cases, inl, inr, lt→ltb, le→ltb, ==_ne, ==_self, ltb→lt,
  length-append, append_assoc, if◌then◌else◌, slice,
}
use trishul_snmp.Wire.Bytes.{Bytes, byte, bit_length, to_bytes, set_top_bit}
use trishul_snmp.Wire.Bytes.Numbers.{
  length-to_bytes, from_bytes-to_bytes, bit_length-le, bit_length-pos, lt-pow-bit_length,
  pow2-le-pow256,
}
use trishul_snmp.Wire.Bytes.Reader.{
  At, Reads, At-first, At-end, At-next, At-get_elem?, At-slice, At-le,
}
use trishul_snmp.Wire.Ber.{encode_length, decode_length, encode_tlv, decode_tlv, expect_end}

-- The long form: a count of bytes, then the bytes of the length.
size_count : ℕ → ℕ
size_count n = (bit_length n + 7) / 8

size_count_fits : (n : ℕ) → n < 256 ^ size_count n
unfolding size_count
size_count_fits n = omega (
  arith,
  lt-pow-bit_length n,
  pow2-le-pow256 (bit_length n) ((bit_length n + 7) / 8) (omega arith),
)

size_count_bounds : (n : ℕ) → 0 < n → n < 2 ^ 32 → (1 ≤ size_count n) × (size_count n ≤ 4)
unfolding size_count
size_count_bounds n p h = omega (arith, bit_length-pos n p, bit_length-le n 32 h)

-- What `encode_length` writes.
size_bytes : ℕ → Bytes
size_bytes n = if ltb n 128 then n ∷ [] else (size_count n + 128) ∷ to_bytes (size_count n) n

byte_count : (c : ℕ) → c < 128 → byte (set_top_bit c) ≡ ok ((c + 128) ∷ [])
byte_count c h = ground arith

byte_small : (b : ℕ) → b < 256 → byte b ≡ ok (b ∷ [])
byte_small b h = ground arith

encode_length-size_bytes : (n : ℕ) → n < 2 ^ 32 → encode_length n ≡ ok (size_bytes n)
unfolding encode_length size_bytes size_count
encode_length-size_bytes n h = elim (Bool-cases (ltb n 128)) [
  | inl short ↦ rw short (byte_small n (ground arith))
  | inr long ↦
      let c : ℕ = (bit_length n + 7) / 8 in
      rw
        (
          long,
          length-to_bytes c n,
          byte_count c (omega (arith, size_count_bounds n (ground arith) h)),
        )
        refl
]

read_short : (n : ℕ) → n < 128 → Reads decode_length (n ∷ []) n
unfolding decode_length
read_short n h = record { at = λ content offset rest a. rw (At-get_elem? a, lt→ltb n 128 h) refl }

-- The long form: a first byte `c + 128`, behind which stand the `c` bytes of `n`.
read_long :
    (c n : ℕ) → 1 ≤ c → c < 128 → n < 256 ^ c → Reads decode_length ((c + 128) ∷ to_bytes c n) n
unfolding decode_length
read_long c n one few fits = record {
  at = λ content offset rest a.
      let b : At content (offset + 1) (to_bytes c n ++ rest) =
        At-next ((c + 128) ∷ []) (to_bytes c n ++ rest) a in
      let count : (c + 128) % 128 ≡ c = omega arith in
      let size : length (to_bytes c n) ≡ c = length-to_bytes c n in
      let end : offset + 1 + c ≤ length content =
        omega (arith, At-le (to_bytes c n) rest b, size) in
      let content_is : slice content (offset + 1) (offset + 1 + c) ≡ to_bytes c n =
        rw size at (At-slice (to_bytes c n) rest b) in
      rw (At-get_elem? a, le→ltb (c + 128) 128 (omega arith), count, ==_ne c 0 (omega arith))
        (rw (le→ltb (length content) (offset + 1 + c) end, content_is)
          (ground (arith, from_bytes-to_bytes c n fits)));
}

decode_length-size_bytes : (n : ℕ) → n < 2 ^ 32 → Reads decode_length (size_bytes n) n
unfolding size_bytes
decode_length-size_bytes n h = elim (Bool-cases (ltb n 128)) [
  | inl short ↦ rw short (read_short n (ltb→lt n 128 short))
  | inr long ↦
      let b = size_count_bounds n (ground arith) h in
      rw long (read_long (size_count n) n b.0 (omega arith) (size_count_fits n))
]

-- Less than 4 GiB: far above any datagram, and the length of the length fits one byte.
abbrev pub Fits : Bytes → Type 0
Fits bs = length bs < 2 ^ 32

pub tlv_bytes : ℕ → Bytes → Bytes
tlv_bytes tag content = tag ∷ (size_bytes (length content) ++ content)

pub encode_tlv-tlv_bytes :
    (tag : ℕ) (content : Bytes)
    → tag < 256
    → Fits content
    → encode_tlv tag content ≡ ok (tlv_bytes tag content)
unfolding encode_tlv tlv_bytes
encode_tlv-tlv_bytes tag content t h =
    rw (byte_small tag t, encode_length-size_bytes (length content) h) refl

pub decode_tlv-tlv_bytes :
    (tag : ℕ) (content : Bytes)
    → Fits content
    → Reads decode_tlv (tlv_bytes tag content) (record { tag = tag; content = content })
unfolding decode_tlv tlv_bytes
decode_tlv-tlv_bytes tag content h = record {
  at = λ whole offset rest a.
      let n : ℕ = length content in
      let b : At whole (offset + 1) (size_bytes n ++ (content ++ rest)) =
        At-next (tag ∷ []) (size_bytes n ++ (content ++ rest)) (rw append_assoc at a) in
      let c : At whole (offset + 1 + length (size_bytes n)) (content ++ rest) =
        At-next (size_bytes n) (content ++ rest) b in
      rw (At-get_elem? a, (decode_length-size_bytes n h).at whole (offset + 1) _ b)
        (rw
          (
            le→ltb (length whole) (offset + 1 + length (size_bytes n) + n) (At-le content rest c),
            At-slice content rest c,
          )
          (ground (arith, length-append (size_bytes n) content)));
}

abbrev length_of : ℕ → Result Bytes → ℕ
length_of d (ok bs) = length bs
length_of d (err e) = d

-- An encoding is longer than its content, whatever its form.
pub encode_tlv-inverts :
    (tag : ℕ) (content bs : Bytes)
    → encode_tlv tag content ≡ ok bs
    → (tag < 256) × (length content + 1 ≤ length bs)
unfolding encode_tlv
encode_tlv-inverts tag content bs h = elim (Bool-cases (ltb tag 256)) [
  | inl small ↦
      let (size, _, e) = >>=-eq-ok (encode_length (length content)) _ (rw small at h) in
      (
        ltb→lt tag 256 small,
        omega (arith, length-append size content, ap (length_of (length bs)) e),
      )
  | inr wide ↦ absurd (cc (rw wide at h))
]

-- `decode_tlv` reads the tag and the content that `encode_tlv` wrote, and stops behind them.
pub decode_tlv-encode_tlv :
    (tag : ℕ) (content bs : Bytes)
    → encode_tlv tag content ≡ ok bs
    → Fits bs
    → Reads decode_tlv bs (record { tag = tag; content = content })
decode_tlv-encode_tlv tag content bs h fits =
    let (t, long) = encode_tlv-inverts tag content bs h in
    let short : Fits content = omega arith in
    let e : ok (tlv_bytes tag content) ≡ ok bs =
      sym (encode_tlv-tlv_bytes tag content t short) ∙ h in
    let e' : tlv_bytes tag content ≡ bs = cc in rw (← e') (decode_tlv-tlv_bytes tag content short)

pub expect_end-At :
    {content : Bytes} {offset : ℕ} → At content offset [] → expect_end content offset ≡ ok tt
unfolding expect_end
expect_end-At {content} {offset} a = rw (At-end a, ==_self (length content)) refl

-- A field that is all of the input.
pub decode_tlv-whole :
    (tag : ℕ) (content bs : Bytes)
    → encode_tlv tag content ≡ ok bs
    → Fits bs
    → (decode_tlv bs 0 ≡ ok (record { tag = tag; content = content }, 0 + length bs))
      × (expect_end bs (0 + length bs) ≡ ok tt)
decode_tlv-whole tag content bs h fits = (
  (decode_tlv-encode_tlv tag content bs h fits).at bs 0 [] (At-first bs),
  expect_end-At (At-next bs [] (At-first bs)),
)
