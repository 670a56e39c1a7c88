-- ===== src/Wire/Oids/Arcs.antt =====
-- One arc in base 128: what is written is read back, wherever it stands.
use mathlib.Core.List.{reverse, reverse-append}
use trishul_snmp.Prelude.{
  ℕ, zero, suc, ◌+◌, ◌*◌, ◌/◌, ◌%◌, ◌≤◌, ◌<◌, ◌≡◌, ◌≢◌, true, false, refl, sym, ap, ◌∙◌, arith,
  List, [], ◌∷◌, ◌++◌, ok, length, All, All-append, Bool-cases, inl, inr, length-append, ◌==◌,
}
use trishul_snmp.Wire.Bytes.{Bytes}
use trishul_snmp.Wire.Bytes.Reader.{At, Reads, At-next, At-get_elem?, At-le}
use trishul_snmp.Wire.Oids.{
  chunks_loop, mark_chunks, encode_base128, decode_base128_loop, decode_base128,
}

abbrev IsChunk : ℕ → Type 0
IsChunk c = c < 128

-- The number whose digits in base 128 follow those of `acc`, highest first.
value_of : ℕ → List ℕ → ℕ
value_of acc [] = acc
value_of acc (c ∷ cs) = value_of (acc * 128 + c) cs

value_of-snoc :
    (acc : ℕ) (cs : List ℕ) (c : ℕ) → value_of acc (cs ++ c ∷ []) ≡ value_of acc cs * 128 + c
unfolding value_of
value_of-snoc acc [] c = refl
value_of-snoc acc (d ∷ cs) c = value_of-snoc (acc * 128 + d) cs c

reverse-chunks :
    (fuel n : ℕ)
    → (n == 0) ≡ false
    → reverse (chunks_loop (suc fuel) n) ≡ reverse (chunks_loop fuel (n / 128)) ++ n % 128 ∷ []
unfolding chunks_loop
reverse-chunks fuel n p = rw p (reverse-append (n % 128 ∷ []) (chunks_loop fuel (n / 128)))

chunks-zero : (fuel n : ℕ) → (n == 0) ≡ true → chunks_loop fuel n ≡ []
unfolding chunks_loop
chunks-zero zero n z = refl
chunks-zero (suc fuel) n z = rw z refl

value_of-chunks : (fuel n : ℕ) → n ≤ fuel → value_of 0 (reverse (chunks_loop fuel n)) ≡ n
value_of-chunks zero n h = unfold value_of chunks_loop in omega arith
value_of-chunks (suc fuel) n h = elim (Bool-cases (n == 0)) [
  | inl z ↦ rw (chunks-zero (suc fuel) n z) (unfold value_of in ground arith)
  | inr p ↦
      ap (value_of 0) (reverse-chunks fuel n p)
      ∙ value_of-snoc 0 (reverse (chunks_loop fuel (n / 128))) (n % 128)
      ∙ rw (value_of-chunks fuel (n / 128) (ground arith)) (omega arith)
]

chunks_loop-IsChunk : (fuel n : ℕ) → All IsChunk (reverse (chunks_loop fuel n))
chunks_loop-IsChunk zero n = unfold chunks_loop in tt
chunks_loop-IsChunk (suc fuel) n = elim (Bool-cases (n == 0)) [
  | inl z ↦ rw (chunks-zero (suc fuel) n z) tt
  | inr p ↦ rw (reverse-chunks fuel n p) (
      All-append IsChunk (reverse (chunks_loop fuel (n / 128))) (n % 128 ∷ [])
        (chunks_loop-IsChunk fuel (n / 128)) (omega arith, tt))
]

length-mark_chunks : (cs : List ℕ) → length (mark_chunks cs) ≡ length cs
unfolding mark_chunks
length-mark_chunks [] = refl
length-mark_chunks (c ∷ []) = refl
length-mark_chunks (c ∷ d ∷ cs) = ap suc (length-mark_chunks (d ∷ cs))

decode_loop-mark_chunks :
    (fuel : ℕ) (content : Bytes) (acc offset : ℕ) (c : ℕ) (cs : List ℕ) (rest : Bytes)
    → length cs < fuel
    → All IsChunk (c ∷ cs)
    → At content offset (mark_chunks (c ∷ cs) ++ rest)
    → decode_base128_loop fuel content acc offset
      ≡ ok (value_of acc (c ∷ cs), offset + suc (length cs))
unfolding decode_base128_loop mark_chunks value_of
decode_loop-mark_chunks zero content acc offset c cs rest f h a = absurd (omega arith)
decode_loop-mark_chunks (suc fuel) content acc offset c [] rest f h a =
    rw (At-get_elem? a) (ground arith)
decode_loop-mark_chunks (suc fuel) content acc offset c (d ∷ cs) rest f h a =
    let marked : (c + 128) / 128 % 2 ≡ 1 = omega arith in
    let digit : (c + 128) % 128 ≡ c = omega arith in
    let more =
      decode_loop-mark_chunks fuel content (acc * 128 + c) (offset + 1) d cs rest (omega arith) h.1
        (At-next ((c + 128) ∷ []) (mark_chunks (d ∷ cs) ++ rest) a) in
    rw (At-get_elem? a, marked, digit, more) (ground arith)

ne-nil-pos : (cs : List ℕ) → cs ≢ [] → 0 < length cs
ne-nil-pos [] h = absurd (h refl)
ne-nil-pos (c ∷ cs) h = omega arith

-- `decode_base128` reads the bytes of digits that are not all zero.
read_chunks :
    (cs : List ℕ) → cs ≢ [] → All IsChunk cs → Reads decode_base128 (mark_chunks cs) (value_of 0 cs)
unfolding decode_base128
read_chunks [] ne h = absurd (ne refl)
read_chunks (c ∷ cs) ne h = record {
  at = λ content offset rest a. rw (length-mark_chunks (c ∷ cs)) (
      decode_loop-mark_chunks (suc (length content)) content 0 offset c cs rest
        (omega (arith, At-le (mark_chunks (c ∷ cs)) rest a, length-mark_chunks (c ∷ cs))) h a);
}

reverse_chunks-ne-nil : (n : ℕ) → (n == 0) ≡ false → reverse (chunks_loop n n) ≢ []
reverse_chunks-ne-nil zero p = λ e. cc
reverse_chunks-ne-nil (suc n) p = λ e.
    let l : length (reverse (chunks_loop n (suc n / 128)) ++ suc n % 128 ∷ []) ≡ 0 =
      ap length (sym (reverse-chunks n (suc n) p) ∙ e) in
    absurd
      (omega (arith, l, length-append (reverse (chunks_loop n (suc n / 128))) (suc n % 128 ∷ [])))

-- An arc of any size is read back from what `encode_base128` writes.
pub decode-encode_base128 : (arc : ℕ) → Reads decode_base128 (encode_base128 arc) arc
unfolding encode_base128
decode-encode_base128 arc = elim (Bool-cases (arc == 0)) [
  | inl z ↦
      let e : arc ≡ 0 = ground arith in
      rw e (unfold mark_chunks value_of in read_chunks (0 ∷ []) (λ p. cc) (omega arith))
  | inr p ↦ rw p (
      rw (value_of-chunks arc arc (omega arith)) at (
        read_chunks (reverse (chunks_loop arc arc)) (reverse_chunks-ne-nil arc p)
          (chunks_loop-IsChunk arc arc)))
]

pub length-encode_base128-pos : (arc : ℕ) → 0 < length (encode_base128 arc)
unfolding encode_base128
length-encode_base128-pos arc = elim (Bool-cases (arc == 0)) [
  | inl z ↦ rw z (omega arith)
  | inr p ↦
      rw (p, length-mark_chunks)
        (ne-nil-pos (reverse (chunks_loop arc arc)) (reverse_chunks-ne-nil arc p))
]
