-- ===== src/Wire/Utf8/RoundTrip.antt =====
-- A text that has a UTF-8 form is read back from it.
use trishul_snmp.Prelude.{
  ℕ, zero, suc, ◌+◌, ◌/◌, ◌%◌, ◌≤◌, ◌<◌, ◌≡◌, refl, sym, ap, ◌∙◌, arith, [], ◌∷◌, ◌++◌, some, ok,
  length, >>=-eq-ok, length-append, Ends, Ends-bind, ltb, Option-cases, Bool-cases, inl, inr,
}
use trishul_snmp.Types.{Text}
use trishul_snmp.Wire.Bytes.{Bytes}
use trishul_snmp.Wire.Utf8.{
  encode_char, utf8_encode, two_bytes, three_bytes, four_bytes, next_char, utf8_decode_loop,
  utf8_decode,
}

-- The form of a character: a first byte and the bytes that continue it.
encode_char-inverts :
    (c : ℕ) (bs : Bytes)
    → encode_char c ≡ ok bs
    → (a : ℕ) × (more : Bytes) × (bs ≡ a ∷ more)
      × ((rest : Bytes) → next_char a (more ++ rest) ≡ some (c, rest))
unfolding encode_char next_char two_bytes three_bytes four_bytes
encode_char-inverts c bs h = elim (Bool-cases (ltb c 0x80)) [
  | inl one ↦ (c, [], ground arith, λ rest. ground arith)
  | inr p ↦ elim (Bool-cases (ltb c 0x800)) [
    | inl two ↦ (0xc0 + c / 64, (0x80 + c % 64) ∷ [], ground arith, λ rest. ground arith)
    | inr q ↦ elim (Bool-cases (ltb c 0x10000)) [
      | inl three ↦ (
        0xe0 + c / 4096,
        (0x80 + c / 64 % 64) ∷ (0x80 + c % 64) ∷ [],
        ground arith,
        λ rest. ground arith,
      )
      | inr r ↦ (
        0xf0 + c / 262144,
        (0x80 + c / 4096 % 64) ∷ (0x80 + c / 64 % 64) ∷ (0x80 + c % 64) ∷ [],
        ground arith,
        λ rest. ground arith,
      )
    ]
  ]
]

-- One round of the decoder, from the rounds that are left.
loop_step :
    (fuel a c : ℕ) (bytes tail : Bytes) (text : Text)
    → next_char a bytes ≡ some (c, tail)
    → 0 < fuel
    → ((k : ℕ) → suc k ≡ fuel → utf8_decode_loop k tail ≡ ok text)
    → utf8_decode_loop fuel (a ∷ bytes) ≡ ok (c ∷ text)
unfolding utf8_decode_loop
loop_step zero a c bytes tail text e h k = absurd (omega arith)
loop_step (suc fuel) a c bytes tail text e h k = rw (e, utf8_decode_loop) (rw (k fuel refl) refl)

utf8_decode_loop-encode :
    (text : Text) (bs : Bytes) (fuel : ℕ)
    → utf8_encode text ≡ ok bs
    → length bs ≤ fuel
    → utf8_decode_loop fuel bs ≡ ok text
unfolding utf8_encode
utf8_decode_loop-encode [] bs fuel h f =
    let e : [] ≡ bs = cc in rw (← e) (unfold utf8_decode_loop in refl)
utf8_decode_loop-encode (c ∷ text) bs fuel h f =
    let (first, e₁, h₁) = >>=-eq-ok (encode_char c) _ h in
    let (tail, e₂, h₂) = >>=-eq-ok (utf8_encode text) (λ tail. ok (first ++ tail)) h₁ in
    let (a, more, shape, next) = encode_char-inverts c first e₁ in
    let e : first ++ tail ≡ bs = cc in
    let e' : a ∷ (more ++ tail) ≡ bs = sym (ap (λ (l : Bytes). l ++ tail) shape) ∙ e in
    let size : suc (length more + length tail) ≡ length bs =
      omega (arith, length-append more tail, ap length e') in
    rw (← e') (
      loop_step fuel a c (more ++ tail) tail text (next tail) (omega (arith, size))
        (λ k l. utf8_decode_loop-encode text tail k e₂ (omega (arith, size, l))))

-- The UTF-8 decoder gives back every text that the encoder encodes.
pub utf8_decode-utf8_encode :
    (text : Text) (bs : Bytes) → utf8_encode text ≡ ok bs → utf8_decode bs ≡ ok text
unfolding utf8_decode
utf8_decode-utf8_encode text bs h = utf8_decode_loop-encode text bs (length bs) h (omega arith)

next_char_shrinks :
    (a : ℕ) (bytes : Bytes) (c : ℕ) (rest : Bytes)
    → next_char a bytes ≡ some (c, rest)
    → length rest ≤ length bytes
unfolding next_char two_bytes three_bytes four_bytes
next_char_shrinks a [] c rest h = ground arith
next_char_shrinks a (x ∷ []) c rest h = ground arith
next_char_shrinks a (x ∷ y ∷ []) c rest h = ground arith
next_char_shrinks a (x ∷ y ∷ z ∷ bytes) c rest h = ground arith

utf8_decode_loop-Ends :
    (fuel : ℕ) (bytes : Bytes) → length bytes ≤ fuel → Ends (utf8_decode_loop fuel bytes)
unfolding utf8_decode_loop
utf8_decode_loop-Ends zero [] h = λ p. cc
utf8_decode_loop-Ends (suc fuel) [] h = λ p. cc
utf8_decode_loop-Ends zero (a ∷ bytes) h = absurd (omega arith)
utf8_decode_loop-Ends (suc fuel) (a ∷ bytes) h = elim (Option-cases (next_char a bytes)) [
  | inl e ↦ rw (e, utf8_decode_loop) (λ p. cc)
  | inr ((c, rest), e) ↦
      rw (e, utf8_decode_loop)
        (Ends-bind (utf8_decode_loop fuel rest) _
          (utf8_decode_loop-Ends fuel rest (omega (arith, next_char_shrinks a bytes c rest e)))
          (λ text f p. cc))
]

pub utf8_decode-Ends : (bytes : Bytes) → Ends (utf8_decode bytes)
unfolding utf8_decode
utf8_decode-Ends bytes = utf8_decode_loop-Ends (length bytes) bytes (omega arith)
