-- ===== src/Mib/Names/Digits.antt =====
-- `int` reads what `str` writes.
use trishul_snmp.Prelude.{
  ℕ, zero, suc, ◌+◌, ◌-◌, ◌*◌, ◌/◌, ◌%◌, ◌<◌, ◌≡◌, ◌∙◌, refl, sym, ap, arith, [], ◌∷◌, ◌++◌, pos,
  Bool, true, false, Bool-cases, inl, inr, some, ltb, ltb→lt, ◌==◌, append_assoc, append-nil,
}
use trishul_snmp.Types.{Text}
use trishul_snmp.Wire.IpAddresses.{
  is_digit, is_space, parse_digits, parse_sign, parse_int, decimal_loop, decimal,
}
use trishul_snmp.Mib.Names.{is_blank, all_digits}

digit_char : (d : ℕ) → d < 10 → is_digit (b'0' + d) ≡ true
digit_char d h = ground arith

parse_digits-digit :
    (v : ℕ) (seen : Bool) (d : ℕ) (rest : Text)
    → d < 10
    → parse_digits v seen ((b'0' + d) ∷ rest) ≡ parse_digits (v * 10 + d) true rest
unfolding parse_digits
parse_digits-digit v seen d rest h =
    let value : v * 10 + (b'0' + d - b'0') ≡ v * 10 + d = omega arith in
    rw (digit_char d h) (ap (λ n. parse_digits n true rest) value)

parse_digits-decimal_loop :
    (fuel n : ℕ) (seen : Bool) (rest : Text)
    → n < fuel
    → parse_digits 0 seen (decimal_loop fuel n ++ rest) ≡ parse_digits n true rest
unfolding decimal_loop
parse_digits-decimal_loop zero n seen rest h = absurd (omega arith)
parse_digits-decimal_loop (suc fuel) n seen rest h = elim (Bool-cases (ltb n 10)) [
  | inl t ↦ rw t (
      parse_digits-digit 0 seen n rest (ltb→lt n 10 t)
      ∙ ap (λ m. parse_digits m true rest) (omega arith))
  | inr f ↦
      let value : n / 10 * 10 + n % 10 ≡ n = omega arith in
      let below : n / 10 < fuel = ground (arith, f) in
      let last : n % 10 < 10 = omega arith in
      rw f (
        ap (parse_digits 0 seen)
          (append_assoc (decimal_loop fuel (n / 10)) ((b'0' + n % 10) ∷ []) rest)
        ∙ parse_digits-decimal_loop fuel (n / 10) seen ((b'0' + n % 10) ∷ rest) below
        ∙ parse_digits-digit (n / 10) true (n % 10) rest last
        ∙ ap (λ m. parse_digits m true rest) value)
]

all_digits-append :
    (xs ys : Text) → all_digits xs ≡ true → all_digits ys ≡ true → all_digits (xs ++ ys) ≡ true
unfolding all_digits
all_digits-append [] ys h k = k
all_digits-append (c ∷ xs) ys h k = ground (arith, all_digits-append xs ys)

all_digits-decimal_loop : (fuel n : ℕ) → all_digits (decimal_loop fuel n) ≡ true
unfolding decimal_loop all_digits
all_digits-decimal_loop zero n = refl
all_digits-decimal_loop (suc fuel) n = elim (Bool-cases (ltb n 10)) [
  | inl t ↦ rw (t, digit_char n (ltb→lt n 10 t)) refl
  | inr f ↦
      let last = digit_char (n % 10) (omega arith) in
      rw f (
        all_digits-append (decimal_loop fuel (n / 10)) ((b'0' + n % 10) ∷ [])
          (all_digits-decimal_loop fuel (n / 10)) (rw last refl))
]

pub all_digits-decimal : (n : ℕ) → all_digits (decimal n) ≡ true
unfolding decimal
all_digits-decimal n = all_digits-decimal_loop (suc n) n

is_blank-append : (xs : Text) (y : ℕ) (ys : Text) → is_blank (xs ++ (y ∷ ys)) ≡ false
is_blank-append [] y ys = refl
is_blank-append (x ∷ xs) y ys = refl

pub is_blank-decimal : (n : ℕ) → is_blank (decimal n) ≡ false
unfolding decimal decimal_loop
is_blank-decimal n = elim (Bool-cases (ltb n 10)) [
  | inl t ↦ rw t refl
  | inr f ↦ rw f (is_blank-append (decimal_loop n (n / 10)) (b'0' + n % 10) [])
]

-- The first character of a text.
cons_digit :
    (text : Text)
    → is_blank text ≡ false
    → all_digits text ≡ true
    → (c : ℕ) × (rest : Text) × (text ≡ c ∷ rest) × (is_digit c ≡ true)
unfolding all_digits
cons_digit [] h k = cc
cons_digit (c ∷ rest) h k = (c, rest, refl, ground arith)

pub decimal-cons : (n : ℕ) → (c : ℕ) × (rest : Text) × (decimal n ≡ c ∷ rest) × (is_digit c ≡ true)
decimal-cons n = cons_digit (decimal n) (is_blank-decimal n) (all_digits-decimal n)

pub digit_no_space : (c : ℕ) → is_digit c ≡ true → is_space c ≡ false
digit_no_space c h = ground arith

pub digit_no_dot : (c : ℕ) → is_digit c ≡ true → (c == b'.') ≡ false
digit_no_dot c h = ground arith

digit_no_minus : (c : ℕ) → is_digit c ≡ true → (c == b'-') ≡ false
digit_no_minus c h = ground arith

digit_no_plus : (c : ℕ) → is_digit c ≡ true → (c == b'+') ≡ false
digit_no_plus c h = ground arith

parse_int-digits :
    (c : ℕ) (rest : Text) (n : ℕ)
    → is_digit c ≡ true
    → parse_digits 0 false (c ∷ rest) ≡ some n
    → parse_int (c ∷ rest) ≡ some (pos n)
unfolding parse_int parse_sign
parse_int-digits c rest n d h =
    rw (digit_no_space c d, digit_no_minus c d, digit_no_plus c d, h) refl

pub parse_int-decimal : (n : ℕ) → parse_int (decimal n) ≡ some (pos n)
unfolding decimal parse_digits
parse_int-decimal n =
    let (c, rest, e, d) = decimal-cons n in
    let read =
      ap (parse_digits 0 false) (sym (append-nil (decimal n)))
      ∙ parse_digits-decimal_loop (suc n) n false [] (omega arith) in
    ap parse_int e ∙ parse_int-digits c rest n d (ap (parse_digits 0 false) (sym e) ∙ read)
