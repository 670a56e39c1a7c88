-- ===== src/Wire/IpAddresses/RoundTrip.antt =====
-- `encode_ip_address` reads the text that `decode_ip_address` prints.
use trishul_snmp.Prelude.{
  if◌then◌else◌, ℕ, zero, suc, ◌<◌, ◌≡◌, refl, arith, [], ◌∷◌, ◌++◌, map, ℤ, pos, Option, some,
  Bool, true, false, ◌&&◌, ok, ◌==◌, le→ltb, All, not,
}
use trishul_snmp.Types.{Text}
use trishul_snmp.Wire.Bytes.{Bytes, IsByte}
use trishul_snmp.Wire.IpAddresses.{
  split, join, parse_int, decimal, parse_octets, octet_bytes, encode_ip_address, decode_ip_address,
  cons_first, parse_digits, all_space, parse_sign, decimal_loop,
}

-- A test of every byte, by evaluation.
passes : (ℕ → Bool) → ℕ → Bool
passes test zero = true
passes test (suc n) = let rest = passes test n in if test n then rest else false

passes_at : (test : ℕ → Bool) (k n : ℕ) → k < n → passes test n ≡ true → test k ≡ true
unfolding passes
passes_at test k zero below h = absurd (omega arith)
passes_at test k (suc n) below h = ground (arith, passes_at test k n)

is_number : ℕ → Option ℤ → Bool
is_number n (some (pos m)) = m == n
is_number n _ = false

is_number→eq : (n : ℕ) (o : Option ℤ) → is_number n o ≡ true → o ≡ some (pos n)
unfolding is_number
is_number→eq n o h = ground arith

unfoldable pub has_no_dot : Text → Bool
has_no_dot [] = true
has_no_dot (c ∷ text) = not (c == b'.') && has_no_dot text

parse_table : passes (λ n. is_number n (parse_int (decimal n))) 256 ≡ true
unfolding passes is_number parse_int parse_sign parse_digits all_space decimal decimal_loop
parse_table = refl

dot_table : passes (λ n. has_no_dot (decimal n)) 256 ≡ true
unfolding passes has_no_dot decimal decimal_loop
dot_table = refl

parse_int-decimal : (n : ℕ) → n < 256 → parse_int (decimal n) ≡ some (pos n)
parse_int-decimal n h = is_number→eq n _ (passes_at _ n 256 h parse_table)

pub split-nodot : (text : Text) → has_no_dot text ≡ true → split b'.' text ≡ text ∷ []
unfolding split has_no_dot cons_first
split-nodot [] h = refl
split-nodot (c ∷ text) h = ground (arith, split-nodot text)

pub split-dot :
    (part rest : Text)
    → has_no_dot part ≡ true
    → split b'.' (part ++ (b'.' ∷ rest)) ≡ part ∷ split b'.' rest
unfolding split has_no_dot cons_first
split-dot [] rest h = refl
split-dot (c ∷ part) rest h = ground (arith, split-dot part rest)

decimal-nodot : (n : ℕ) → n < 256 → has_no_dot (decimal n) ≡ true
decimal-nodot n h = passes_at _ n 256 h dot_table

parse_octets-decimal :
    (bs : Bytes) → All IsByte bs → parse_octets (map decimal bs) ≡ ok (map pos bs)
unfolding parse_octets
parse_octets-decimal [] h = refl
parse_octets-decimal (b ∷ bs) h =
    rw (parse_int-decimal b h.0, parse_octets) (rw (parse_octets-decimal bs h.1) refl)

octet_bytes-pos : (bs : Bytes) → All IsByte bs → octet_bytes (map pos bs) ≡ ok bs
unfolding octet_bytes
octet_bytes-pos [] h = refl
octet_bytes-pos (b ∷ bs) h = rw (le→ltb 255 b (omega arith), octet_bytes-pos bs h.1) refl

-- Four bytes printed as a dotted text are parsed back.
encode_ip-octets :
    (a b c d : ℕ)
    → All IsByte (a ∷ b ∷ c ∷ d ∷ [])
    → encode_ip_address (join b'.' (map decimal (a ∷ b ∷ c ∷ d ∷ []))) ≡ ok (a ∷ b ∷ c ∷ d ∷ [])
unfolding encode_ip_address join
encode_ip-octets a b c d h =
    let bs : Bytes = a ∷ b ∷ c ∷ d ∷ [] in
    rw
      (
        split-dot (decimal a) (decimal b ++ (b'.' ∷ (decimal c ++ (b'.' ∷ decimal d))))
            (decimal-nodot a h.0),
        split-dot (decimal b) (decimal c ++ (b'.' ∷ decimal d)) (decimal-nodot b h.1.0),
        split-dot (decimal c) (decimal d) (decimal-nodot c h.1.1.0),
        split-nodot (decimal d) (decimal-nodot d h.1.1.1.0),
        parse_octets-decimal bs h,
        octet_bytes-pos bs h,
      )
      refl

-- The text that `decode_ip_address` prints for four bytes, `encode_ip_address` reads.
pub encode-decode_ip :
    (content : Bytes) (text : Text)
    → All IsByte content
    → decode_ip_address content ≡ ok text
    → encode_ip_address text ≡ ok content
unfolding decode_ip_address
encode-decode_ip (a ∷ b ∷ c ∷ d ∷ []) text bytes h =
    let e : join b'.' (map decimal (a ∷ b ∷ c ∷ d ∷ [])) ≡ text = cc in
    rw (← e) (encode_ip-octets a b c d bytes)
encode-decode_ip [] text bytes h = cc
encode-decode_ip (a ∷ []) text bytes h = cc
encode-decode_ip (a ∷ b ∷ []) text bytes h = cc
encode-decode_ip (a ∷ b ∷ c ∷ []) text bytes h = cc
encode-decode_ip (a ∷ b ∷ c ∷ d ∷ e ∷ rest) text bytes h = ground arith
