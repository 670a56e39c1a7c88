-- ===== src/Mib/Names/RoundTrip.antt =====
-- `parse_oid` and `parse_symbolic_target` read the texts that the library prints.
use trishul_snmp.Prelude.{
  ℕ, [], ◌∷◌, ◌++◌, map, ◌≡◌, ◌∙◌, refl, sym, ap, arith, pos, Bool, true, false, ◌&&◌, ◌||◌, ok,
  ◌>>=◌, if◌then◌else◌, ◌==◌,
}
use trishul_snmp.Types.{Oid, Text}
use trishul_snmp.Wire.IpAddresses.{split, join, is_digit, is_space, decimal}
use trishul_snmp.Wire.IpAddresses.RoundTrip.{has_no_dot, split-nodot, split-dot}
use trishul_snmp.Mib.Names.{
  named, oid_to_string, is_blank, strip_left, strip_right, strip, strip_dots, parse_arcs,
  natural_arcs, parse_oid_text, parse_oid, all_digits,
}
use trishul_snmp.Mib.Names.Digits.{
  all_digits-decimal, decimal-cons, digit_no_dot, parse_int-decimal,
}

-- Digits and dots, none of which is a space.
unfoldable pub all_plain : Text → Bool
all_plain [] = true
all_plain (c ∷ text) = (is_digit c || c == b'.') && all_plain text

plain_no_space : (c : ℕ) → (is_digit c || c == b'.') ≡ true → is_space c ≡ false
plain_no_space c h = ground arith

has_no_dot-digits : (text : Text) → all_digits text ≡ true → has_no_dot text ≡ true
unfolding has_no_dot all_digits
has_no_dot-digits [] h = refl
has_no_dot-digits (c ∷ text) h = ground (arith, has_no_dot-digits text)

all_plain-append :
    (xs ys : Text) → all_digits xs ≡ true → all_plain ys ≡ true → all_plain (xs ++ ys) ≡ true
unfolding all_plain all_digits
all_plain-append [] ys h k = k
all_plain-append (c ∷ xs) ys h k = ground (arith, all_plain-append xs ys)

all_plain-digits : (text : Text) → all_digits text ≡ true → all_plain text ≡ true
unfolding all_plain all_digits
all_plain-digits [] h = refl
all_plain-digits (c ∷ text) h = ground (arith, all_plain-digits text)

pub all_plain-join : (oid : Oid) → all_plain (join b'.' (map decimal oid)) ≡ true
unfolding join all_plain
all_plain-join [] = refl
all_plain-join (a ∷ []) = all_plain-digits (decimal a) (all_digits-decimal a)
all_plain-join (a ∷ b ∷ oid) =
    all_plain-append (decimal a) (b'.' ∷ join b'.' (map decimal (b ∷ oid))) (all_digits-decimal a)
      (all_plain-join (b ∷ oid))

pub split-join :
    (a : ℕ) (oid : Oid) → split b'.' (join b'.' (map decimal (a ∷ oid))) ≡ map decimal (a ∷ oid)
unfolding join
split-join a [] = split-nodot (decimal a) (has_no_dot-digits (decimal a) (all_digits-decimal a))
split-join a (b ∷ oid) =
    split-dot (decimal a) (join b'.' (map decimal (b ∷ oid)))
      (has_no_dot-digits (decimal a) (all_digits-decimal a))
    ∙ ap (◌∷◌ (decimal a)) (split-join b oid)

strip_left-plain : (text : Text) → all_plain text ≡ true → strip_left text ≡ text
unfolding strip_left all_plain
strip_left-plain [] h = refl
strip_left-plain (c ∷ text) h =
    let s : is_space c ≡ false = plain_no_space c (ground arith) in rw s refl

kept_char :
    (c : ℕ) (stripped text : Text)
    → stripped ≡ text
    → (if is_blank stripped && false then [] else c ∷ stripped) ≡ c ∷ text
kept_char c [] text h = ap (◌∷◌ c) h
kept_char c (d ∷ stripped) text h = ap (◌∷◌ c) h

strip_right-plain : (text : Text) → all_plain text ≡ true → strip_right text ≡ text
unfolding strip_right all_plain
strip_right-plain [] h = refl
strip_right-plain (c ∷ text) h =
    let s : is_space c ≡ false = plain_no_space c (ground arith) in
    let rest : all_plain text ≡ true = ground arith in
    ap (λ b. if is_blank (strip_right text) && b then [] else c ∷ strip_right text) s
    ∙ kept_char c (strip_right text) text (strip_right-plain text rest)

pub strip-plain : (text : Text) → all_plain text ≡ true → strip text ≡ text
unfolding strip
strip-plain text h = ap strip_right (strip_left-plain text h) ∙ strip_right-plain text h

-- The text of an identifier starts with a digit.
pub oid_to_string-cons :
    (a : ℕ) (oid : Oid)
    → (c : ℕ) × (rest : Text) × (oid_to_string (a ∷ oid) ≡ c ∷ rest) × (is_digit c ≡ true)
unfolding oid_to_string join
oid_to_string-cons a [] = decimal-cons a
oid_to_string-cons a (b ∷ oid) =
    let (c, rest, e, d) = decimal-cons a in
    let more = b'.' ∷ join b'.' (map decimal (b ∷ oid)) in
    (c, rest ++ more, ap (λ t. t ++ more) e, d)

pub strip_dots-digit : (c : ℕ) (rest : Text) → is_digit c ≡ true → strip_dots (c ∷ rest) ≡ c ∷ rest
unfolding strip_dots
strip_dots-digit c rest d = rw (digit_no_dot c d) refl

parse_arcs-decimal : (oid : Oid) → parse_arcs (map decimal oid) ≡ ok (map pos oid)
unfolding parse_arcs
parse_arcs-decimal [] = refl
parse_arcs-decimal (a ∷ oid) = rw (parse_int-decimal a, parse_arcs-decimal oid) refl

natural_arcs-pos : (oid : Oid) → natural_arcs (map pos oid) ≡ ok oid
unfolding natural_arcs
natural_arcs-pos [] = refl
natural_arcs-pos (a ∷ oid) = rw (natural_arcs-pos oid) refl

-- A text in which nothing is stripped.
parse_oid_text-stripped :
    (t : Text) (c : ℕ) (rest : Text)
    → strip t ≡ t
    → t ≡ c ∷ rest
    → is_digit c ≡ true
    → parse_oid_text t ≡ (parse_arcs (split b'.' t) >>= natural_arcs)
unfolding parse_oid_text
parse_oid_text-stripped t c rest s e d =
    let dots : strip_dots (strip t) ≡ t =
      ap strip_dots (s ∙ e) ∙ strip_dots-digit c rest d ∙ sym e in
    let blank : is_blank t ≡ false = ap is_blank e in rw (dots, s, blank) refl

-- `parse_oid` gives back an identifier from its text, if it has an arc.
pub parse_oid-oid_to_string :
    (a : ℕ) (oid : Oid) → parse_oid (named (oid_to_string (a ∷ oid))) ≡ ok (a ∷ oid)
unfolding parse_oid oid_to_string
parse_oid-oid_to_string a oid =
    let t = join b'.' (map decimal (a ∷ oid)) in
    let (c, rest, e, d) = oid_to_string-cons a oid in
    parse_oid_text-stripped t c rest (strip-plain t (all_plain-join (a ∷ oid))) e d
    ∙ ap (λ parts. parse_arcs parts >>= natural_arcs) (split-join a oid)
    ∙ ap (λ r. r >>= natural_arcs) (parse_arcs-decimal (a ∷ oid))
    ∙ natural_arcs-pos (a ∷ oid)
