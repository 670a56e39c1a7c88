-- ===== src/Wire/Bytes/Reader.antt =====
-- Decoders that read from an offset: where a decoder stands, and what it reads there.
use trishul_snmp.Prelude.{
  ℕ, ◌+◌, ◌-◌, ◌≤◌, ◌≡◌, refl, sym, ap, ◌∙◌, arith, [], ◌∷◌, ◌++◌, some, Result, ok, length, drop,
  slice, get_elem?, head_option, length-append, get_elem?-drop, take-append, drop-append, drop-drop,
  append-nil,
}
use trishul_snmp.Wire.Bytes.{Bytes}

-- What is left of `content` from `offset` on is `rest`.
pub record At (content : Bytes) (offset : ℕ) (rest : Bytes) : Type 0 where
  pub left : drop offset content ≡ rest
  pub size : offset + length rest ≡ length content

pub At-start : (content : Bytes) → At content 0 content
At-start content = record { left = refl; size = omega arith }

pub At-first : (content : Bytes) → At content 0 (content ++ [])
At-first content = rw append-nil (At-start content)

pub At-next :
    {content : Bytes} {offset : ℕ} (front rest : Bytes)
    → At content offset (front ++ rest)
    → At content (offset + length front) rest
At-next {content} {offset} front rest h = record {
  left =
      sym (drop-drop offset (length front) (offset + length front) content refl)
      ∙ rw h.left (drop-append front rest);
  size = omega (arith, h.size, length-append front rest);
}

pub At-end : {content : Bytes} {offset : ℕ} → At content offset [] → offset ≡ length content
At-end h = omega (arith, h.size)

pub At-get_elem? :
    {content : Bytes} {offset b : ℕ} {rest : Bytes}
    → At content offset (b ∷ rest)
    → get_elem? content offset ≡ some b
At-get_elem? {content} {offset} h = get_elem?-drop content offset ∙ ap head_option h.left

pub At-slice :
    {content : Bytes} {offset : ℕ} (front rest : Bytes)
    → At content offset (front ++ rest)
    → slice content offset (offset + length front) ≡ front
At-slice {content} {offset} front rest h =
    let e : offset + length front - offset ≡ length front = omega arith in
    rw (e, h.left) (take-append front rest)

pub At-le :
    {content : Bytes} {offset : ℕ} (front rest : Bytes)
    → At content offset (front ++ rest)
    → offset + length front ≤ length content
At-le front rest h = omega (arith, h.size, length-append front rest)

-- Wherever `bs` stands, the decoder returns `a` and the offset behind `bs`.
pub record Reads {ℓ} {A : Type ℓ} (decode : Bytes → ℕ → Result (A × ℕ)) (bs : Bytes) (a : A)
    : Type ℓ where
  pub at :
      (content : Bytes) (offset : ℕ) (rest : Bytes)
      → At content offset (bs ++ rest)
      → decode content offset ≡ ok (a, offset + length bs)

At-append : (front rest : Bytes) → At (front ++ rest) (length front) rest
At-append front rest = record {
  left = drop-append front rest;
  size = sym (length-append front rest);
}

pub Reads-within {ℓ} :
    {A : Type ℓ} {decode : Bytes → ℕ → Result (A × ℕ)} {bs : Bytes} {a : A} (front rest : Bytes)
    → Reads decode bs a
    → decode (front ++ (bs ++ rest)) (length front) ≡ ok (a, length front + length bs)
Reads-within {bs = bs} front rest r = r.at _ (length front) rest (At-append front (bs ++ rest))
