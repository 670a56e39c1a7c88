-- ===== src/Wire/Ber/Placement.antt =====
-- Where the content of a field stands in the bytes that it was read from.
use trishul_snmp.Prelude.{
  ℕ, ◌+◌, ◌-◌, ◌≤◌, ◌≡◌, refl, ap, ◌∙◌, arith, ◌++◌, append_assoc, ok, length, length-append,
  length-take, length-drop, take, drop, Bool, true, false, Result, err, Error, protocol_error,
  raise_if, require, get_elem?, ltb, ◌==◌, not, >>=-eq-ok, take-append-drop, take-append,
  drop-append, slice,
}
use trishul_snmp.Wire.Bytes.{Bytes}
use trishul_snmp.Wire.Ber.{decode_length, Tlv, decode_tlv, expect_end}

pub record Stands (whole : Bytes) (start : ℕ) (content : Bytes) : Type 0 where
  pub front : Bytes
  pub rest : Bytes
  pub split : whole ≡ front ++ (content ++ rest)
  pub size : length front ≡ start

pub Stands-trans :
    (whole middle content : Bytes) (a b : ℕ)
    → Stands whole a middle
    → Stands middle b content
    → Stands whole (a + b) content
Stands-trans whole middle content a b h k = record {
  front = h.front ++ k.front;
  rest = k.rest ++ h.rest;
  split = h.split ∙ ap (λ m. h.front ++ (m ++ h.rest)) k.split ∙ simp (append_assoc);
  size = omega (arith, length-append h.front k.front, h.size, k.size);
}

pub Stands-slice :
    (whole : Bytes) (start : ℕ) (content : Bytes)
    → Stands whole start content
    → slice whole start (start + length content) ≡ content
Stands-slice whole start content h =
    let e : start + length content - start ≡ length content = omega arith in
    rw (e, h.split, ← h.size)
      (rw (drop-append h.front (content ++ h.rest)) (take-append content h.rest))

-- A slice within the bytes stands at its start.
slice-Stands :
    (whole : Bytes) (start end : ℕ)
    → start ≤ end
    → end ≤ length whole
    → Stands whole (end - length (slice whole start end)) (slice whole start end)
slice-Stands whole start end h k = record {
  front = take start whole;
  rest = drop (end - start) (drop start whole);
  split = rw (take-append-drop (end - start) (drop start whole), take-append-drop start whole) refl;
  size = omega (
    arith,
    length-take start whole,
    length-take (end - start) (drop start whole),
    length-drop start whole,
  );
}

content_of : Bytes → Result (Tlv × ℕ) → Bytes
content_of other (ok (t, end)) = t.content
content_of other (err e) = other

tag_of : ℕ → Result (Tlv × ℕ) → ℕ
tag_of other (ok (t, end)) = t.tag
tag_of other (err e) = other

raise_if-ok : (b : Bool) (e : Error) (u : Unit {0}) → raise_if b e ≡ ok u → b ≡ false
raise_if-ok true e u h = cc
raise_if-ok false e u h = refl

pub decode_tlv-Stands :
    (whole : Bytes) (offset : ℕ) (t : Tlv) (end : ℕ)
    → decode_tlv whole offset ≡ ok (t, end)
    → Stands whole (end - length t.content) t.content
unfolding decode_tlv content_of
decode_tlv-Stands whole offset t end h =
    let (tag, e₁, h₁) = >>=-eq-ok (require (get_elem? whole offset) protocol_error) _ h in
    let ((n, start), e₂, h₂) = >>=-eq-ok (decode_length whole (offset + 1)) _ h₁ in
    let stop = start + n in
    let (u, e₃, h₃) = >>=-eq-ok (raise_if (ltb (length whole) stop) protocol_error) _ h₂ in
    let inside : ltb (length whole) stop ≡ false = raise_if-ok _ protocol_error u e₃ in
    let ends : stop ≡ end = cc in
    let same : slice whole start stop ≡ t.content = ap (content_of t.content) h₃ in
    rw (← same, ← ends) (slice-Stands whole start stop (omega arith) (ground (arith, inside)))

-- The end of the input.
pub expect_end-eq :
    (whole : Bytes) (offset : ℕ) (u : Unit {0})
    → expect_end whole offset ≡ ok u
    → offset ≡ length whole
unfolding expect_end
expect_end-eq whole offset u h =
    let inside = raise_if-ok (not (offset == length whole)) protocol_error u h in
    ground (arith, inside)
