-- ===== src/Wire/V3Messages/Placed.antt =====
-- Where the authentication parameters stand in an encoded SNMPv3 message, and that other parameters of
-- the same length change nothing else.
use trishul_snmp.Prelude.{
  ℕ, ◌+◌, ◌-◌, ◌≡◌, ◌∙◌, sym, ap, arith, [], ◌++◌, Result, ok, ◌>>=◌, >>=-eq-ok, length,
  length-append, append-nil, append_assoc,
}
use trishul_snmp.Wire.Bytes.{Bytes, byte}
use trishul_snmp.Wire.Ber.{encode_length, encode_tlv}

-- `out` has `auth` at the offset `at`, and `encode` writes another tag of that length there.
pub record Placed (encode : Bytes → Result Bytes) (auth out : Bytes) (at : ℕ) : Type 0 where
  pub pre : Bytes
  pub post : Bytes
  pub split : out ≡ pre ++ (auth ++ post)
  pub offset : at ≡ length pre
  pub other : (tag : Bytes) → length tag ≡ length auth → encode tag ≡ ok (pre ++ (tag ++ post))

-- The value of a result, or another.
unfoldable pub ok_of : Bytes → Result Bytes → Bytes
ok_of other (ok bs) = bs
ok_of other _ = other

-- What stands before the content of a field depends on the content's length alone.
encode_tlv-frame :
    (t : ℕ) (content out : Bytes)
    → encode_tlv t content ≡ ok out
    → (h : Bytes) × (out ≡ h ++ content)
      × ((other : Bytes) → length other ≡ length content → encode_tlv t other ≡ ok (h ++ other))
unfolding encode_tlv ok_of
encode_tlv-frame t content out e =
    let (first, e₁, h₁) = >>=-eq-ok (byte t) _ e in
    let (size, e₂, h₂) = >>=-eq-ok (encode_length (length content)) _ h₁ in
    (
      first ++ size,
      sym (ap (ok_of out) h₂) ∙ sym (append_assoc first size content),
      λ other same. rw (e₁, same, e₂) (ap ok (sym (append_assoc first size other))),
    )

pub Placed-field :
    (t : ℕ) (auth out : Bytes)
    → encode_tlv t auth ≡ ok out
    → Placed (encode_tlv t) auth out (length out - length auth)
Placed-field t auth out e =
    let (h, same, frame) = encode_tlv-frame t auth out e in
    record {
      pre = h;
      post = [];
      split = same ∙ ap (λ x. h ++ x) (sym (append-nil auth));
      offset = omega (arith, ap length same, length-append h auth);
      other = λ tag l. frame tag l ∙ ap (λ x. ok (h ++ x)) (sym (append-nil tag));
    }

shift :
    (h front pre x post back : Bytes)
    → h ++ (front ++ ((pre ++ (x ++ post)) ++ back))
      ≡ (h ++ (front ++ pre)) ++ (x ++ (post ++ back))
shift h front pre x post back = simp append_assoc

length-around :
    (front pre x y post back : Bytes)
    → length x ≡ length y
    → length (front ++ ((pre ++ (x ++ post)) ++ back))
      ≡ length (front ++ ((pre ++ (y ++ post)) ++ back))
length-around front pre x y post back h = omega (
  arith,
  length-append front ((pre ++ (x ++ post)) ++ back),
  length-append front ((pre ++ (y ++ post)) ++ back),
  length-append (pre ++ (x ++ post)) back,
  length-append (pre ++ (y ++ post)) back,
  length-append pre (x ++ post),
  length-append pre (y ++ post),
  length-append x post,
  length-append y post,
)

-- The parameters within the content of an outer field.
pub Placed-tlv :
    {encode : Bytes → Result Bytes} {auth bs : Bytes} {at : ℕ} (t : ℕ) (front back out : Bytes)
    → Placed encode auth bs at
    → encode_tlv t (front ++ (bs ++ back)) ≡ ok out
    → Placed
        (λ tag. encode tag >>= λ b. encode_tlv t (front ++ (b ++ back)))
        auth
        out
        (length out - length (front ++ (bs ++ back)) + length front + at)
Placed-tlv {encode} {auth} {bs} {at} t front back out p e =
    let (h, same, frame) = encode_tlv-frame t (front ++ (bs ++ back)) out e in
    let inner = ap (λ b. front ++ (b ++ back)) p.split in
    record {
      pre = h ++ (front ++ p.pre);
      post = p.post ++ back;
      split = same ∙ ap (λ c. h ++ c) inner ∙ shift h front p.pre auth p.post back;
      offset = omega (
        arith,
        p.offset,
        ap length same,
        length-append h (front ++ (bs ++ back)),
        length-append h (front ++ p.pre),
        length-append front p.pre,
      );
      other = λ tag l.
          ap (λ r. r >>= λ b. encode_tlv t (front ++ (b ++ back))) (p.other tag l)
          ∙ frame (front ++ ((p.pre ++ (tag ++ p.post)) ++ back))
              (length-around front p.pre tag auth p.post back l ∙ sym (ap length inner))
          ∙ ap ok (shift h front p.pre tag p.post back);
    }

-- The same parameters for an encoder that agrees on tags of that length.
pub Placed-via :
    {encode other : Bytes → Result Bytes} {auth out : Bytes} {at at' : ℕ}
    → ((tag : Bytes) → length tag ≡ length auth → other tag ≡ encode tag)
    → at' ≡ at
    → Placed encode auth out at
    → Placed other auth out at'
Placed-via h e p = record {
  pre = p.pre;
  post = p.post;
  split = p.split;
  offset = e ∙ p.offset;
  other = λ tag l. h tag l ∙ p.other tag l;
}
