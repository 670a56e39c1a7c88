-- ===== src/Wire/Oids.antt =====
-- The OBJECT IDENTIFIER contents of trishul_snmp/wire/asn1.py, base-128 arcs included.
pub mod Arcs
pub mod RoundTrip
pub mod Ends
use mathlib.Core.List.{reverse}
use trishul_snmp.Prelude.{
  ℕ, zero, suc, ◌+◌, ◌-◌, ◌*◌, ◌/◌, ◌%◌, List, [], ◌∷◌, ◌++◌, ◌&&◌, Result, ok, err, protocol_error,
  out_of_fuel, ◌>>=◌, ◌>>◌, raise_if, require, ltb, leb, ◌==◌, if◌then◌else◌, length, get_elem?,
}
use trishul_snmp.Types.{Oid}
use trishul_snmp.Wire.Bytes.{Bytes, byte}

-- The `while value` loop: seven binary digits at a time, lowest first. A number loses at least
-- half in a round, so `value` rounds are enough.
unfoldable pub chunks_loop : ℕ → ℕ → List ℕ
chunks_loop zero value = []
chunks_loop (suc fuel) value =
    let more = (value % 128) ∷ chunks_loop fuel (value / 128) in if value == 0 then [] else more

-- The `for` loop over the reversed chunks: every byte but the last has the top bit.
unfoldable pub mark_chunks : List ℕ → Bytes
mark_chunks [] = []
mark_chunks (chunk ∷ []) = chunk ∷ []
mark_chunks (chunk ∷ next ∷ rest) = (chunk + 128) ∷ mark_chunks (next ∷ rest)

unfoldable pub encode_base128 : ℕ → Bytes
unfolding chunks_loop mark_chunks
encode_base128 value =
    if value == 0 then 0x00 ∷ [] else mark_chunks (reverse (chunks_loop value value))

-- Each round takes a byte, so a round more than there are bytes is enough.
unfoldable pub decode_base128_loop : ℕ → Bytes → ℕ → ℕ → Result (ℕ × ℕ)
decode_base128_loop zero content value offset = err out_of_fuel
decode_base128_loop (suc fuel) content value offset = do
  b ← require (get_elem? content offset) protocol_error
  let value' = value * 128 + b % 128
  let more = decode_base128_loop fuel content value' (offset + 1)
  if b / 128 % 2 == 0 then ok (value', offset + 1) else more

unfoldable pub decode_base128 : Bytes → ℕ → Result (ℕ × ℕ)
unfolding decode_base128_loop
decode_base128 content offset = decode_base128_loop (suc (length content)) content 0 offset

unfoldable pub encode_arcs : List ℕ → Bytes
encode_arcs [] = []
encode_arcs (arc ∷ arcs) = encode_base128 arc ++ encode_arcs arcs

-- `bytearray([x])` raises ValueError for x above 255, as `bytes([x])` does.
unfoldable pub encode_oid : Oid → Result Bytes
unfolding encode_arcs
encode_oid [] = err protocol_error
encode_oid (first ∷ []) = err protocol_error
encode_oid (first ∷ second ∷ arcs) = do
  raise_if (ltb 2 first) protocol_error
  raise_if (ltb first 2 && leb 40 second) protocol_error
  head ← byte (first * 40 + second)
  ok (head ++ encode_arcs arcs)

-- The `while offset < len(content)` loop. Each arc takes a byte at least.
unfoldable pub decode_arcs : ℕ → Bytes → ℕ → Result (List ℕ)
decode_arcs zero content offset = if ltb offset (length content) then err out_of_fuel else ok []
decode_arcs (suc fuel) content offset =
    if ltb offset (length content)
    then (do
      (arc, next) ← decode_base128 content offset
      arcs ← decode_arcs fuel content next
      ok (arc ∷ arcs))
    else ok []

unfoldable pub first_arcs : ℕ → List ℕ
first_arcs first =
    if ltb first 40
    then 0 ∷ first ∷ []
    else if ltb first 80
    then 1 ∷ (first - 40) ∷ []
    else 2 ∷ (first - 80) ∷ []

unfoldable pub decode_oid : Bytes → Result Oid
unfolding first_arcs decode_arcs decode_base128
decode_oid [] = err protocol_error
decode_oid (first ∷ rest) = do
  arcs ← decode_arcs (length (first ∷ rest)) (first ∷ rest) 1
  ok (first_arcs first ++ arcs)
