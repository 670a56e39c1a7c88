-- ===== src/Mib/Targets.antt =====
-- trishul_snmp/_runtime.py: targets and responses of the manager, and `response_error_status` of
-- trishul_snmp/wire/pdu.py.
use trishul_snmp.Prelude.{
  ℕ, List, [], ◌∷◌, ℤ, pos, negsuc, Option, none, some, Bool, Result, ok, err, protocol_error,
  value_error, unknown_symbol_error, ◌>>=◌, ltb, if◌then◌else◌,
}
use trishul_snmp.Types.{Oid, Text, Response}
use trishul_snmp.Dict.{is_some}
use trishul_snmp.Wire.Pdus.{Pdu}
use trishul_snmp.Mib.Names.{
  Target, named, numbered, strip, parse_oid, parse_oid_text, is_numeric_oid_text, partition_colons,
}
use trishul_snmp.Mib.Registry.{MibRegistry, resolve_symbolic}
use trishul_snmp.Mib.Render.{enrich_varbinds}

unfoldable pub resolve_with : Option MibRegistry → Text → Result Oid
unfolding resolve_symbolic
resolve_with none stripped = err unknown_symbol_error
resolve_with (some s) stripped = resolve_symbolic s stripped

unfoldable pub normalize_text : Option MibRegistry → Text → Result Oid
unfolding resolve_with partition_colons is_numeric_oid_text parse_oid_text
normalize_text bundle stripped =
    if is_some (partition_colons stripped)
    then resolve_with bundle stripped
    else if is_numeric_oid_text stripped
    then parse_oid_text stripped
    else err unknown_symbol_error

unfoldable pub normalize_target : Option MibRegistry → Target → Result Oid
unfolding normalize_text strip parse_oid
normalize_target bundle (named target) = normalize_text bundle (strip target)
normalize_target bundle (numbered arcs) = parse_oid (numbered arcs)

unfoldable pub normalize_each : Option MibRegistry → List Target → Result (List Oid)
unfolding normalize_target
normalize_each bundle [] = ok []
normalize_each bundle (target ∷ rest) = do
  oid ← normalize_target bundle target
  oids ← normalize_each bundle rest
  ok (oid ∷ oids)

unfoldable pub normalize_targets : Option MibRegistry → List Target → Result (List Oid)
unfolding normalize_each
normalize_targets bundle [] = err value_error
normalize_targets bundle (target ∷ rest) = normalize_each bundle (target ∷ rest)

-- `ErrorStatus` has the values from 0 to 18.
unfoldable pub response_error_status : ℤ → Result ℕ
response_error_status (pos status) = if ltb status 19 then ok status else err protocol_error
response_error_status (negsuc n) = err protocol_error

unfoldable pub response_from_pdu : (ℕ → Bool) → Option MibRegistry → Pdu → Result Response
unfolding response_error_status enrich_varbinds
response_from_pdu is_printable bundle pdu = do
  error_status ← response_error_status pdu.error_status
  varbinds ← enrich_varbinds is_printable bundle pdu.varbinds
  ok (record {
    request_id = pdu.request_id;
    error_status = error_status;
    error_index = pdu.error_index;
    varbinds = varbinds;
  })
