-- ===== src/Types.antt =====
-- trishul_snmp/types.py: object identifiers, SNMP values and the error statuses of a PDU.
use trishul_snmp.Prelude.{ℕ, ℤ, List, Bool, true, false, Option}
use trishul_snmp.Wire.Bytes.{Bytes}

-- A tuple of arcs. `parse_oid` and the decoder let no negative arc through, so an arc is an ℕ.
abbrev pub Oid : Type 0
Oid = List ℕ

-- Python's str, as its code points.
abbrev pub Text : Type 0
Text = List ℕ

pub data SnmpValue : Type 0 where
  integer : ℤ → SnmpValue
  octet_string : Bytes → SnmpValue
  null : SnmpValue
  object_identifier : Oid → SnmpValue
  ip_address : Text → SnmpValue
  counter32 : ℤ → SnmpValue
  gauge32 : ℤ → SnmpValue
  time_ticks : ℤ → SnmpValue
  opaque : Bytes → SnmpValue
  counter64 : ℤ → SnmpValue
  no_such_object : SnmpValue
  no_such_instance : SnmpValue
  end_of_mib_view : SnmpValue

-- types.py: a numeric identifier resolved against a bundle.
pub record OidMatch : Type 0 where
  pub oid : Oid
  pub module_name : Text
  pub symbol : Text
  pub matched_oid : Oid
  pub suffix : Oid
  pub class_name : Option Text
  pub object_type : Option Text
  pub nodetype : Option Text

pub record VarBind : Type 0 where
  pub oid : Oid
  pub value : SnmpValue
  pub resolved : Option OidMatch
  pub display_name : Option Text
  pub display_value : Option Text

-- `error_status` is the member of `ErrorStatus` of that value.
pub record Response : Type 0 where
  pub request_id : ℤ
  pub error_status : ℕ
  pub error_index : ℤ
  pub varbinds : List VarBind

unfoldable pub is_end_of_mib_view : SnmpValue → Bool
is_end_of_mib_view end_of_mib_view = true
is_end_of_mib_view _ = false
