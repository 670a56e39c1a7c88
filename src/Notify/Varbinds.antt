-- ===== src/Notify/Varbinds.antt =====
-- trishul_snmp/notify/client.py: the variable bindings of a trap or an inform.
use trishul_snmp.Prelude.{
  none, some, List, [], ◌∷◌, ◌++◌, ℤ, pos, negsuc, Bool, true, false, Option, Result, ok, err,
  value_error, ◌>>=◌, ◌>>◌, raise_if, ◌&&◌, seq_eq, if◌then◌else◌, map,
}
use trishul_snmp.Types.{Oid, SnmpValue, time_ticks, object_identifier}
use trishul_snmp.Dict.{is_some}
use trishul_snmp.Wire.Pdus.{RawVarBind}
use trishul_snmp.Mib.Names.{Target}
use trishul_snmp.Mib.Registry.{MibRegistry}
use trishul_snmp.Mib.Targets.{normalize_targets}

-- 1.3.6.1.2.1.1.3.0
abbrev pub sys_uptime_instance_oid : Oid
sys_uptime_instance_oid = 1 ∷ 3 ∷ 6 ∷ 1 ∷ 2 ∷ 1 ∷ 1 ∷ 3 ∷ 0 ∷ []

-- 1.3.6.1.6.3.1.1.4.1.0
abbrev pub snmp_trap_oid_instance_oid : Oid
snmp_trap_oid_instance_oid = 1 ∷ 3 ∷ 6 ∷ 1 ∷ 6 ∷ 3 ∷ 1 ∷ 1 ∷ 4 ∷ 1 ∷ 0 ∷ []

-- The value of an ObjectIdentifierValue, and of a TimeTicksValue.
unfoldable pub oid_value : SnmpValue → Option Oid
oid_value (object_identifier value) = some value
oid_value _ = none

unfoldable pub ticks_value : SnmpValue → Option ℤ
ticks_value (time_ticks value) = some value
ticks_value _ = none

unfoldable pub is_uptime : Oid → SnmpValue → Bool
unfolding seq_eq ticks_value
is_uptime oid value = seq_eq oid sys_uptime_instance_oid && is_some (ticks_value value)

unfoldable pub is_trap_oid : Oid → SnmpValue → Bool
unfolding seq_eq oid_value
is_trap_oid oid value = seq_eq oid snmp_trap_oid_instance_oid && is_some (oid_value value)

-- The two values that come first, and the other bindings.
pub record Collected : Type 0 where
  pub sys_uptime : SnmpValue
  pub trap_oid : SnmpValue
  pub extras : List RawVarBind

-- The body of the loop over the explicit bindings.
unfoldable pub collect_one : Collected → RawVarBind → Collected
unfolding is_uptime is_trap_oid
collect_one s varbind =
    if is_uptime varbind.oid varbind.value
    then record s { sys_uptime = varbind.value }
    else if is_trap_oid varbind.oid varbind.value
    then record s { trap_oid = varbind.value }
    else record s { extras = s.extras ++ (varbind ∷ []) }

unfoldable pub collect : Collected → List RawVarBind → Collected
unfolding collect_one
collect s [] = s
collect s (varbind ∷ rest) = collect (collect_one s varbind) rest

unfoldable pub notification_list : Collected → List RawVarBind
notification_list s =
    record { oid = sys_uptime_instance_oid; value = s.sys_uptime }
    ∷ record { oid = snmp_trap_oid_instance_oid; value = s.trap_oid }
    ∷ s.extras

-- `zip(oids, varbinds, strict=True)`
unfoldable pub zip_values : List Oid → List (Target × SnmpValue) → Result (List RawVarBind)
zip_values [] [] = ok []
zip_values (oid ∷ oids) ((target, value) ∷ varbinds) = do
  rest ← zip_values oids varbinds
  ok (record { oid = oid; value = value } ∷ rest)
zip_values _ _ = err value_error

abbrev pub target_of : Target × SnmpValue → Target
target_of (target, value) = target

unfoldable pub normalize_explicit_varbinds :
    Option MibRegistry → List (Target × SnmpValue) → Result (List RawVarBind)
unfolding normalize_targets zip_values
normalize_explicit_varbinds bundle [] = ok []
normalize_explicit_varbinds bundle (varbind ∷ varbinds) = do
  oids ← normalize_targets bundle (map target_of (varbind ∷ varbinds))
  zip_values oids (varbind ∷ varbinds)

abbrev pub is_negative : ℤ → Bool
is_negative (pos n) = false
is_negative (negsuc n) = true

-- Also `build_notification_raw_varbinds` and `encode_notification_raw_varbinds`, which pass their
-- arguments on; the pairs of the first are the records of the second.
unfoldable pub build_notification_varbinds :
    Option MibRegistry → Oid → List (Target × SnmpValue) → ℤ → Result (List RawVarBind)
unfolding normalize_explicit_varbinds collect notification_list
build_notification_varbinds bundle notification_oid varbinds uptime = do
  raise_if (is_negative uptime) value_error
  explicit ← normalize_explicit_varbinds bundle varbinds
  let start : Collected = record {
    sys_uptime = time_ticks uptime;
    trap_oid = object_identifier notification_oid;
    extras = [];
  }
  ok (notification_list (collect start explicit))
