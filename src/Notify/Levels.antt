-- ===== src/Notify/Levels.antt =====
-- trishul_snmp/notify/v3.py: the security level of a message and of a user.
use trishul_snmp.Prelude.{
  ℕ, ◌+◌, ◌/◌, ◌%◌, Bool, not, ◌&&◌, Result, ok, protocol_error, ◌>>◌, raise_if, ◌==◌,
  if◌then◌else◌,
}
use trishul_snmp.Wire.Pdus.{PduType, inform_request, snmpv2_trap}
use trishul_snmp.Wire.V3Messages.{priv_set}
use trishul_snmp.Security.Keys.{UsmUser, auth_on, priv_on}

pub data SecurityLevel : Type 0 where
  no_auth_no_priv auth_no_priv auth_priv : SecurityLevel

-- `flags & MSG_FLAG_AUTH`
abbrev pub auth_set : ℕ → Bool
auth_set flags = flags % 2 == 1

-- `flags & MSG_FLAG_REPORTABLE`
abbrev pub reportable_set : ℕ → Bool
reportable_set flags = flags / 4 % 2 == 1

unfoldable pub security_level_from_flags : ℕ → SecurityLevel
security_level_from_flags flags =
    if priv_set flags then auth_priv else if auth_set flags then auth_no_priv else no_auth_no_priv

-- The two flags are different bits, so that `|=` is `+`.
unfoldable pub expected_security_flags : UsmUser → ℕ
unfolding auth_on priv_on
expected_security_flags user =
    (if auth_on user.auth_protocol then 1 else 0) + (if priv_on user.priv_protocol then 2 else 0)

-- `flags & (MSG_FLAG_AUTH | MSG_FLAG_PRIV)` are the two lowest bits.
unfoldable pub validate_security_level : ℕ → UsmUser → Result (Unit {0})
unfolding expected_security_flags
validate_security_level flags user = do
  raise_if (priv_set flags && not (auth_set flags)) protocol_error
  raise_if (not (flags % 4 == expected_security_flags user)) protocol_error

unfoldable pub validate_notification_reportable_flag : ℕ → PduType → Result (Unit {0})
validate_notification_reportable_flag flags snmpv2_trap =
    raise_if (reportable_set flags) protocol_error
validate_notification_reportable_flag flags inform_request =
    raise_if (not (reportable_set flags)) protocol_error
validate_notification_reportable_flag flags _ = ok tt
