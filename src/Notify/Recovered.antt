-- ===== src/Notify/Recovered.antt =====
-- What the event of a notification recovers from the bindings that the sender builds.
use trishul_snmp.Prelude.{
  ℕ, List, [], ◌∷◌, ◌≡◌, ◌∙◌, refl, sym, ap, ℤ, pos, Bool, true, false, Option, none, some, Result,
  ok, err, value_error, raise_if, >>=-eq-ok, Option-cases, inl, inr, map, seq_eq,
}
use trishul_snmp.Types.{Oid, Text, VarBind, SnmpValue, object_identifier, time_ticks}
use trishul_snmp.Wire.Pdus.{RawVarBind, Pdu}
use trishul_snmp.Mib.Names.{Target, numbered}
use trishul_snmp.Mib.Registry.{MibRegistry, lookup_oid}
use trishul_snmp.Mib.Render.{
  plain_varbind, enrich_varbinds, enrich_each, enrich_varbind, render_value, optional_match,
}
use trishul_snmp.Notify.Varbinds.{
  is_negative, oid_value, ticks_value, sys_uptime_instance_oid, snmp_trap_oid_instance_oid,
  Collected, collect, notification_list, normalize_explicit_varbinds, build_notification_varbinds,
}
use trishul_snmp.Notify.SetAside.{last_value, collect-values}
use trishul_snmp.Notify.Events.{
  V3Details, event_type, notification_metadata, notification_event_from_pdu, NotificationEvent,
  first_of, extract_first, extract_notification_oid, extract_uptime,
}

-- A binding of the public model as it came from the wire.
abbrev pub raw_of : VarBind → RawVarBind
raw_of varbind = record { oid = varbind.oid; value = varbind.value }

varbind_of : RawVarBind → Result VarBind → RawVarBind
varbind_of other (ok varbind) = raw_of varbind
varbind_of other (err e) = other

list_of : List RawVarBind → Result (List VarBind) → List RawVarBind
list_of other (ok varbinds) = map raw_of varbinds
list_of other (err e) = other

enrich_varbind-raw :
    (is_printable : ℕ → Bool) (s : MibRegistry) (raw : RawVarBind) (varbind : VarBind)
    → enrich_varbind is_printable s raw ≡ ok varbind
    → raw_of varbind ≡ raw
unfolding enrich_varbind varbind_of
enrich_varbind-raw is_printable s raw varbind h =
    let (m, _, h₁) = >>=-eq-ok (optional_match (lookup_oid s (numbered (map pos raw.oid)))) _ h in
    let (text, _, h₂) = >>=-eq-ok (render_value is_printable s raw.value m) _ h₁ in
    sym (ap (varbind_of raw) h₂)

enrich_each-raw :
    (is_printable : ℕ → Bool) (s : MibRegistry) (raw : List RawVarBind) (varbinds : List VarBind)
    → enrich_each is_printable s raw ≡ ok varbinds
    → map raw_of varbinds ≡ raw
unfolding enrich_each list_of
enrich_each-raw is_printable s [] varbinds h = sym (ap (list_of []) h)
enrich_each-raw is_printable s (r ∷ raw) varbinds h =
    let (first, e₁, h₁) = >>=-eq-ok (enrich_varbind is_printable s r) _ h in
    let (later, e₂, h₂) = >>=-eq-ok (enrich_each is_printable s raw) _ h₁ in
    let same = enrich_varbind-raw is_printable s r first e₁ in
    let rest = enrich_each-raw is_printable s raw later e₂ in
    sym (ap (list_of []) h₂) ∙ (ap (λ x. x ∷ map raw_of later) same ∙ ap (◌∷◌ r) rest)

plain-raw :
    (is_printable : ℕ → Bool) (raw : List RawVarBind)
    → map raw_of (map (plain_varbind is_printable) raw) ≡ raw
unfolding plain_varbind
plain-raw is_printable [] = refl
plain-raw is_printable (r ∷ raw) = ap (◌∷◌ r) (plain-raw is_printable raw)

pub enrich_varbinds-raw :
    (is_printable : ℕ → Bool) (bundle : Option MibRegistry) (raw : List RawVarBind)
    (varbinds : List VarBind)
    → enrich_varbinds is_printable bundle raw ≡ ok varbinds
    → map raw_of varbinds ≡ raw
unfolding enrich_varbinds list_of
enrich_varbinds-raw is_printable none raw varbinds h =
    sym (ap (list_of raw) h) ∙ plain-raw is_printable raw
enrich_varbinds-raw is_printable (some s) raw varbinds h =
    enrich_each-raw is_printable s raw varbinds h

extract-skip :
    {A : Type 0} (wanted : Oid) (read : SnmpValue → Option A) (first : VarBind)
    (rest : List VarBind)
    → seq_eq first.oid wanted ≡ false
    → extract_first wanted read (first ∷ rest) ≡ extract_first wanted read rest
unfolding extract_first
extract-skip wanted read first rest f = elim (Option-cases (read first.value)) [
  | inl e ↦ ap (λ o. first_of o (seq_eq first.oid wanted) (extract_first wanted read rest)) e
  | inr (a, e) ↦
      ap (λ o. first_of o (seq_eq first.oid wanted) (extract_first wanted read rest)) e
      ∙ ap (λ b. first_of (some a) b (extract_first wanted read rest)) f
]

extract-take :
    {A : Type 0} (wanted : Oid) (read : SnmpValue → Option A) (first : VarBind)
    (rest : List VarBind) (a : A)
    → seq_eq first.oid wanted ≡ true
    → read first.value ≡ some a
    → extract_first wanted read (first ∷ rest) ≡ some a
unfolding extract_first
extract-take wanted read first rest a t e =
    ap (λ o. first_of o (seq_eq first.oid wanted) (extract_first wanted read rest)) e
    ∙ ap (λ b. first_of (some a) b (extract_first wanted read rest)) t

-- The values that are extracted from bindings whose wire form starts with the two.
extract-raw :
    (s : Collected) (o : Oid) (u : ℤ) (varbinds : List VarBind)
    → map raw_of varbinds ≡ notification_list s
    → oid_value s.trap_oid ≡ some o
    → ticks_value s.sys_uptime ≡ some u
    → (extract_notification_oid varbinds ≡ some o) × (extract_uptime varbinds ≡ some u)
unfolding notification_list extract_notification_oid extract_uptime seq_eq
extract-raw s o u [] e h k = cc
extract-raw s o u (v ∷ []) e h k = cc
extract-raw s o u (v ∷ w ∷ rest) e h k =
    let first : raw_of v ≡ record { oid = sys_uptime_instance_oid; value = s.sys_uptime } = cc in
    let second : raw_of w ≡ record { oid = snmp_trap_oid_instance_oid; value = s.trap_oid } = cc in
    let v_oid = ap (λ (r : RawVarBind). r.oid) first in
    let v_value = ap (λ (r : RawVarBind). r.value) first in
    let w_oid = ap (λ (r : RawVarBind). r.oid) second in
    let w_value = ap (λ (r : RawVarBind). r.value) second in
    (
      extract-skip snmp_trap_oid_instance_oid oid_value v (w ∷ rest)
            (ap (λ x. seq_eq x snmp_trap_oid_instance_oid) v_oid)
          ∙ extract-take snmp_trap_oid_instance_oid oid_value w rest o
              (ap (λ x. seq_eq x snmp_trap_oid_instance_oid) w_oid) (ap oid_value w_value ∙ h),
      extract-take sys_uptime_instance_oid ticks_value v (w ∷ rest) u
          (ap (λ x. seq_eq x sys_uptime_instance_oid) v_oid) (ap ticks_value v_value ∙ k),
    )

-- The bindings that the sender builds, with the start of its loop.
abbrev start_of : Oid → ℤ → Collected
start_of notification_oid uptime = record {
  sys_uptime = time_ticks uptime;
  trap_oid = object_identifier notification_oid;
  extras = [];
}

raw_list : List RawVarBind → Result (List RawVarBind) → List RawVarBind
raw_list other (ok raw) = raw
raw_list other (err e) = other

built-eq :
    (bundle : Option MibRegistry) (notification_oid : Oid) (varbinds : List (Target × SnmpValue))
    (uptime : ℤ) (explicit raw : List RawVarBind)
    → normalize_explicit_varbinds bundle varbinds ≡ ok explicit
    → build_notification_varbinds bundle notification_oid varbinds uptime ≡ ok raw
    → raw ≡ notification_list (collect (start_of notification_oid uptime) explicit)
unfolding build_notification_varbinds raw_list
built-eq bundle notification_oid varbinds uptime explicit raw e h =
    let (_, _, h₁) = >>=-eq-ok (raise_if (is_negative uptime) value_error) _ h in
    let (other, e₂, h₂) = >>=-eq-ok (normalize_explicit_varbinds bundle varbinds) _ h₁ in
    let same = ap (raw_list []) (sym e ∙ e₂) in
    sym (ap (raw_list raw) h₂)
    ∙ ap (λ x. notification_list (collect (start_of notification_oid uptime) x)) (sym same)

module _ {Address : Type 0} where
  oid_of : NotificationEvent Address → Result (NotificationEvent Address) → Option Oid
  oid_of other (ok event) = event.notification_oid
  oid_of other (err e) = other.notification_oid

  uptime_of : NotificationEvent Address → Result (NotificationEvent Address) → Option ℤ
  uptime_of other (ok event) = event.uptime
  uptime_of other (err e) = other.uptime

  varbinds_of : NotificationEvent Address → Result (NotificationEvent Address) → List VarBind
  varbinds_of other (ok event) = event.varbinds
  varbinds_of other (err e) = other.varbinds

  event-fields :
      (is_printable : ℕ → Bool) (receiver : Option MibRegistry) (source : Option Address)
      (pdu : Pdu) (community : Option Text) (details : Option V3Details)
      (event : NotificationEvent Address)
      → notification_event_from_pdu is_printable receiver source pdu community details ≡ ok event
      → (map raw_of event.varbinds ≡ pdu.varbinds)
        × (event.notification_oid ≡ extract_notification_oid event.varbinds)
        × (event.uptime ≡ extract_uptime event.varbinds)
  unfolding notification_event_from_pdu oid_of uptime_of varbinds_of
  event-fields is_printable receiver source pdu community details event h =
      let (type', _, h₁) = >>=-eq-ok (event_type pdu.pdu_type) _ h in
      let (varbinds, e₂, h₂) =
        >>=-eq-ok (enrich_varbinds is_printable receiver pdu.varbinds) _ h₁ in
      let (metadata, _, h₃) =
        >>=-eq-ok (notification_metadata receiver (extract_notification_oid varbinds) varbinds) _
          h₂ in
      let same = ap (varbinds_of event) h₃ in
      let raw = enrich_varbinds-raw is_printable receiver pdu.varbinds varbinds e₂ in
      (
        sym (ap (map raw_of) same) ∙ raw,
        sym (ap (oid_of event) h₃) ∙ ap extract_notification_oid same,
        sym (ap (uptime_of event) h₃) ∙ ap extract_uptime same,
      )

  -- The event of a PDU whose bindings a sender has built for a notification: its bindings are those
  -- of the PDU, its notification is the one of the last explicit snmpTrapOID.0 that is an identifier,
  -- or else the one given, and its uptime the one of the last explicit sysUpTime.0 in TimeTicks, or
  -- else the one given; whatever bundles the two sides have.
  pub notification_event_from_pdu-recovers :
      (is_printable : ℕ → Bool) (sender receiver : Option MibRegistry) (source : Option Address)
      (notification_oid : Oid) (varbinds : List (Target × SnmpValue)) (uptime : ℤ) (pdu : Pdu)
      (community : Option Text) (details : Option V3Details) (explicit : List RawVarBind)
      (event : NotificationEvent Address)
      → normalize_explicit_varbinds sender varbinds ≡ ok explicit
      → build_notification_varbinds sender notification_oid varbinds uptime ≡ ok pdu.varbinds
      → notification_event_from_pdu is_printable receiver source pdu community details ≡ ok event
      → (map raw_of event.varbinds ≡ pdu.varbinds)
        × (event.notification_oid
            ≡ some (last_value oid_value snmp_trap_oid_instance_oid notification_oid explicit))
        × (event.uptime ≡ some (last_value ticks_value sys_uptime_instance_oid uptime explicit))
  unfolding oid_value ticks_value
  notification_event_from_pdu-recovers is_printable sender receiver source notification_oid varbinds
        uptime pdu community details explicit event e b h =
      let (raw, oid, up) =
        event-fields is_printable receiver source pdu community details event h in
      let built = built-eq sender notification_oid varbinds uptime explicit pdu.varbinds e b in
      let (o, u) =
        collect-values explicit (start_of notification_oid uptime) notification_oid uptime refl
          refl in
      let (o', u') =
        extract-raw (collect (start_of notification_oid uptime) explicit) _ _ event.varbinds
          (raw ∙ built) o u in
      (raw, oid ∙ o', up ∙ u')
