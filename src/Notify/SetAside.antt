-- ===== src/Notify/SetAside.antt =====
-- The two values that the sender of a notification sets aside.
use trishul_snmp.Prelude.{
  List, [], ◌∷◌, ◌≡◌, ◌∙◌, refl, ap, ℤ, Bool, true, false, Option, none, some, Bool-cases, inl, inr,
  seq_eq, seq_eq_iff, ◌&&◌, if◌then◌else◌,
}
use trishul_snmp.Types.{Oid, SnmpValue}
use trishul_snmp.Wire.Pdus.{RawVarBind}
use trishul_snmp.Dict.{is_some}
use trishul_snmp.Security.Authentic.{both_true}
use trishul_snmp.Notify.Varbinds.{
  is_uptime, is_trap_oid, oid_value, ticks_value, sys_uptime_instance_oid,
  snmp_trap_oid_instance_oid, Collected, collect_one, collect,
}

abbrev value_or : {A : Type 0} → A → Option A → A
value_or d none = d
value_or d (some a) = a

taken :
    {A : Type 0} (b : Bool) (o : Option A) (d : A)
    → (b && is_some o) ≡ true
    → o ≡ some (if b && is_some o then value_or d o else d)
taken true (some a) d t = refl
taken true none d t = cc
taken false o d t = cc

kept : {A : Type 0} (b : Bool) (x : A) {d : A} → b ≡ false → d ≡ (if b then x else d)
kept true x f = cc
kept false x f = refl

module _ {A : Type 0} (read : SnmpValue → Option A) (wanted : Oid) where
  -- The value after a binding, if `d` is the value before it.
  unfoldable pub last_step : A → RawVarBind → A
  last_step d varbind =
      if seq_eq varbind.oid wanted && is_some (read varbind.value)
      then value_or d (read varbind.value)
      else d

  -- The value of the last binding of that identifier that can be read, or `d`.
  unfoldable pub last_value : A → List RawVarBind → A
  unfolding last_step
  last_value d [] = d
  last_value d (varbind ∷ rest) = last_value (last_step d varbind) rest

  step-taken :
      (d : A) (varbind : RawVarBind)
      → (seq_eq varbind.oid wanted && is_some (read varbind.value)) ≡ true
      → read varbind.value ≡ some (last_step d varbind)
  unfolding last_step
  step-taken d varbind t = taken (seq_eq varbind.oid wanted) (read varbind.value) d t

  step-kept :
      (d : A) (varbind : RawVarBind)
      → (seq_eq varbind.oid wanted && is_some (read varbind.value)) ≡ false
      → d ≡ last_step d varbind
  unfolding last_step
  step-kept d varbind f = kept (seq_eq varbind.oid wanted && is_some (read varbind.value)) _ f

-- A binding is not both of the two that are set aside.
not_both :
    (oid : Oid) (x y : Bool)
    → (seq_eq oid sys_uptime_instance_oid && x) ≡ true
    → (seq_eq oid snmp_trap_oid_instance_oid && y) ≡ false
unfolding seq_eq
not_both oid x y t =
    let same = (seq_eq_iff oid sys_uptime_instance_oid).0 (both_true _ _ t).0 in rw same refl

collect_one-values :
    (s : Collected) (varbind : RawVarBind) (o : Oid) (u : ℤ)
    → oid_value s.trap_oid ≡ some o
    → ticks_value s.sys_uptime ≡ some u
    → (oid_value (collect_one s varbind).trap_oid
        ≡ some (last_step oid_value snmp_trap_oid_instance_oid o varbind))
      × (ticks_value (collect_one s varbind).sys_uptime
          ≡ some (last_step ticks_value sys_uptime_instance_oid u varbind))
unfolding collect_one is_uptime is_trap_oid
collect_one-values s varbind o u h k = elim (Bool-cases (is_uptime varbind.oid varbind.value)) [
  | inl t ↦
      let f = not_both varbind.oid _ (is_some (oid_value varbind.value)) t in
      rw t (
        h ∙ ap some (step-kept oid_value snmp_trap_oid_instance_oid o varbind f),
        step-taken ticks_value sys_uptime_instance_oid u varbind t,
      )
  | inr f ↦ elim (Bool-cases (is_trap_oid varbind.oid varbind.value)) [
    | inl t ↦
        rw (f, t)
          (
            step-taken oid_value snmp_trap_oid_instance_oid o varbind t,
            k ∙ ap some (step-kept ticks_value sys_uptime_instance_oid u varbind f),
          )
    | inr g ↦
        rw (f, g)
          (
            h ∙ ap some (step-kept oid_value snmp_trap_oid_instance_oid o varbind g),
            k ∙ ap some (step-kept ticks_value sys_uptime_instance_oid u varbind f),
          )
  ]
]

pub collect-values :
    (varbinds : List RawVarBind) (s : Collected) (o : Oid) (u : ℤ)
    → oid_value s.trap_oid ≡ some o
    → ticks_value s.sys_uptime ≡ some u
    → (oid_value (collect s varbinds).trap_oid
        ≡ some (last_value oid_value snmp_trap_oid_instance_oid o varbinds))
      × (ticks_value (collect s varbinds).sys_uptime
          ≡ some (last_value ticks_value sys_uptime_instance_oid u varbinds))
unfolding collect last_value
collect-values [] s o u h k = (h, k)
collect-values (varbind ∷ rest) s o u h k =
    let (h', k') = collect_one-values s varbind o u h k in
    collect-values rest (collect_one s varbind) _ _ h' k'
