-- ===== src/Prelude/Exceptions.antt =====
-- Exceptions as values: the classes of errors.py and the built-in ones that the code can raise.
use mathlib.Core.Path.{◌≡◌, refl, sym, subst}
use mathlib.Core.Logic.{◌⊎◌, inl, inr}
use mathlib.Core.Bool.{Bool, true, false}
use mathlib.Core.Option.{Option, none, some}
use trishul_snmp.Prelude.Tests.{Bool-cases, if◌then◌else◌}

-- `out_of_fuel` is no Python exception: a loop of the model ran out of rounds.
pub data Error : Type 0 where
  protocol_error authentication_error : Error
  transport_error request_timeout_error : Error
  invalid_oid_error unknown_symbol_error unknown_oid_error translation_error : Error
  key_error bundle_validation_error value_error type_error : Error
  zero_division_error index_error struct_error : Error
  out_of_fuel : Error

pub data Result {ℓ} (A : Type ℓ) : Type ℓ where
  ok : A → Result A
  err : Error → Result A

-- The step after a result, which an exception passes over.
infixl 5 ◌>>=◌ ◌>>◌
abbrev pub ◌>>=◌ {ℓ κ} : {X : Type ℓ} {Y : Type κ} → Result X → (X → Result Y) → Result Y
err raised >>= next = err raised
ok x >>= next = next x

abbrev pub ◌>>◌ {κ} : {Y : Type κ} → Result (Unit {0}) → Result Y → Result Y
first >> next = first >>= λ done. next

-- `if b: raise e`
abbrev pub raise_if : Bool → Error → Result (Unit {0})
raise_if true e = err e
raise_if false e = ok tt

-- AuthenticationError is a subclass of ProtocolError.
abbrev pub is_protocol_error : Error → Bool
is_protocol_error protocol_error = true
is_protocol_error authentication_error = true
is_protocol_error _ = false

-- `try: x = m except ProtocolError: return other`, and what follows it.
abbrev pub unless_protocol_error {ℓ κ} :
    {X : Type ℓ} {Y : Type κ} → Result X → Result Y → (X → Result Y) → Result Y
unless_protocol_error (ok x) other next = next x
unless_protocol_error (err e) other next = if is_protocol_error e then other else err e

-- `except ProtocolError as exc: raise ProtocolError(...) from exc`
abbrev pub as_protocol_error {ℓ} : {X : Type ℓ} → Result X → Result X
as_protocol_error (ok x) = ok x
as_protocol_error (err e) = err (if is_protocol_error e then protocol_error else e)

abbrev pub require {ℓ} : {A : Type ℓ} → Option A → Error → Result A
require none e = err e
require (some a) e = ok a

pub Result-cases {ℓ} :
    {A : Type ℓ} (r : Result A) → ((a : A) × (r ≡ ok a)) ⊎ ((e : Error) × (r ≡ err e))
Result-cases (ok a) = inl (a, refl)
Result-cases (err e) = inr (e, refl)

-- A bind whose step has succeeded.
pub >>=-ok {ℓ κ} :
    {A : Type ℓ} {B : Type κ} (r : Result A) (f : A → Result B) {x : A} {b : Result B}
    → r ≡ ok x
    → f x ≡ b
    → (r >>= f) ≡ b
>>=-ok r f {x} {b} h k = subst (λ m. (m >>= f) ≡ b) (sym h) k

-- Inversion of a successful bind.
pub >>=-eq-ok {ℓ κ} :
    {X : Type ℓ} {Y : Type κ} (step : Result X) (next : X → Result Y) {b : Y}
    → (step >>= next) ≡ ok b
    → (x : X) × (step ≡ ok x) × (next x ≡ ok b)
>>=-eq-ok (err raised) next h = cc
>>=-eq-ok (ok x) next h = (x, refl, h)

-- `r` does not come from a loop that ran out of rounds.
abbrev pub Ends {ℓ} : {A : Type ℓ} → Result A → Type ℓ
Ends r = ¬ (r ≡ err out_of_fuel)

-- A chain ends if its first step does, and the rest after each value that the step returns.
pub Ends-bind {ℓ κ} :
    {A : Type ℓ} {B : Type κ} (m : Result A) (f : A → Result B)
    → Ends m
    → ((a : A) → m ≡ ok a → Ends (f a))
    → Ends (m >>= f)
Ends-bind (ok a) f h k = k a refl
Ends-bind (err e) f h k = λ p. h (cc)

-- Inversion of a caught step whose outcome is not the one of the handler.
pub unless-eq-ok {ℓ κ} :
    {X : Type ℓ} {Y : Type κ} (step : Result X) (other y : Y) (next : X → Result Y)
    → unless_protocol_error step (ok other) next ≡ ok y
    → ¬ (other ≡ y)
    → (x : X) × (step ≡ ok x) × (next x ≡ ok y)
unless-eq-ok (ok x) other y next h ne = (x, refl, h)
unless-eq-ok (err e) other y next h ne = elim (Bool-cases (is_protocol_error e)) [
  | inl p ↦ absurd (ne (cc (rw p at h)))
  | inr p ↦ cc (rw p at h)
]

pub as_protocol_error-eq-ok {ℓ} :
    {X : Type ℓ} (step : Result X) {x : X} → as_protocol_error step ≡ ok x → step ≡ ok x
as_protocol_error-eq-ok (ok x) h = h
as_protocol_error-eq-ok (err e) h = cc

pub raise_if-eq-ok : (b : Bool) (e : Error) {u : Unit {0}} → raise_if b e ≡ ok u → b ≡ false
raise_if-eq-ok true e h = cc
raise_if-eq-ok false e h = refl
