-- ===== src/Responder/Rules.antt =====
-- trishul_snmp/responder/rules.py: values that are computed at each read.
use trishul_snmp.Prelude.{
  Result, ok, value_error, ◌>>=◌, ◌>>◌, raise_if, ltb_ℤ, ℕ, ◌+◌, ◌-◌, ℤ, pos, negsuc, pos_part,
  neg_part, leb, if◌then◌else◌,
}
use trishul_snmp.Types.{SnmpValue, integer, counter32, gauge32, time_ticks, counter64}

-- A rule's `value_type`: the classes of types.py that are made from one int, and any other callable.
pub data ValueType : Type 0 where
  integer_type counter32_type gauge32_type time_ticks_type counter64_type : ValueType
  custom_type : ℕ → ValueType

-- What a read takes from outside the program: `random.randint` of a range that is not empty, the
-- monotonic clock since a start stamp, `int((time.monotonic() - start) * 100)`, `int(time.time())`,
-- and `get_value` of a class that is not in rules.py, on the state of its object: the value and the
-- state after the call, or the exception. `construct` is the call of a `value_type` that is
-- not in types.py.
pub record Environment : Type 0 where
  pub randint : ℤ → ℤ → ℤ
  pub elapsed : ℕ → ℤ
  pub epoch : ℤ
  pub custom : ℕ → Result (SnmpValue × ℕ)
  pub construct : ℕ → ℤ → Result SnmpValue

unfoldable pub make_value : Environment → ValueType → ℤ → Result SnmpValue
make_value env integer_type n = ok (integer n)
make_value env counter32_type n = ok (counter32 n)
make_value env gauge32_type n = ok (gauge32 n)
make_value env time_ticks_type n = ok (time_ticks n)
make_value env counter64_type n = ok (counter64 n)
make_value env (custom_type t) n = env.construct t n

-- The four classes of the module, and any other that has `get_value`, with a number for its state.
pub data SimulationRule : Type 0 where
  counter_rule : (current : ℤ) (increment : ℤ) (value_type : ValueType) → SimulationRule
  random_numeric_rule : (lo : ℤ) (hi : ℤ) (value_type : ValueType) → SimulationRule
  uptime_rule : (start : ℕ) → SimulationRule
  timestamp_rule : (value_type : ValueType) → SimulationRule
  custom_rule : (state : ℕ) → SimulationRule

infixl 65 ◌+ℤ◌
unfoldable pub ◌+ℤ◌ : ℤ → ℤ → ℤ
a +ℤ b =
    let up = pos_part a + pos_part b in
    let down = neg_part a + neg_part b in
    if leb down up then pos (up - down) else negsuc (down - up - 1)

-- The value of a read, and the rule after it. `randint` of an empty range is a ValueError.
unfoldable pub get_value : Environment → SimulationRule → Result (SnmpValue × SimulationRule)
unfolding ◌+ℤ◌ make_value
get_value env (counter_rule current increment t) = do
  value ← make_value env t current
  ok (value, counter_rule (current +ℤ increment) increment t)
get_value env (random_numeric_rule lo hi t) = do
  raise_if (ltb_ℤ hi lo) value_error
  value ← make_value env t (env.randint lo hi)
  ok (value, random_numeric_rule lo hi t)
get_value env (uptime_rule start) = ok (time_ticks (env.elapsed start), uptime_rule start)
get_value env (timestamp_rule t) = do
  value ← make_value env t env.epoch
  ok (value, timestamp_rule t)
get_value env (custom_rule state) = do
  (value, after) ← env.custom state
  ok (value, custom_rule after)
