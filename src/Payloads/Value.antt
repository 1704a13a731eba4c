-- ===== src/Payloads/Value.antt =====
-- The Python objects that stand in payloads and in card metadata.
use hermes_agent_runtime.Base.{Bool, true, false, String, ℤ}
use hermes_agent_runtime.Base.{ℕ_discrete, Eq, string_dec}
use hermes_agent_runtime.Base.Dict.{Dict}

-- A container is a mapping, list, tuple or set: no code reads what it holds. Floats and objects of
-- other classes are not modelled.
pub data Value : Type 0 where
  null : Value
  bool : Bool → Value
  int : ℤ → Value
  text : String → Value
  container : Value

pub Value-discrete : Discrete Value
Value-discrete = hlevel (ℕ_discrete, string_dec)

instance abbrev pub value_eq : Eq Value
value_eq = record { dec = Value-discrete }

abbrev pub Payload : Type 0
Payload = Dict Value

-- `value is None`
abbrev pub is_null : Value → Bool
is_null null = true
is_null _ = false

-- `isinstance(value, str)`
abbrev pub is_text : Value → Bool
is_text (text s) = true
is_text _ = false
