-- ===== src/Domain/Node.antt =====
-- domain/node.py: `NodeLifecycleState`, `NodeHealth`, `NodeStatus`.
use bitheim.Prelude.{String, Bool, true, false, Option, none, some, ◌==◌, string_eq, if◌then◌else◌}
use bitheim.Prelude.Int.{ℤ}

pub data State : Type 0 where
  stopped starting healthy unhealthy incompatible unknown : State

-- `state.value`
abbrev pub state_text : State → String
state_text stopped = "stopped"
state_text starting = "starting"
state_text healthy = "healthy"
state_text unhealthy = "unhealthy"
state_text incompatible = "incompatible"
state_text unknown = "unknown"

-- `NodeLifecycleState(text)`, none for its `ValueError`
unfoldable pub state_of_text : String → Option State
state_of_text s =
    if s == "stopped"
    then some stopped
    else if s == "starting"
    then some starting
    else if s == "healthy"
    then some healthy
    else if s == "unhealthy"
    then some unhealthy
    else if s == "incompatible"
    then some incompatible
    else if s == "unknown"
    then some unknown
    else none

-- `a == b` on states
abbrev pub same_state : State → State → Bool
same_state stopped stopped = true
same_state starting starting = true
same_state healthy healthy = true
same_state unhealthy unhealthy = true
same_state incompatible incompatible = true
same_state unknown unknown = true
same_state _ _ = false

pub record Health : Type 0 where
  pub state : State
  pub chain : Option String
  pub version : Option ℤ
  pub protocol_version : Option ℤ
  pub blocks : Option ℤ
  pub headers : Option ℤ
  pub details : Option String

-- `NodeHealth(state=…, details=…)`
abbrev pub health : State → String → Health
health s text = record {
  state = s;
  chain = none;
  version = none;
  protocol_version = none;
  blocks = none;
  headers = none;
  details = some text;
}

-- `NodeHealth.is_healthy`
abbrev pub is_healthy : Health → Bool
is_healthy h = same_state h.state healthy

pub record Status : Type 0 where
  pub node_id : String
  pub state : State
  pub health : Health
  pub details : Option String
