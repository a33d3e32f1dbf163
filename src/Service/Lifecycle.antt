-- ===== src/Service/Lifecycle.antt =====
-- application/service.py: `NodeLifecycleService`, over any adapter that has the operations of `NodeLifecyclePort`.
pub mod Liveness
pub mod Polling
pub mod Safety
pub mod Verified
use bitheim.Prelude.{ℕ, zero, suc, ◌+◌, ◌-◌, ◌*◌, ◌/◌, min, String, none, some, leb, if◌then◌else◌}
use bitheim.Value.{Value, second}
use bitheim.Effect.{M, stuck, pure, raise, lift, ◌>>=◌, ◌>>◌}
use bitheim.Effect.Clock.{Clock, now, sleep}
use bitheim.Errors.{node_incompatible, startup_timeout}
use bitheim.Domain.Node.{State, healthy, incompatible, stopped, same_state, Health, health, Status}
use bitheim.Service.Guards.{validate_service_node_id, validate_service_timeout}

-- application/ports.py, with validated arguments: timeouts are positive numbers of microseconds
pub record NodeLifecyclePort (W : Type 0) : Type 0 where
  pub start : String → ℕ → M W (Unit {0})
  pub stop : String → ℕ → M W (Unit {0})
  pub probe_health : String → ℕ → M W Health
  pub get_lifecycle_state : String → M W State
  pub get_status : String → M W Status

abbrev pub probe_budget_limit : ℕ
probe_budget_limit = 2 * second

abbrev pub poll_interval : ℕ
poll_interval = second / 2

-- the rounds that a poll of the given length can take
abbrev pub rounds : ℕ → ℕ
rounds timeout = suc (suc (timeout / poll_interval))

module _ {W : Type 0} (c : Clock W) (port : NodeLifecyclePort W) where
  -- the second half of a round of the loop of `start_node`, with the rest of the loop
  unfoldable pub after_probe : M W Status → String → ℕ → Health → M W Status
  after_probe rest node_id deadline h =
      if same_state h.state healthy
      then pure (record { node_id = node_id; state = healthy; health = h; details = none })
      else if same_state h.state incompatible
      then raise node_incompatible
      else do
        t ← now c
        if leb deadline t
            then raise startup_timeout
            else do sleep c (min poll_interval (deadline - t)); rest

  -- the loop of `start_node`, with fuel for its rounds
  unfoldable pub poll : ℕ → String → ℕ → M W Status
  poll zero node_id deadline = stuck
  poll (suc fuel) node_id deadline = do
    t ← now c
    if leb deadline t then raise startup_timeout else do
      h ← port.probe_health node_id (min probe_budget_limit (deadline - t))
      after_probe (poll fuel node_id deadline) node_id deadline h

  unfoldable pub start_node : Value → Value → M W Status
  start_node node_id timeout = do
    valid_node_id ← lift (validate_service_node_id node_id)
    valid_timeout ← lift (validate_service_timeout timeout)
    current_status ← port.get_status valid_node_id
    if same_state current_status.state healthy then pure current_status else do
      port.start valid_node_id valid_timeout
      t ← now c
      poll (rounds valid_timeout) valid_node_id (t + valid_timeout)

  unfoldable pub stop_node : Value → Value → M W Status
  stop_node node_id timeout = do
    valid_node_id ← lift (validate_service_node_id node_id)
    valid_timeout ← lift (validate_service_timeout timeout)
    port.stop valid_node_id valid_timeout
    pure (record {
      node_id = valid_node_id;
      state = stopped;
      health = health stopped "node_stopped";
      details = none;
    })

  unfoldable pub get_node_status : Value → M W Status
  get_node_status node_id = do
    valid_node_id ← lift (validate_service_node_id node_id)
    port.get_status valid_node_id
