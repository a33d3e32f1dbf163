-- ===== src/Service/Lifecycle/Safety.antt =====
-- What the lifecycle service returns and raises.
use bitheim.Prelude.{ℕ, zero, suc, String, true, ◌≡◌, ◌⊎◌, inl, inr, refl, arith, leb}
use bitheim.Value.{Value}
use bitheim.Errors.{Exc, ok, err, is_lifecycle_error, overflow_error}
use bitheim.Effect.{returns, raises, M}
use bitheim.Effect.Clock.{Clock, RaisesOnly-now, RaisesOnly-sleep}
use bitheim.Effect.Errors.{
  lifecycle, lifecycle_errors, in_class, RaisesOnly, RaisesOnly-pure, RaisesOnly-raise,
  RaisesOnly-if, RaisesOnly-bind, RaisesOnly-at, RaisesOnly-lift, RaisesOnly-stuck,
}
use bitheim.Effect.Results.{
  Returns, Returns-pure, Returns-raise, Returns-if, Returns-bind, Returns-bind_with, Returns-lift,
  Returns-widen, Reached, Returns-Reached, returns_rules, Returns-at, Returns-stuck,
}
use bitheim.Domain.Node.{State, healthy, incompatible, same_state, Health, Status}
use bitheim.Service.Guards.{validate_service_node_id, validate_service_timeout}
use bitheim.Service.Lifecycle.{NodeLifecyclePort, after_probe, poll, start_node}

same_healthy : (s : State) → same_state s healthy ≡ true → s ≡ healthy
same_healthy s h = ground arith

-- Every call of the adapter raises `LifecycleError`s only, or `OverflowError` for its timeout.
pub record RaisesLifecycle {W : Type 0} (port : NodeLifecyclePort W) : Type 0 where
  pub start : (id : String) (t : ℕ) → RaisesOnly lifecycle (port.start id t)
  pub stop : (id : String) (t : ℕ) → RaisesOnly lifecycle (port.stop id t)
  pub probe_health : (id : String) (t : ℕ) → RaisesOnly lifecycle (port.probe_health id t)
  pub get_status : (id : String) → RaisesOnly lifecycle (port.get_status id)
  pub get_lifecycle_state : (id : String) → RaisesOnly lifecycle (port.get_lifecycle_state id)

node_id_errors :
    (v : Value) (e : Exc) → validate_service_node_id v ≡ err e → in_class lifecycle e ≡ true
unfolding validate_service_node_id
node_id_errors v e h = ground arith

timeout_errors :
    (v : Value) (e : Exc) → validate_service_timeout v ≡ err e → in_class lifecycle e ≡ true
unfolding validate_service_timeout
timeout_errors v e h = ground arith

module _ {W : Type 0} (c : Clock W) (port : NodeLifecyclePort W) where
  -- The status is healthy, and the adapter has given it, or has given its health, which is healthy too, to a probe.
  abbrev IsObserved : String → Status → Type 0
  IsObserved id s =
      (s.state ≡ healthy)
      × (Reached (port.get_status id) s
          ⊎ ((t : ℕ) × Reached (port.probe_health id t) s.health × (s.health.state ≡ healthy)))

  after_probe-IsObserved :
      (rest : M W Status) (id : String) (t deadline : ℕ) (h : Health)
      → Returns (IsObserved id) rest
      → Reached (port.probe_health id t) h
      → Returns (IsObserved id) (after_probe c port rest id deadline h)
  unfolding after_probe
  after_probe-IsObserved rest id t deadline h r given =
      Returns-if (same_state h.state healthy) _ _
        (λ e. Returns-pure _ (refl, inr (t, given, same_healthy h.state e)))
        (λ _. search (returns_rules, r) depth 12)

  poll-IsObserved :
      (fuel : ℕ) (id : String) (deadline : ℕ)
      → Returns (IsObserved id) (poll c port fuel id deadline)
  unfolding poll
  poll-IsObserved zero id deadline = Returns-stuck
  poll-IsObserved (suc fuel) id deadline = Returns-bind _ _ (λ t.
      Returns-if (leb deadline t) _ _ (λ _. Returns-raise _)
        (λ _. Returns-bind_with _ _ (Returns-Reached (port.probe_health id _)) (λ h given.
          after_probe-IsObserved _ id _ deadline h (poll-IsObserved fuel id deadline) given)))

  start_node-Returns :
      (node_id timeout : Value)
      → Returns
          (λ s. (id : String) × (validate_service_node_id node_id ≡ ok id) × IsObserved id s)
          (start_node c port node_id timeout)
  unfolding start_node
  start_node-Returns node_id timeout =
      Returns-bind_with _ _ (Returns-lift (validate_service_node_id node_id) (λ id e. e)) (λ id e.
        Returns-widen (λ s o. (id, e, o))
          (Returns-bind _ _ (λ t.
            Returns-bind_with _ _ (Returns-Reached (port.get_status id)) (λ s given.
              Returns-if (same_state s.state healthy) _ _
                (λ up. Returns-pure _ (same_healthy s.state up, inl given))
                (λ _. Returns-bind _ _ (λ _. Returns-bind _ _ (λ now. poll-IsObserved _ id _)))))))

  -- The status that a start returns is healthy, and it is no invention of the service: for the validated identifier, the
  -- adapter has given this status when it was asked for it, or its health to a probe, which has found the node healthy.
  pub start_node-IsHealthy :
      (node_id timeout : Value) (w w' : W) (s : Status)
      → start_node c port node_id timeout w ≡ returns s w'
      → (id : String) × (validate_service_node_id node_id ≡ ok id)
        × (s.state ≡ healthy)
        × (Reached (port.get_status id) s
            ⊎ ((t : ℕ) × Reached (port.probe_health id t) s.health × (s.health.state ≡ healthy)))
  start_node-IsHealthy node_id timeout w w' s h =
      let (id, e, observed) = Returns-at (start_node-Returns node_id timeout) w w' s h in
      (id, e, observed.0, observed.1)

  module _ (only : RaisesLifecycle port) where
    after_probe_errors :
        (rest : M W Status) (id : String) (deadline : ℕ) (h : Health)
        → RaisesOnly lifecycle rest
        → RaisesOnly lifecycle (after_probe c port rest id deadline h)
    unfolding after_probe
    after_probe_errors rest id deadline h r =
        RaisesOnly-if (same_state h.state healthy) _ _ (λ _. RaisesOnly-pure _)
          (λ _.
            RaisesOnly-if (same_state h.state incompatible) _ _ (λ _. RaisesOnly-raise _ refl)
              (λ _. RaisesOnly-bind _ _ (RaisesOnly-now c) (λ t.
                RaisesOnly-if (leb deadline t) _ _ (λ _. RaisesOnly-raise _ refl)
                  (λ _. RaisesOnly-bind _ _ (RaisesOnly-sleep c _) (λ _. r)))))

    poll_errors :
        (fuel : ℕ) (id : String) (deadline : ℕ)
        → RaisesOnly lifecycle (poll c port fuel id deadline)
    unfolding poll
    poll_errors zero id deadline = RaisesOnly-stuck
    poll_errors (suc fuel) id deadline = RaisesOnly-bind _ _ (RaisesOnly-now c) (λ t.
        RaisesOnly-if (leb deadline t) _ _ (λ _. RaisesOnly-raise _ refl)
          (λ _.
            RaisesOnly-bind _ _ (only.probe_health id _)
              (λ h. after_probe_errors _ id deadline h (poll_errors fuel id deadline))))

    start_node_raises :
        (node_id timeout : Value) → RaisesOnly lifecycle (start_node c port node_id timeout)
    unfolding start_node
    start_node_raises node_id timeout =
        RaisesOnly-bind _ _ (RaisesOnly-lift _ (node_id_errors node_id)) (λ id.
          RaisesOnly-bind _ _ (RaisesOnly-lift _ (timeout_errors timeout)) (λ t.
            RaisesOnly-bind _ _ (only.get_status id) (λ s.
              RaisesOnly-if (same_state s.state healthy) _ _ (λ _. RaisesOnly-pure s)
                (λ _.
                  RaisesOnly-bind _ _ (only.start id t)
                    (λ _. RaisesOnly-bind _ _ (RaisesOnly-now c) (λ n. poll_errors _ id _))))))

    -- An exception that a start raises is a `LifecycleError`, or the `OverflowError` of a timeout that `float` or the
    -- system refuses, whatever the arguments, if those that the adapter raises are.
    pub start_node_errors :
        (node_id timeout : Value) (w w' : W) (e : Exc)
        → start_node c port node_id timeout w ≡ raises e w'
        → (is_lifecycle_error e ≡ true) ⊎ (e ≡ overflow_error)
    start_node_errors node_id timeout w w' e h =
        lifecycle_errors e (RaisesOnly-at (start_node_raises node_id timeout) w w' e h)
