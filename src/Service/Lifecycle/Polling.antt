-- ===== src/Service/Lifecycle/Polling.antt =====
-- The polling loop ends: its fuel is never used up.
use bitheim.Prelude.{
  ℕ, zero, suc, ◌+◌, ◌-◌, ◌*◌, ◌/◌, ◌≤◌, min, String, ◌≡◌, refl, arith, leb, Bool-cases, le→leb,
  inl, inr, if◌then◌else◌,
}
use bitheim.Value.{Value}
use bitheim.Errors.{ok, err, Result, startup_timeout}
use bitheim.Effect.{
  Outcome, returns, raises, stuck, M, final, IsStuck, pure, raise, lift, ◌>>=◌, ◌>>◌,
}
use bitheim.Effect.Clock.{Clock, IsMonotonic, now, sleep}
use bitheim.Domain.Node.{healthy, incompatible, same_state, Health, Status}
use bitheim.Service.Guards.{validate_service_node_id, validate_service_timeout}
use bitheim.Service.Lifecycle.{
  NodeLifecyclePort, after_probe, poll, start_node, rounds, poll_interval, probe_budget_limit,
}

-- A call of the port ends, and the time does not go back over it.
pub record Timely {W A : Type 0} (c : Clock W) (m : M W A) : Type 0 where
  pub ends : (w : W) → ¬ IsStuck (m w)
  pub forward : (w : W) → c.time w ≤ c.time (final (m w))

pub record IsTimely {W : Type 0} (c : Clock W) (port : NodeLifecyclePort W) : Type 0 where
  pub start : (id : String) (t : ℕ) → Timely c (port.start id t)
  pub probe_health : (id : String) (t : ℕ) → Timely c (port.probe_health id t)
  pub get_status : (id : String) → Timely c (port.get_status id)

module _ {W : Type 0} (c : Clock W) (mono : IsMonotonic c) (port : NodeLifecyclePort W) where
  -- the time after a reading and a sleep that follows it
  slept_on : (w : W) (d : ℕ) → (c.monotonic w).0 + d ≤ c.time (c.sleep d (c.monotonic w).1)
  slept_on w d = omega (arith, mono.read w, mono.slept d (c.monotonic w).1)

  closer :
      (j deadline t time time' : ℕ)
      → deadline ≤ time + suc j * poll_interval
      → time ≤ t
      → t + min poll_interval (deadline - t) ≤ time'
      → deadline ≤ time' + j * poll_interval
  closer j deadline t time time' h r s = omega arith

  -- the end of a round: the deadline test, the sleep, and the rest of the loop
  wait-ends :
      (k : ℕ) (rest : M W Status) (deadline : ℕ) (w : W)
      → deadline ≤ c.time w + k * poll_interval
      → ((j : ℕ)
          → k ≡ suc j
          → (w' : W) → deadline ≤ c.time w' + j * poll_interval
          → ¬ IsStuck (rest w'))
      → ¬ IsStuck (
          (do
            t ← now c
            if leb deadline t
                then raise startup_timeout
                else do sleep c (min poll_interval (deadline - t)); rest)
            w)
  unfolding ◌>>=◌ now sleep
  wait-ends zero rest deadline w near more =
      rw (le→leb deadline (c.monotonic w).0 (omega (arith, mono.reading w))) (λ x. x)
  wait-ends (suc j) rest deadline w near more = elim (Bool-cases (leb deadline (c.monotonic w).0)) [
    | inl over ↦ rw over (λ x. x)
    | inr left ↦ rw left (
        more j refl _ (
          closer j deadline (c.monotonic w).0 (c.time w) _ near (mono.reading w)
            (slept_on w (min poll_interval (deadline - (c.monotonic w).0)))))
  ]

  after_probe-ends :
      (k : ℕ) (rest : M W Status) (id : String) (deadline : ℕ) (h : Health) (w : W)
      → deadline ≤ c.time w + k * poll_interval
      → ((j : ℕ)
          → k ≡ suc j
          → (w' : W) → deadline ≤ c.time w' + j * poll_interval
          → ¬ IsStuck (rest w'))
      → ¬ IsStuck (after_probe c port rest id deadline h w)
  unfolding after_probe ◌>>=◌ now sleep
  after_probe-ends k rest id deadline h w near more =
      elim (Bool-cases (same_state h.state healthy)) [
        | inl good ↦ rw good (λ x. x)
        | inr bad ↦ rw bad (elim (Bool-cases (same_state h.state incompatible)) [
          | inl other ↦ rw other (λ x. x)
          | inr same ↦ rw same (wait-ends k rest deadline w near more)
        ])
      ]

  -- an outcome of the probe, and what the round makes of it
  probed-ends :
      (o : Outcome W Health) (f : Health → M W Status)
      → ¬ IsStuck o
      → ((h : Health) → ¬ IsStuck (f h (final o)))
      → ¬ IsStuck (elim o [ returns a w ↦ f a w | raises e w ↦ raises e w | stuck w ↦ stuck w ])
  probed-ends (returns a w) f ends h = h a
  probed-ends (raises e w) f ends h = λ x. x
  probed-ends (stuck w) f ends h = ends

module _ {W : Type 0} (c : Clock W) (mono : IsMonotonic c) (port : NodeLifecyclePort W)
    (timely : IsTimely c port) where
  pub poll-ends :
      (k : ℕ) (id : String) (deadline : ℕ) (w : W)
      → deadline ≤ c.time w + k * poll_interval
      → ¬ IsStuck (poll c port (suc k) id deadline w)
  unfolding poll ◌>>=◌ now sleep
  poll-ends zero id deadline w near =
      rw (le→leb deadline (c.monotonic w).0 (omega (arith, mono.reading w))) (λ x. x)
  poll-ends (suc k) id deadline w near = elim (Bool-cases (leb deadline (c.monotonic w).0)) [
    | inl over ↦ rw over (λ x. x)
    | inr left ↦
        let w₁ = (c.monotonic w).1 in
        let budget = min probe_budget_limit (deadline - (c.monotonic w).0) in
        let probe = timely.probe_health id budget in
        rw left (
          probed-ends c mono port (port.probe_health id budget w₁) _ (probe.ends w₁) λ h.
            after_probe-ends c mono port (suc k) (poll c port (suc k) id deadline) id deadline h _
              (omega (arith, mono.reading w, mono.read w, probe.forward w₁))
              (λ j e w' near'. poll-ends k id deadline w' (omega arith)))
  ]

  -- what follows an outcome that is not stuck
  then-ends :
      {A : Type 0} (o : Outcome W A) (f : A → M W Status)
      → ¬ IsStuck o
      → ((a : A) (w : W) → ¬ IsStuck (f a w))
      → ¬ IsStuck (elim o [ returns a w ↦ f a w | raises e w ↦ raises e w | stuck w ↦ stuck w ])
  then-ends (returns a w) f ends h = h a w
  then-ends (raises e w) f ends h = λ x. x
  then-ends (stuck w) f ends h = ends

  lift-ends : {A : Type 0} (r : Result A) (w : W) → ¬ IsStuck (lift r w)
  unfolding lift
  lift-ends (ok a) w = λ x. x
  lift-ends (err e) w = λ x. x

  start_poll :
      (id : String) (timeout : ℕ) (w : W)
      → ¬ IsStuck (poll c port (rounds timeout) id ((c.monotonic w).0 + timeout) (c.monotonic w).1)
  start_poll id timeout w =
      poll-ends (suc (timeout / poll_interval)) id ((c.monotonic w).0 + timeout) (c.monotonic w).1
        (omega (arith, mono.read w))

  -- With a clock that does not go backwards and sleeps at least as long as it is asked to, and an adapter whose calls
  -- end and over which the time does not go back, a start is never stuck: `timeout / 0.5 s + 2` rounds are enough for
  -- the polling loop, whatever the adapter answers.
  pub start_node-ends :
      (node_id timeout : Value) (w : W) → ¬ IsStuck (start_node c port node_id timeout w)
  unfolding start_node ◌>>=◌ now sleep
  start_node-ends node_id timeout w =
      then-ends (lift (validate_service_node_id node_id) w) _
        (lift-ends (validate_service_node_id node_id) w)
        λ id w₁.
          then-ends (lift (validate_service_timeout timeout) w₁) _
            (lift-ends (validate_service_timeout timeout) w₁)
            λ t w₂.
              then-ends (port.get_status id w₂) _ ((timely.get_status id).ends w₂)
                λ current w₃. start_rest id t current w₃
    where
      start_rest :
          (id : String) (t : ℕ) (current : Status) (w : W)
          → ¬ IsStuck (
              (if same_state current.state healthy
                  then pure current
                  else do port.start id t; u ← now c; poll c port (rounds t) id (u + t))
                w)
      start_rest id t current w = elim (Bool-cases (same_state current.state healthy)) [
        | inl good ↦ rw good (λ x. x)
        | inr bad ↦ rw bad (
            then-ends (port.start id t w) _ ((timely.start id t).ends w)
              (λ _ w'. start_poll id t w'))
      ]
