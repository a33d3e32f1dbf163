-- ===== src/Service/Lifecycle/Liveness.antt =====
-- A start of a node that comes up in time returns.
use bitheim.Prelude.{
  ℕ, Bool, zero, suc, ◌+◌, ◌-◌, ◌*◌, ◌/◌, ◌≤◌, ◌<◌, min, String, true, false, ◌≡◌, refl, arith, leb,
  Bool-cases, leb→le, inl, inr, if◌then◌else◌,
}
use bitheim.Value.{Value}
use bitheim.Errors.{ok, startup_timeout}
use bitheim.Effect.{
  Outcome, returns, raises, stuck, M, pure, raise, lift, ◌>>=◌, ◌>>◌, returned_then,
}
use bitheim.Effect.Clock.{Clock, IsMonotonic, now, sleep}
use bitheim.Domain.Node.{State, healthy, incompatible, same_state, Health, Status}
use bitheim.Service.Guards.{validate_service_node_id, validate_service_timeout}
use bitheim.Service.Lifecycle.{
  NodeLifecyclePort, after_probe, poll, start_node, poll_interval, probe_budget_limit,
}

-- a run that returns a healthy status
abbrev pub Succeeds : {W : Type 0} → Outcome W Status → Type 0
Succeeds (returns s w) = s.state ≡ healthy
Succeeds (raises e w) = ⊥
Succeeds (stuck w) = ⊥

-- How late the calls of a world may be: a reading of the clock and a sleep.
pub record IsPrompt {W : Type 0} (c : Clock W) (lag : ℕ) : Type 0 where
  pub read : (w : W) → c.time (c.monotonic w).1 ≤ c.time w + lag
  pub slept : (d : ℕ) (w : W) → c.time (c.sleep d w) ≤ c.time w + d + lag

-- A probe of a node that is up from the time `up` on: it returns within its budget and the lag, it never finds the node
-- incompatible, and it finds it healthy if it began when the node was up and had the time for an answer.
pub record Probed {W : Type 0} (c : Clock W) (up answer lag budget : ℕ) (w : W)
    (o : Outcome W Health) : Type 0 where
  pub found : Health
  pub after : W
  pub returned : o ≡ returns found after
  pub forward : c.time w ≤ c.time after
  pub in_time : c.time after ≤ c.time w + budget + lag
  pub compatible : same_state found.state incompatible ≡ false
  pub answered : up ≤ c.time w → answer ≤ budget → same_state found.state healthy ≡ true

-- what a round takes at most: a probe that comes too early, and the sleep after it
abbrev pub round : ℕ
round = probe_budget_limit + poll_interval

same_healthy : (s : State) → same_state s healthy ≡ true → s ≡ healthy
same_healthy s h = ground arith

not_leb : (a b : ℕ) → leb a b ≡ false → b < a
not_leb a b h = ground arith

healthy_or_not : (b : Bool) → b ≡ true → b ≡ false → ⊥
healthy_or_not b t f = ground arith

module _ {W : Type 0} (c : Clock W) (mono : IsMonotonic c) (port : NodeLifecyclePort W)
    (up answer lag : ℕ) (prompt : IsPrompt c lag) (id : String)
    (probed : (t : ℕ) (w : W) → Probed c up answer lag t w (port.probe_health id t w)) where
  -- a probe that had time for an answer and did not find the node healthy began before it was up
  still_down :
      (budget : ℕ) (w : W)
      → answer ≤ budget
      → (o : Outcome W Health) (p : Probed c up answer lag budget w o)
      → same_state p.found.state healthy ≡ false
      → c.time w < up
  still_down budget w enough o p bad = elim (Bool-cases (leb up (c.time w))) [
    | inl is_up ↦ absurd (healthy_or_not _ (p.answered (leb→le up (c.time w) is_up) enough) bad)
    | inr not_up ↦ not_leb up (c.time w) not_up
  ]

  module _ (deadline : ℕ) (late : up + round + 4 * lag + answer < deadline)
      (short : answer ≤ probe_budget_limit) where
    wait-Succeeds :
        (k : ℕ) (rest : M W Status) (w : W)
        → c.time w ≤ up + probe_budget_limit + lag
        → deadline ≤ c.time w + suc k * poll_interval
        → ((w' : W)
            → c.time w' ≤ up + round + 3 * lag
            → deadline ≤ c.time w' + k * poll_interval
            → Succeeds (rest w'))
        → Succeeds (
            (do
              t ← now c
              if leb deadline t
                  then raise startup_timeout
                  else do sleep c (min poll_interval (deadline - t)); rest)
              w)
    unfolding ◌>>=◌ now sleep
    wait-Succeeds k rest w early near more = elim (Bool-cases (leb deadline (c.monotonic w).0)) [
      | inl over ↦
          absurd (omega (arith, leb→le deadline (c.monotonic w).0 over, mono.read w, prompt.read w))
      | inr left ↦
          let d = min poll_interval (deadline - (c.monotonic w).0) in
          rw left (
            more _ (omega (arith, prompt.read w, prompt.slept d (c.monotonic w).1))
              (omega (arith, mono.reading w, mono.read w, mono.slept d (c.monotonic w).1)))
    ]

    -- what follows a probe that began before the node was up, or found it healthy
    after_probe-Succeeds :
        (k budget : ℕ) (rest : M W Status) (w : W)
        → answer ≤ budget
        → budget ≤ probe_budget_limit
        → deadline ≤ c.time w + suc k * poll_interval
        → ((w' : W)
            → c.time w' ≤ up + round + 3 * lag
            → deadline ≤ c.time w' + k * poll_interval
            → Succeeds (rest w'))
        → (o : Outcome W Health) → Probed c up answer lag budget w o
        → Succeeds (elim o [
          | returns h w' ↦ after_probe c port rest id deadline h w'
          | raises e w' ↦ raises e w'
          | stuck w' ↦ stuck w'
        ])
    unfolding after_probe pure
    after_probe-Succeeds k budget rest w enough small near more o p =
        rw p.returned (elim (Bool-cases (same_state p.found.state healthy)) [
          | inl good ↦ rw good refl
          | inr bad ↦
              rw (bad, p.compatible)
                (wait-Succeeds k rest p.after
                  (omega (arith, p.in_time, still_down budget w enough o p bad))
                  (omega (arith, p.forward)) more)
        ])

    poll-Succeeds :
        (k : ℕ) (w : W)
        → c.time w ≤ up + round + 3 * lag
        → deadline ≤ c.time w + k * poll_interval
        → Succeeds (poll c port (suc k) id deadline w)
    unfolding poll ◌>>=◌ now
    poll-Succeeds zero w early near = absurd (omega arith)
    poll-Succeeds (suc k) w early near = elim (Bool-cases (leb deadline (c.monotonic w).0)) [
      | inl over ↦
          absurd (omega (arith, leb→le deadline (c.monotonic w).0 over, mono.read w, prompt.read w))
      | inr left ↦
          let budget = min probe_budget_limit (deadline - (c.monotonic w).0) in
          rw left (
            after_probe-Succeeds k budget (poll c port (suc k) id deadline) (c.monotonic w).1
              (omega (arith, mono.read w, prompt.read w)) (omega arith)
              (omega (arith, mono.reading w, mono.read w)) (poll-Succeeds k)
              (port.probe_health id budget (c.monotonic w).1) (probed budget (c.monotonic w).1))
    ]

  -- If the arguments are valid, the adapter reports a status and starts the node, the node is up by the time `up`, which
  -- is not before the adapter's start is done, every reading of the clock and every sleep is late by `lag` at most, and
  -- every probe returns as `Probed` says, with an answer in at most 2 s, then a start for which 2.5 s, four lags and
  -- the time of an answer are left between `up` and the timeout returns a healthy status.
  pub start_node-Succeeds :
      (node_id timeout : Value) (t : ℕ) (st : Status) (w w₁ w₂ : W)
      → validate_service_node_id node_id ≡ ok id
      → validate_service_timeout timeout ≡ ok t
      → port.get_status id w ≡ returns st w₁
      → port.start id t w₁ ≡ returns tt w₂
      → c.time w₂ ≤ up
      → answer ≤ probe_budget_limit
      → up + round + 4 * lag + answer < c.time w₂ + t
      → Succeeds (start_node c port node_id timeout w)
  unfolding start_node now lift pure ◌>>=◌
  start_node-Succeeds node_id timeout t st w w₁ w₂ valid_id valid_timeout status begun before short
        late =
      rw (valid_id, valid_timeout, returned_then (port.get_status id) _ status)
        (elim (Bool-cases (same_state st.state healthy)) [
          | inl good ↦ rw good (same_healthy st.state good)
          | inr bad ↦
              rw (bad, returned_then (port.start id t) _ begun)
                (poll-Succeeds ((c.monotonic w₂).0 + t) (omega (arith, mono.reading w₂)) short
                  (suc (t / poll_interval)) (c.monotonic w₂).1 (omega (arith, prompt.read w₂))
                  (omega (arith, mono.read w₂)))
        ])
