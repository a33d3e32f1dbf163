-- ===== src/Service/Lifecycle/Verified.antt =====
-- What the health in a status that a start returns shows of the node, by what the adapter's healthy reports show.
use bitheim.Prelude.{ℕ, zero, suc, String, true, ◌≡◌, arith, leb}
use bitheim.Value.{Value}
use bitheim.Effect.{M}
use bitheim.Effect.Clock.{Clock}
use bitheim.Effect.Results.{
  Returns, Returns-pure, Returns-raise, Returns-if, Returns-bind, Returns-bind_with, Returns-stuck,
}
use bitheim.Domain.Node.{State, healthy, incompatible, same_state, Health, Status}
use bitheim.Service.Lifecycle.{NodeLifecyclePort, after_probe, poll, start_node}

-- a property of the health behind every healthy report of the adapter
pub record Reports {W : Type 0} (P : Health → Type 0) (port : NodeLifecyclePort W) : Type 0 where
  pub probe_health :
      (id : String) (t : ℕ) → Returns (λ h. h.state ≡ healthy → P h) (port.probe_health id t)
  pub get_status :
      (id : String) → Returns (λ st. st.state ≡ healthy → P st.health) (port.get_status id)

same_healthy : (s : State) → same_state s healthy ≡ true → s ≡ healthy
same_healthy s h = ground arith

module _ {W : Type 0} (c : Clock W) (port : NodeLifecyclePort W) (P : Health → Type 0)
    (reports : Reports P port) where
  abbrev Shows : Status → Type 0
  Shows st = P st.health

  after_probe-Shows :
      (rest : M W Status) (id : String) (deadline : ℕ) (h : Health)
      → Returns Shows rest
      → (h.state ≡ healthy → P h)
      → Returns Shows (after_probe c port rest id deadline h)
  unfolding after_probe
  after_probe-Shows rest id deadline h r p =
      Returns-if (same_state h.state healthy) _ _ (λ e. Returns-pure _ (p (same_healthy h.state e)))
        (λ _.
          Returns-if (same_state h.state incompatible) _ _ (λ _. Returns-raise _)
            (λ _. Returns-bind _ _ (λ t.
              Returns-if (leb deadline t) _ _ (λ _. Returns-raise _)
                (λ _. Returns-bind _ _ (λ _. r)))))

  poll-Shows :
      (fuel : ℕ) (id : String) (deadline : ℕ) → Returns Shows (poll c port fuel id deadline)
  unfolding poll
  poll-Shows zero id deadline = Returns-stuck
  poll-Shows (suc fuel) id deadline = Returns-bind _ _ (λ t.
      Returns-if (leb deadline t) _ _ (λ _. Returns-raise _)
        (λ _.
          Returns-bind_with _ _ (reports.probe_health id _)
            (λ h p. after_probe-Shows _ id deadline h (poll-Shows fuel id deadline) p)))

  pub start_node-Shows :
      (node_id timeout : Value) → Returns Shows (start_node c port node_id timeout)
  unfolding start_node
  start_node-Shows node_id timeout = Returns-bind _ _ (λ id. Returns-bind _ _ (λ t.
      Returns-bind_with _ _ (reports.get_status id) (λ st p.
        Returns-if (same_state st.state healthy) _ _
          (λ e. Returns-pure st (p (same_healthy st.state e)))
          (λ _. Returns-bind _ _ (λ _. Returns-bind _ _ (λ n. poll-Shows _ id _))))))
