-- ===== src/Compose/Stopping.antt =====
-- What a stop that returns has seen.
use mathlib.Core.Path.{subst}
use bitheim.Prelude.{
  ℕ, ◌+◌, String, Bool, true, ◌≡◌, arith, inl, inr, ◌⊎◌, refl, false, max, ◌/◌, if◌then◌else◌,
}
use bitheim.Errors.{Exc, require, shutdown_timeout}
use bitheim.Value.{second}
use bitheim.Effect.{M, returns, lift, pure, ask, >>=-eq-returns, ◌>>=◌}
use bitheim.Effect.Clock.{now}
use bitheim.Domain.Node.{State, stopped, same_state}
use bitheim.Compose.Docker.{Settings, Docker, budget}
use bitheim.Compose.Containers.{get_lifecycle_state_deadline}
use bitheim.Compose.Lifecycle.{stop, stop_project}

module _ {W : Type 0} where
  require_returned :
      (b : Bool) (e : Exc) (u w : W) → lift (require b e) u ≡ returns tt w → (b ≡ true) × (u ≡ w)
  unfolding lift
  require_returned b e u w h = ground arith

  chosen :
      (b : Bool) (m : M W (Unit {0})) (v w : W)
      → (if b then pure tt else m) v ≡ returns tt w
      → ((b ≡ true) × (v ≡ w)) ⊎ (m v ≡ returns tt w)
  unfolding pure
  chosen true m v w h = inl (refl, cc h)
  chosen false m v w h = inr h

same_stopped : (st : State) → same_state st stopped ≡ true → st ≡ stopped
same_stopped st h = ground arith

module _ {W : Type 0} (d : Docker W) (s : Settings) where
  -- The last thing that a run does is to look up the state, and it finds the node stopped.
  abbrev pub Observed : String → ℕ → W → Type 0
  Observed node_id deadline w' =
      (u : W) × (get_lifecycle_state_deadline d s node_id deadline u ≡ returns stopped w')

  observed :
      (node_id : String) (deadline : ℕ) (st : State) (u v w' : W)
      → get_lifecycle_state_deadline d s node_id deadline u ≡ returns st v
      → same_state st stopped ≡ true
      → v ≡ w'
      → Observed node_id deadline w'
  observed node_id deadline st u v w' e b q = (u, cc (e, q, same_stopped st b))

  stop_project-Observed :
      (node_id : String) (deadline grace : ℕ) (w w' : W)
      → stop_project d s node_id deadline grace w ≡ returns tt w'
      → Observed node_id deadline w'
  unfolding stop_project
  stop_project-Observed node_id deadline grace w w' h =
      let (env, w₁, e₁, h₁) = >>=-eq-returns _ _ h in
      let (r, w₂, e₂, h₂) = >>=-eq-returns _ _ h₁ in
      let (res, w₃, e₃, h₃) = >>=-eq-returns _ _ h₂ in
      let (_, w₄, e₄, h₄) = >>=-eq-returns _ _ h₃ in
      let (st, w₅, e₅, h₅) = >>=-eq-returns _ _ h₄ in
      let (b, q) = require_returned (same_state st stopped) shutdown_timeout w₅ w' h₅ in
      observed node_id deadline st w₄ w₅ w' e₅ b q

  after_lookup :
      (node_id : String) (deadline : ℕ) (st : State) (u v w' : W)
      → get_lifecycle_state_deadline d s node_id deadline u ≡ returns st v
      → (if same_state st stopped then pure tt else (do
        r ← budget d deadline shutdown_timeout
        stop_project d s node_id deadline (max 1 (r / second))))
          v
        ≡ returns tt w'
      → Observed node_id deadline w'
  after_lookup node_id deadline st u v w' e h = elim (chosen (same_state st stopped) _ v w' h) [
    | inl (b, q) ↦ observed node_id deadline st u v w' e b q
    | inr k ↦
        let (r, w₁, e₁, h₁) = >>=-eq-returns _ _ k in
        stop_project-Observed node_id deadline _ w₁ w' h₁
  ]

  now_returned : (w u : W) (t : ℕ) → now d.clock w ≡ returns t u → t ≡ (d.clock.monotonic w).0
  unfolding now ask
  now_returned w u t h = cc

  -- The last thing that a stop does that returns is to look up the state of the containers, under the deadline of the
  -- whole call, and it has found the node stopped, whether the node was stopped before or a stop command has run.
  pub stop-Observed :
      (node_id : String) (timeout : ℕ) (w w' : W)
      → stop d s node_id timeout w ≡ returns tt w'
      → Observed node_id ((d.clock.monotonic w).0 + timeout) w'
  unfolding stop
  stop-Observed node_id timeout w w' h =
      let (t, w₁, e₁, h₁) = >>=-eq-returns _ _ h in
      let (_, w₂, e₂, h₂) = >>=-eq-returns _ _ h₁ in
      let (st, w₃, e₃, h₃) = >>=-eq-returns _ _ h₂ in
      subst (λ x. Observed node_id (x + timeout) w') (now_returned w w₁ t e₁)
        (after_lookup node_id (t + timeout) st w₂ w₃ w' e₃ h₃)
