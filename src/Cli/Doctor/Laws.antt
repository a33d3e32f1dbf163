-- ===== src/Cli/Doctor/Laws.antt =====
-- What a `doctor` that passes has seen.
use bitheim.Prelude.{
  ℕ, Bool, true, false, Option, none, some, ◌&&◌, ◌≡◌, refl, ◌*◌, arith, if◌then◌else◌,
}
use bitheim.Effect.{Outcome, M, returns, raises, stuck, handle, pure, ◌>>=◌, >>=-eq-returns}
use bitheim.Prelude.Int.{pos}
use bitheim.Value.{Value, float, finite, second}
use bitheim.Domain.Node.{State, stopped, starting, healthy}
use bitheim.Domain.Overview.{NodeOverview}
use bitheim.Service.Observation
use bitheim.Bitcoin.Client.{observation}
use bitheim.Compose.Docker.{Settings}
use bitheim.Compose.Lifecycle.{get_lifecycle_state}
use bitheim.Compose.Inspect
use bitheim.Configuration.{BitheimConfiguration}
use bitheim.Cli.{Args}
use bitheim.Cli.Exits.{client_made}
use bitheim.Cli.Doctor.{
  Machine, check_data_dir, check_runtime, check_client, check_node_state, check_node, check_rpc,
  check_rest, check_configuration, checked, handle_doctor,
}

-- the deadline of the inspections of `doctor`
abbrev limit : Value
limit = float (finite (pos (3 * second)))

module _ {W : Type 0} (m : Machine W) where
  -- An action has returned `true`.
  abbrev pub Passes : M W Bool → Type 0
  Passes action = (u : W) × (v : W) × (action u ≡ returns true v)

  -- what shows that the node is as it should be: in a container, or on a host, an inspection that returned, or on a host
  -- a node that is stopped
  pub data Seen (config : BitheimConfiguration) : Type 0 where
    by_client :
        (o : NodeOverview) (u v : W)
        → Observation.inspect_node (observation m.host.client) limit u ≡ returns o v
        → Seen config
    by_adapter :
        (s : Settings) (o : NodeOverview) (u v : W)
        → Inspect.inspect_node m.host.docker s config.node.node_id limit u ≡ returns o v
        → Seen config
    not_running :
        (s : Settings) (u v : W)
        → get_lifecycle_state m.host.docker s config.node.node_id u ≡ returns stopped v
        → Seen config

  -- every check has passed
  pub record Passed (config : BitheimConfiguration) : Type 0 where
    pub python : m.python_compatible ≡ true
    pub access : Passes (check_data_dir m config.data_dir)
    pub runtime : Passes (check_runtime m)
    pub node : Seen config

  -- a `try` that answers every exception with `false`
  guarded :
      (o : Outcome W Bool) (v : W)
      → elim o [ returns b w ↦ returns b w | raises e w ↦ pure false w | stuck w ↦ stuck w ]
        ≡ returns true v
      → o ≡ returns true v
  unfolding pure
  guarded (returns b w) v h = h
  guarded (raises e w) v h = absurd (cc h)
  guarded (stuck w) v h = absurd (cc h)

  try_returned :
      (action : M W Bool) (u v : W)
      → handle action (λ e. pure false) u ≡ returns true v
      → action u ≡ returns true v
  unfolding handle
  try_returned action u v h = guarded (action u) v h

  client_seen :
      (config : BitheimConfiguration) (u v : W) → check_client m u ≡ returns true v → Seen config
  unfolding check_client
  client_seen config u v h =
      let (o, u₁, e, _) =
        >>=-eq-returns _ _ (client_made m.host _ u v true (try_returned _ u v h)) in
      by_client o u u₁ e

  state_seen :
      (config : BitheimConfiguration) (s : Settings) (state : State) (t u v : W)
      → get_lifecycle_state m.host.docker s config.node.node_id t ≡ returns state u
      → check_node_state m s config.node.node_id state u ≡ returns true v
      → Seen config
  unfolding check_node_state pure
  state_seen config s stopped t u v g h = not_running s t u g
  state_seen config s starting t u v g h =
      let (o, u₁, e, _) = >>=-eq-returns _ _ (try_returned _ u v h) in by_adapter s o u u₁ e
  state_seen config s healthy t u v g h =
      let (o, u₁, e, _) = >>=-eq-returns _ _ (try_returned _ u v h) in by_adapter s o u u₁ e
  state_seen config s _ t u v g h = absurd (cc h)

  node_seen :
      (config : BitheimConfiguration) (u v : W)
      → check_node m config u ≡ returns true v
      → Seen config
  unfolding check_node
  node_seen config u v h =
      let (s, u₁, e₁, h₁) = >>=-eq-returns _ _ (try_returned _ u v h) in
      let (state, u₂, e₂, h₂) = >>=-eq-returns _ _ h₁ in state_seen config s state u₁ u₂ v e₂ h₂

  both_returned :
      (a b : Bool) (u v : W) → pure (a && b) u ≡ returns true v → (a ≡ true) × (b ≡ true)
  unfolding pure
  both_returned true true u v h = (refl, refl)
  both_returned true false u v h = absurd (cc h)
  both_returned false b u v h = absurd (cc h)

  check_rpc-inv :
      (config : BitheimConfiguration) (all_passed : Bool) (u v : W)
      → check_rpc m config all_passed u ≡ returns true v
      → (all_passed ≡ true) × Seen config
  unfolding check_rpc pure
  check_rpc-inv config all_passed u v h =
      let (inside, u₁, e, h₁) = >>=-eq-returns _ _ h in chosen inside all_passed u₁ v h₁
    where
      chosen :
          (inside all_passed : Bool) (u v : W)
          → (if inside
                then (check_client m >>= λ rpc. pure (all_passed && rpc))
                else if all_passed
                then check_node m config
                else pure false)
              u
            ≡ returns true v
          → (all_passed ≡ true) × Seen config
      chosen true p u v h =
          let (rpc, u₁, e, h₁) = >>=-eq-returns (check_client m) _ h in
          let (b, c) = both_returned p rpc u₁ v h₁ in (b, client_seen config u u₁ (cc (e, c)))
      chosen false true u v h = (refl, node_seen config u v h)
      chosen false false u v h = absurd (cc h)

  three : (a b c : Bool) → a && b && c ≡ true → (a ≡ true) × (b ≡ true) × (c ≡ true)
  three a b c h = ground arith

  passed : (b : Bool) (u v : W) → pure {A = ℕ} (if b then 0 else 1) u ≡ returns 0 v → b ≡ true
  unfolding pure
  passed true u v h = refl
  passed false u v h = absurd (cc h)

  check_rest-inv :
      (config : BitheimConfiguration) (u v : W)
      → check_rest m config u ≡ returns 0 v
      → Passed config
  unfolding check_rest
  check_rest-inv config u v h =
      let (access, u₁, e₁, h₁) = >>=-eq-returns _ _ h in
      let (runtime, u₂, e₂, h₂) = >>=-eq-returns _ _ h₁ in
      let (all_passed, u₃, e₃, h₃) = >>=-eq-returns _ _ h₂ in
      let (p, node) =
        check_rpc-inv config (m.python_compatible && access && runtime) u₂ u₃
          (cc (e₃, passed all_passed u₃ v h₃)) in
      let (python, a, r) = three m.python_compatible access runtime p in
      record {
        python = python;
        access = (u, u₁, cc (e₁, a));
        runtime = (u₁, u₂, cc (e₂, r));
        node = node;
      }

  -- If `doctor` exits with the code 0, then the configuration was loaded, Python is new enough, the checks of the data
  -- directory and of the runtime passed, and the node was seen to be as it should be: an inspection of it returned, by
  -- the client or by the adapter, or the adapter found it stopped.
  pub handle_doctor-Passed :
      (args : Args) (w w' : W)
      → handle_doctor m args w ≡ returns 0 w'
      → (config : BitheimConfiguration) × (u : W) × (check_configuration m args w
          ≡ returns (some config) u)
        × Passed config
  unfolding handle_doctor checked pure
  handle_doctor-Passed args w w' h =
      let (found, u, e, h₁) = >>=-eq-returns _ _ h in loaded found u e h₁
    where
      loaded :
          (found : Option BitheimConfiguration) (u : W)
          → check_configuration m args w ≡ returns found u
          → checked m found u ≡ returns 0 w'
          → (config : BitheimConfiguration) × (u : W) × (check_configuration m args w
              ≡ returns (some config) u)
            × Passed config
      loaded none u e h = absurd (cc h)
      loaded (some config) u e h = (config, u, e, check_rest-inv config u w' h)
