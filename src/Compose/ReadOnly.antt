-- ===== src/Compose/ReadOnly.antt =====
-- Which commands the operations of the adapter run that only look at the node.
use bitheim.Prelude.{ℕ, String, Bool, true, false, Option, List, ◌≡◌, refl}
use bitheim.Errors.{Exc, is_runtime_unavailable}
use bitheim.Value.{Value}
use bitheim.Effect.Clock.{now}
use bitheim.Effect.Keeps.{
  Keeps, Keeps-pure, Keeps-raise, Keeps-lift, Keeps-ask, Keeps-if, Keeps-bind, Keeps-handle,
  keeps_rules,
}
use bitheim.Compose.Docker.{
  Settings, Docker, Command, info, ps, run_status, run_inspect, argv, remaining, budget, build_env,
  run,
}
use bitheim.Compose.Runtime.{check_docker_runtime_available}
use bitheim.Compose.Containers.{get_lifecycle_state_deadline}
use bitheim.Compose.Lifecycle.{
  runtime_available, run_probe, probe_running, probe_health, get_lifecycle_state, get_status,
}
use bitheim.Compose.Inspect.{
  run_delegated_inspection, require_runtime, delegate, inspect_node, inspect_block, inspect_mempool,
  inspect_peers,
}

-- the commands that neither build, start nor stop anything that lasts
abbrev pub is_read_only : Command → Bool
is_read_only info = true
is_read_only (ps node_id) = true
is_read_only (run_status node_id) = true
is_read_only (run_inspect node_id inspection_type extra_args) = true
is_read_only _ = false

-- A property of the world that readings of the clock, of the search path and of the environment keep, and the
-- commands that only look.
pub record Harmless {W : Type 0} (d : Docker W) (s : Settings) (I : W → Type 0) : Type 0 where
  pub clock : (w : W) → I w → I (d.clock.monotonic w).1
  pub which : (cmd : String) (w : W) → I w → I (d.which cmd w).1
  pub environ : (name : String) (w : W) → I w → I (d.environ name w).1
  pub process :
      (cmd : Command) (env : Option (List (String × String))) (t : ℕ) (w : W)
      → is_read_only cmd ≡ true
      → I w
      → I (d.process (argv s cmd) env t w).1

module _ {W : Type 0} (d : Docker W) (s : Settings) (I : W → Type 0) (h : Harmless d s I) where
  now-Keeps : Keeps I (now d.clock)
  unfolding now
  now-Keeps = Keeps-ask _ h.clock

  budget-Keeps : (deadline : ℕ) (e : Exc) → Keeps I (budget d deadline e)
  unfolding budget remaining
  budget-Keeps deadline e = search (keeps_rules, now-Keeps) depth 10

  build_env-Keeps : (node_id : String) → Keeps I (build_env d s node_id)
  unfolding build_env
  build_env-Keeps node_id = search (keeps_rules, Keeps-ask, h.environ) depth 12

  run-Keeps :
      (cmd : Command) (env : Option (List (String × String))) (r : ℕ) (late broken : Exc)
      → is_read_only cmd ≡ true
      → Keeps I (run d s cmd env r late broken)
  unfolding run
  run-Keeps cmd env r late broken e =
      Keeps-bind _ _ (Keeps-ask _ (λ w. h.process cmd env r w e)) (λ c. Keeps-lift _)

  check_runtime-Keeps : (deadline : ℕ) → Keeps I (check_docker_runtime_available d s deadline)
  unfolding check_docker_runtime_available
  check_runtime-Keeps deadline = Keeps-bind _ _ (Keeps-ask _ (h.which s.docker_cmd)) (λ found.
      Keeps-bind _ _ (Keeps-lift _) (λ _.
        Keeps-bind _ _ (budget-Keeps deadline _)
          (λ r. Keeps-bind _ _ (run-Keeps info _ r _ _ refl) (λ res. Keeps-lift _))))

  state-Keeps :
      (node_id : String) (deadline : ℕ)
      → Keeps I (get_lifecycle_state_deadline d s node_id deadline)
  unfolding get_lifecycle_state_deadline
  state-Keeps node_id deadline = Keeps-bind _ _ (check_runtime-Keeps deadline) (λ _.
      Keeps-bind _ _ (build_env-Keeps node_id) (λ env.
        Keeps-bind _ _ (budget-Keeps deadline _) (λ r.
          Keeps-bind _ _ (run-Keeps (ps node_id) _ r _ _ refl)
            (λ res. Keeps-bind _ _ (Keeps-lift _) (λ _. Keeps-lift _)))))

  runtime_available-Keeps : (deadline : ℕ) → Keeps I (runtime_available d s deadline)
  unfolding runtime_available
  runtime_available-Keeps deadline =
      Keeps-handle _ _ (Keeps-bind _ _ (check_runtime-Keeps deadline) (λ _. Keeps-pure true))
        (λ e. Keeps-if (is_runtime_unavailable e) _ _ (λ _. Keeps-pure _) (λ _. Keeps-raise e))

  run_probe-Keeps : (node_id : String) (r : ℕ) → Keeps I (run_probe d s node_id r)
  unfolding run_probe
  run_probe-Keeps node_id r = Keeps-bind _ _ (build_env-Keeps node_id) (λ env.
      Keeps-bind _ _ (Keeps-ask _ (λ w. h.process (run_status node_id) _ r w refl))
        (λ c. Keeps-lift _))

  remaining-Keeps : (deadline : ℕ) → Keeps I (remaining d deadline)
  unfolding remaining
  remaining-Keeps deadline = Keeps-bind _ _ now-Keeps (λ t. Keeps-pure _)

  probe_running-Keeps :
      (node_id : String) (deadline : ℕ) → Keeps I (probe_running d s node_id deadline)
  unfolding probe_running
  probe_running-Keeps node_id deadline =
      search (keeps_rules, state-Keeps, remaining-Keeps, run_probe-Keeps) depth 12

  probe_health-Keeps : (node_id : String) (timeout : ℕ) → Keeps I (probe_health d s node_id timeout)
  unfolding probe_health
  probe_health-Keeps node_id timeout =
      search (keeps_rules, now-Keeps, runtime_available-Keeps, probe_running-Keeps) depth 12

  pub get_lifecycle_state-Keeps : (node_id : String) → Keeps I (get_lifecycle_state d s node_id)
  unfolding get_lifecycle_state
  get_lifecycle_state-Keeps node_id = search (keeps_rules, now-Keeps, state-Keeps) depth 6

  pub get_status-Keeps : (node_id : String) → Keeps I (get_status d s node_id)
  unfolding get_status
  get_status-Keeps node_id =
      search (keeps_rules, get_lifecycle_state-Keeps, probe_health-Keeps) depth 12

  require_runtime-Keeps : (deadline : ℕ) → Keeps I (require_runtime d s deadline)
  unfolding require_runtime
  require_runtime-Keeps deadline =
      Keeps-handle _ _ (check_runtime-Keeps deadline) (λ e. Keeps-raise _)

  delegation-Keeps :
      (node_id : String) (deadline : ℕ) (kind : String) (args : List String)
      → Keeps I (run_delegated_inspection d s node_id deadline kind args)
  unfolding run_delegated_inspection
  delegation-Keeps node_id deadline kind args = Keeps-bind _ _ (budget-Keeps deadline _) (λ r.
      Keeps-bind _ _ (build_env-Keeps node_id) (λ env.
        Keeps-bind _ _ (run-Keeps (run_inspect node_id kind args) _ r _ _ refl)
          (λ res. Keeps-lift _)))

  delegate-Keeps :
      (node_id : String) (t : ℕ) (kind : String) (printable : Bool) (args : List String)
      → Keeps I (delegate d s node_id t kind printable args)
  unfolding delegate
  delegate-Keeps node_id t kind printable args =
      search (keeps_rules, now-Keeps, require_runtime-Keeps, state-Keeps, delegation-Keeps) depth 16

  pub inspect_node-Keeps : (node_id : String) (t : Value) → Keeps I (inspect_node d s node_id t)
  unfolding inspect_node
  inspect_node-Keeps node_id t = search (keeps_rules, delegate-Keeps) depth 10

  pub inspect_block-Keeps :
      (node_id : String) (block_hash height t : Value)
      → Keeps I (inspect_block d s node_id block_hash height t)
  unfolding inspect_block
  inspect_block-Keeps node_id block_hash height t = search (keeps_rules, delegate-Keeps) depth 14

  pub inspect_mempool-Keeps :
      (node_id : String) (t : Value) → Keeps I (inspect_mempool d s node_id t)
  unfolding inspect_mempool
  inspect_mempool-Keeps node_id t = search (keeps_rules, delegate-Keeps) depth 10

  pub inspect_peers-Keeps : (node_id : String) (t : Value) → Keeps I (inspect_peers d s node_id t)
  unfolding inspect_peers
  inspect_peers-Keeps node_id t = search (keeps_rules, delegate-Keeps) depth 10

  -- The state, the health, the status and the four inspections are read-only, whatever the outcome: every property of
  -- the world that survives reading the clock, the search path and the environment and the commands `docker info`,
  -- `compose ps` and the one-shot `compose run` of a status or an inspection, survives them. So they never build an
  -- image and never start or stop a service.
  pub read_only-Keeps :
      (node_id : String) (timeout : ℕ) (block_hash height t : Value)
      → Keeps I (get_lifecycle_state d s node_id)
        × Keeps I (probe_health d s node_id timeout)
        × Keeps I (get_status d s node_id)
        × Keeps I (inspect_node d s node_id t)
        × Keeps I (inspect_block d s node_id block_hash height t)
        × Keeps I (inspect_mempool d s node_id t)
        × Keeps I (inspect_peers d s node_id t)
  read_only-Keeps node_id timeout block_hash height t = (
    get_lifecycle_state-Keeps node_id,
    probe_health-Keeps node_id timeout,
    get_status-Keeps node_id,
    inspect_node-Keeps node_id t,
    inspect_block-Keeps node_id block_hash height t,
    inspect_mempool-Keeps node_id t,
    inspect_peers-Keeps node_id t,
  )
