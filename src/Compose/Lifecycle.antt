-- ===== src/Compose/Lifecycle.antt =====
-- infrastructure/compose/adapter.py: the operations of `NodeLifecyclePort`.
use bitheim.Prelude.{
  none, ℕ, ◌+◌, ◌*◌, ◌/◌, max, String, Bool, true, false, some, ◌==◌, nat_eq, if◌then◌else◌,
}
use bitheim.Prelude.Int.{pos, int_eq}
use bitheim.Errors.{
  is_runtime_unavailable, runtime_unavailable, lifecycle_error, startup_timeout, shutdown_timeout,
  require,
}
use bitheim.Value.{second}
use bitheim.Effect.{M, pure, raise, lift, ask, handle, ◌>>=◌, ◌>>◌}
use bitheim.Effect.Clock.{now}
use bitheim.Domain.Node.{State, stopped, unknown, same_state, Health, health, Status}
use bitheim.Service.Lifecycle.{NodeLifecyclePort}
use bitheim.Compose.Docker.{
  Settings, Docker, argv, up, stop_services, run_status, remaining, budget, build_env, run,
}
use bitheim.Compose.Resources.{get_compose_template_path, get_bitcoin_core_resource_dir}
use bitheim.Compose.Runtime.{
  check_docker_runtime_available, check_subnet_collision, ensure_image_available,
  locate_bitheim_build_context,
}
use bitheim.Compose.Containers.{get_lifecycle_state_deadline}
use bitheim.Compose.Health.{probe_result}

-- `NodeStatus` of a stopped node
abbrev stopped_status : String → Status
stopped_status node_id = record {
  node_id = node_id;
  state = stopped;
  health = health stopped "node_stopped";
  details = none;
}

module _ {W : Type 0} (d : Docker W) where
  -- `__init__` with the arguments that the command line gives
  unfoldable pub compose_adapter : String → String → M W Settings
  compose_adapter compose_subnet bitheim_image = do
    template ← get_compose_template_path d
    pure (record {
      compose_template = template;
      compose_subnet = compose_subnet;
      bitcoin_core_image = "bitheim-bitcoin-core:31.1";
      bitheim_image = bitheim_image;
      docker_cmd = "docker";
    })

  module _ (s : Settings) where
    -- `start` from `env` on
    unfoldable pub compose_up : String → ℕ → M W (Unit {0})
    compose_up node_id deadline = do
      env ← build_env d s node_id
      r ← budget d deadline startup_timeout
      res ← run d s (up node_id) (some env) r startup_timeout runtime_unavailable
      lift (require (res.returncode == pos 0) lifecycle_error)

    unfoldable pub start : String → ℕ → M W (Unit {0})
    start node_id timeout = do
      t ← now d.clock
      let deadline = t + timeout
      check_docker_runtime_available d s deadline
      check_subnet_collision d s node_id deadline
      btc_resource_dir ← get_bitcoin_core_resource_dir d
      ensure_image_available d s s.bitcoin_core_image (some btc_resource_dir) deadline
      bitheim_build_ctx ← locate_bitheim_build_context d s
      ensure_image_available d s s.bitheim_image bitheim_build_ctx deadline
      compose_up node_id deadline

    -- the `try` of `stop`, with the seconds of grace
    unfoldable pub stop_project : String → ℕ → ℕ → M W (Unit {0})
    stop_project node_id deadline grace_seconds = do
      env ← build_env d s node_id
      r ← budget d deadline shutdown_timeout
      res ←
          run d s (stop_services node_id grace_seconds) (some env) r shutdown_timeout
            runtime_unavailable
      lift (require (res.returncode == pos 0) lifecycle_error)
      post_state ← get_lifecycle_state_deadline d s node_id deadline
      lift (require (same_state post_state stopped) shutdown_timeout)

    unfoldable pub stop : String → ℕ → M W (Unit {0})
    stop node_id timeout = do
      t ← now d.clock
      let deadline = t + timeout
      check_docker_runtime_available d s deadline
      current_state ← get_lifecycle_state_deadline d s node_id deadline
      if same_state current_state stopped then pure tt else do
        r ← budget d deadline shutdown_timeout
        stop_project node_id deadline (max 1 (r / second))

    unfoldable pub get_lifecycle_state : String → M W State
    get_lifecycle_state node_id = do
      t ← now d.clock
      get_lifecycle_state_deadline d s node_id (t + 10 * second)

    -- the check of the runtime in a `try` that catches `RuntimeUnavailableError`: whether it passed
    unfoldable pub runtime_available : ℕ → M W Bool
    runtime_available deadline =
        handle (check_docker_runtime_available d s deadline >> pure true)
          (λ e. if is_runtime_unavailable e then pure false else raise e)

    -- `probe_health` from `env` on
    unfoldable pub run_probe : String → ℕ → M W Health
    run_probe node_id r = do
      env ← build_env d s node_id
      c ← ask (d.process (argv s (run_status node_id)) (some env) r)
      lift (probe_result d.show d.loads c)

    -- `probe_health` from the lookup of the state on
    unfoldable pub probe_running : String → ℕ → M W Health
    probe_running node_id deadline = do
      state ← get_lifecycle_state_deadline d s node_id deadline
      if same_state state stopped then pure (health stopped "node_stopped") else do
        r ← remaining d deadline
        if r == 0 then pure (health unknown "timeout_expired") else run_probe node_id r

    unfoldable pub probe_health : String → ℕ → M W Health
    probe_health node_id timeout =
        if timeout == 0 then pure (health unknown "timeout_expired") else do
          t ← now d.clock
          available ← runtime_available (t + timeout)
          if available
              then probe_running node_id (t + timeout)
              else pure (health unknown "runtime_unavailable")

    -- the status by the state of the containers and the probe
    abbrev pub combined : String → State → Health → Status
    combined node_id state h = record {
      node_id = node_id;
      state = if same_state state unknown then unknown else h.state;
      health = h;
      details = none;
    }

    unfoldable pub get_status : String → M W Status
    get_status node_id = do
      state ← get_lifecycle_state node_id
      if same_state state stopped
          then pure (stopped_status node_id)
          else do h ← probe_health node_id (5 * second); pure (combined node_id state h)

    -- the adapter as the port that the service uses
    abbrev pub lifecycle_port : NodeLifecyclePort W
    lifecycle_port = record {
      start = start;
      stop = stop;
      probe_health = probe_health;
      get_lifecycle_state = get_lifecycle_state;
      get_status = get_status;
    }
