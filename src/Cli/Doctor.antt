-- ===== src/Cli/Doctor.antt =====
-- interfaces/cli.py: `handle_doctor`. Each check is whether it passed; the lines that it writes are not modelled.
pub mod Laws
use bitheim.Prelude.{
  ℕ, ◌*◌, String, Bool, true, false, Option, none, some, List, [], ◌∷◌, ◌&&◌, ◌||◌, ◌==◌,
  if◌then◌else◌,
}
use bitheim.Prelude.Int.{pos, int_eq}
use bitheim.Errors.{Exc, configuration_error}
use bitheim.Value.{float, finite, second}
use bitheim.Effect.{M, pure, raise, ask, handle, ◌>>=◌, ◌>>◌}
use bitheim.Domain.Node.{State, stopped, starting, healthy, same_state}
use bitheim.Service.Observation
use bitheim.Configuration.{BitheimConfiguration}
use bitheim.Compose.Docker.{Settings, Completion, completed}
use bitheim.Compose.Lifecycle.{get_lifecycle_state}
use bitheim.Compose.Inspect
use bitheim.Cli.{Host, container_client, Args, is_container_execution_context, configured, adapter}

-- what the checks ask of the machine: whether Python is new enough, `os.access(path, os.W_OK)`, the parents of a resolved
-- path from the nearest on (the root has itself), and the full path that `shutil.which` gives
pub record Machine (W : Type 0) : Type 1 where
  pub host : Host W
  pub python_compatible : Bool
  pub writable : String → W → Bool × W
  pub parents : String → List String
  pub docker_path : W → Option String × W

module _ {W : Type 0} (m : Machine W) where
  -- the loop of `_find_nearest_existing_ancestor`
  unfoldable pub first_existing : List String → M W (Option String)
  first_existing [] = pure none
  first_existing (p ∷ ps) = do
    found ← ask (m.host.docker.exists p)
    if found then pure (some p) else first_existing ps

  unfoldable pub find_nearest_existing_ancestor : String → M W (Option String)
  find_nearest_existing_ancestor path = first_existing (m.parents path)

  -- a directory that can be written to
  unfoldable pub accessible : String → M W Bool
  accessible path = do
    dir ← ask (m.host.docker.is_dir path)
    if dir then ask (m.writable path) else pure false

  unfoldable pub ancestor_accessible : Option String → M W Bool
  ancestor_accessible none = pure false
  ancestor_accessible (some ancestor) = do
    found ← ask (m.host.docker.exists ancestor)
    if found then accessible ancestor else pure false

  -- checks 3 and 4
  unfoldable pub check_data_dir : String → M W Bool
  check_data_dir data_dir = do
    found ← ask (m.host.docker.exists data_dir)
    if found
        then accessible data_dir
        else (do ancestor ← find_nearest_existing_ancestor data_dir; ancestor_accessible ancestor)

  -- a query of Docker in a `try` that catches everything: whether it returned 0
  unfoldable pub succeeded : Completion → Bool
  succeeded (completed res) = res.returncode == pos 0
  succeeded _ = false

  unfoldable pub query : List String → M W Bool
  query args = do c ← ask (m.host.docker.process args none (5 * second)); pure (succeeded c)

  unfoldable pub check_docker : Option String → M W Bool
  check_docker none = pure false
  check_docker (some docker_bin) = do
    engine ← query (docker_bin ∷ "info" ∷ "--format" ∷ "{{.ServerVersion}}" ∷ [])
    compose ← query (docker_bin ∷ "compose" ∷ "version" ∷ "--short" ∷ [])
    pure (engine && compose)

  -- check 5
  unfoldable pub check_runtime : M W Bool
  check_runtime = do
    inside ← is_container_execution_context m.host
    if inside then pure true else (do docker_bin ← ask m.docker_path; check_docker docker_bin)

  -- check 6 in a container
  unfoldable pub check_client : M W Bool
  check_client =
      handle
        (container_client m.host >>= (λ client.
          Observation.inspect_node client (float (finite (pos (3 * second)))) >> pure true))
        (λ e. pure false)

  -- check 6 on a host, for a node that is not stopped
  unfoldable pub check_node_state : Settings → String → State → M W Bool
  check_node_state s node_id state =
      if same_state state stopped
      then pure true
      else if same_state state starting || same_state state healthy
      then handle
          (Inspect.inspect_node m.host.docker s node_id (float (finite (pos (3 * second))))
            >> pure true)
          (λ e. pure false)
      else pure false

  -- check 6 on a host
  unfoldable pub check_node : BitheimConfiguration → M W Bool
  check_node config =
      handle
        (do
          s ← adapter m.host config
          state ← get_lifecycle_state m.host.docker s config.node.node_id
          check_node_state s config.node.node_id state)
        (λ e. pure false)

  -- check 6, with whether the others have passed
  unfoldable pub check_rpc : BitheimConfiguration → Bool → M W Bool
  check_rpc config all_passed = do
    inside ← is_container_execution_context m.host
    if inside
        then (do rpc ← check_client; pure (all_passed && rpc))
        else if all_passed
        then check_node config
        else pure false

  abbrev exit_code : Bool → ℕ
  exit_code b = if b then 0 else 1

  -- the checks from the third on
  unfoldable pub check_rest : BitheimConfiguration → M W ℕ
  check_rest config = do
    access ← check_data_dir config.data_dir
    runtime ← check_runtime
    all_passed ← check_rpc config (m.python_compatible && access && runtime)
    pure (exit_code all_passed)

  -- the configuration of the second check, none for a `ConfigurationError`
  unfoldable pub check_configuration : Args → M W (Option BitheimConfiguration)
  check_configuration args =
      handle
        (configured m.host (record args { node_id = none }) none none
          >>= (λ config. pure (some config)))
        caught
    where
      caught : Exc → M W (Option BitheimConfiguration)
      caught configuration_error = pure none
      caught e = raise e

  unfoldable pub checked : Option BitheimConfiguration → M W ℕ
  checked none = pure 1
  checked (some config) = check_rest config

  unfoldable pub handle_doctor : Args → M W ℕ
  handle_doctor args = do config ← check_configuration args; checked config
