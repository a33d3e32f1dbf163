-- ===== src/Cli.antt =====
-- interfaces/cli.py: the command handlers and `main`, from the parsed arguments on.
mod Output
pub mod Lines
pub mod Argparse
pub mod Delegation
pub mod Doctor
pub mod Exits
pub mod HostOnly
pub mod Misconfigured
pub mod Parser
pub mod ReadOnly
pub mod Probed
unfoldable pub use Output.*
use bitheim.Prelude.{
  ℕ, ◌*◌, String, Bool, true, false, Option, none, some, List, [], ◌∷◌, map, not, ◌==◌, string_eq,
  is_some, if◌then◌else◌,
}
use bitheim.Prelude.Int.{pos}
use bitheim.Errors.{
  Exc, rpc_authentication, rpc_incompatible_node, rpc_timeout, rpc_unavailable,
  rpc_malformed_response, rpc_protocol, rpc_response_size_exceeded, rpc_resource_not_found,
  configuration_error, lifecycle_error, value_error, is_bitheim_error, require,
}
use bitheim.Value.{
  Value, null, int, str, float, finite, obj, arr, of_list, Fields, field, end, value_or_null,
  second,
}
use bitheim.Effect.{M, pure, raise, lift, ask, handle, ◌>>=◌, ◌>>◌}
use bitheim.Domain.Node.{State, state_text, Health, Status}
use bitheim.Cli.Lines.{
  started_lines, stopped_lines, status_lines, overview_lines, block_lines, mempool_lines,
  peers_lines,
}
use bitheim.Domain.Overview
use bitheim.Domain.Block
use bitheim.Domain.Mempool
use bitheim.Domain.Peer
use bitheim.Domain.Peer.{PeerSummary}
use bitheim.Service.Lifecycle.{start_node, stop_node, get_node_status}
use bitheim.Service.Observation
use bitheim.Bitcoin.Client.{Environment, bitcoin_rpc_client}
use bitheim.Service.Observation.{NodeObservationPort}
use bitheim.Bitcoin.Probe.{ProbeEnvironment, probe_rpc_http}
use bitheim.Configuration.{
  Surroundings, Sources, Layer, BitheimConfiguration, no_layer, load_configuration,
}
use bitheim.Compose.Docker.{Settings, Docker, or_default}
use bitheim.Compose.Lifecycle.{compose_adapter, lifecycle_port}
use bitheim.Compose.Inspect

-- the parsed arguments
pub record Args : Type 0 where
  pub config : Option String
  pub data_dir : Option Value
  pub node_id : Option Value
  pub timeout : Option Value
  pub block_hash : Value
  pub height : Value
  pub as_json : Bool

abbrev pub printed : Args → Value → List String → Printed
printed args v ls = if args.as_json then json v else lines ls

abbrev or_value : Option Value → Value → Value
or_value none d = d
or_value (some v) d = v

-- `args.timeout if args.timeout is not None else 10.0`
abbrev deadline_of : Args → Value
deadline_of args = or_value args.timeout (float (finite (pos (10 * second))))

-- everything outside the program: Docker and the file system, configuration files, and the node that a container reaches;
-- `is_int` says whether `int` reads a text
pub record Host (W : Type 0) : Type 1 where
  pub docker : Docker W
  pub surroundings : Surroundings
  pub variables : String → Option String
  pub client : Environment W
  pub probe : ProbeEnvironment W
  pub is_int : String → Bool

module _ {W : Type 0} (h : Host W) where
  -- `_is_container_execution_context`
  unfoldable pub is_container_execution_context : M W Bool
  is_container_execution_context = do
    context ← ask (h.docker.environ "BITHEIM_EXECUTION_CONTEXT")
    if or_default context "" == "container" then pure true else ask (h.docker.exists "/.dockerenv")

  -- `_ensure_host_execution_context`
  unfoldable pub ensure_host_execution_context : M W (Unit {0})
  ensure_host_execution_context = do
    inside ← is_container_execution_context
    lift (require (not inside) lifecycle_error)

  -- `load_configuration` with the options of a command
  unfoldable pub configured : Args → Option Value → Option Value → M W BitheimConfiguration
  configured args startup_timeout shutdown_timeout = lift (
      load_configuration h.surroundings
        (record {
          config_path = args.config;
          default_config_path = some "bitheim.toml";
          environ = h.variables;
        })
        (record no_layer {
          data_dir = args.data_dir;
          node_id = args.node_id;
          startup_timeout = startup_timeout;
          shutdown_timeout = shutdown_timeout;
        }))

  -- the adapter that a command makes
  unfoldable pub adapter : BitheimConfiguration → M W Settings
  adapter config = do
    bitheim_image ← ask (h.docker.environ "BITHEIM_IMAGE")
    compose_adapter h.docker config.node.compose_subnet (or_default bitheim_image "bitheim:local")

  -- the client that a command makes inside a container
  unfoldable pub container_client : M W (NodeObservationPort W)
  container_client = lift (bitcoin_rpc_client h.client "bitcoin-core" 18443 "/data/rpc/.cookie")

  unfoldable pub handle_start : Args → M W Printed
  handle_start args = do
    ensure_host_execution_context
    config ← configured args args.timeout none
    s ← adapter config
    status ←
        start_node h.docker.clock (lifecycle_port h.docker s) (str config.node.node_id)
          (float (finite (pos config.node.startup_timeout)))
    pure (lines (started_lines h.docker.show status))

  unfoldable pub handle_stop : Args → M W Printed
  handle_stop args = do
    ensure_host_execution_context
    config ← configured args none args.timeout
    s ← adapter config
    status ←
        stop_node h.docker.clock (lifecycle_port h.docker s) (str config.node.node_id)
          (float (finite (pos config.node.shutdown_timeout)))
    pure (lines (stopped_lines h.docker.show status))

  -- the status by the probe inside a container
  unfoldable pub container_status : String → M W Status
  container_status node_id = do
    rpc_port ← ask (h.docker.environ "BITHEIM_RPC_PORT")
    lift (require (h.is_int (or_default rpc_port "18443")) value_error)
    health ← probe_rpc_http h.probe true true
    pure (record { node_id = node_id; state = health.state; health = health; details = none })

  unfoldable pub host_status : BitheimConfiguration → M W Status
  host_status config = do
    s ← adapter config
    get_node_status h.docker.clock (lifecycle_port h.docker s) (str config.node.node_id)

  unfoldable pub handle_status : Args → M W Printed
  handle_status args = do
    config ← configured args none none
    inside ← is_container_execution_context
    status ← (if inside then container_status config.node.node_id else host_status config)
    pure (printed args (obj (status_object status)) (status_lines h.docker.show status))

  unfoldable pub handle_inspect_node : Args → M W Printed
  handle_inspect_node args = do
    config ← configured args none none
    inside ← is_container_execution_context
    overview ←
        (if inside
          then (do client ← container_client; Observation.inspect_node client (deadline_of args))
          else (do
            s ← adapter config
            Inspect.inspect_node h.docker s config.node.node_id (deadline_of args)))
    pure (printed args (obj (Overview.to_dict overview)) (overview_lines h.docker.show overview))

  unfoldable pub handle_inspect_block : Args → M W Printed
  handle_inspect_block args = do
    config ← configured args none none
    inside ← is_container_execution_context
    summary ←
        (if inside
          then (do
            client ← container_client
            Observation.inspect_block client args.block_hash args.height (deadline_of args))
          else (do
            s ← adapter config
            Inspect.inspect_block h.docker s config.node.node_id args.block_hash args.height
                (deadline_of args)))
    pure (printed args (obj (Block.to_dict summary)) (block_lines h.docker.show summary))

  unfoldable pub handle_inspect_mempool : Args → M W Printed
  handle_inspect_mempool args = do
    config ← configured args none none
    inside ← is_container_execution_context
    summary ←
        (if inside
          then (do client ← container_client; Observation.inspect_mempool client (deadline_of args))
          else (do
            s ← adapter config
            Inspect.inspect_mempool h.docker s config.node.node_id (deadline_of args)))
    pure (printed args (obj (Mempool.to_dict summary)) (mempool_lines h.docker.show summary))

  unfoldable pub handle_inspect_peers : Args → M W Printed
  handle_inspect_peers args = do
    config ← configured args none none
    inside ← is_container_execution_context
    peers ←
        (if inside
          then (do client ← container_client; Observation.inspect_peers client (deadline_of args))
          else (do
            s ← adapter config
            Inspect.inspect_peers h.docker s config.node.node_id (deadline_of args)))
    pure (
        printed args
          (obj (field "peers" (arr (of_list (map (λ p. obj (Peer.to_dict p)) peers))) end))
          (peers_lines h.docker.show peers))

  -- the two handlers of `main` for an exception
  unfoldable pub failed : Exc → M W Finished
  failed e = do
    inside ← is_container_execution_context
    pure (record {
      code = 1;
      output = none;
      delegated = if inside then some (error_object e) else none;
      own_message = is_bitheim_error e;
    })

  -- `main` with the handler of the command
  unfoldable pub main : M W Printed → M W Finished
  main handler =
      handle
        (handler >>= (λ p.
          pure (record { code = 0; output = some p; delegated = none; own_message = false })))
        failed
