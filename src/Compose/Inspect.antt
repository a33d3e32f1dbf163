-- ===== src/Compose/Inspect.antt =====
-- infrastructure/compose/adapter.py: the four inspections.
pub mod Ended
use bitheim.Prelude.{
  ℕ, ◌+◌, String, Option, none, some, List, [], ◌∷◌, Bool, true, not, if◌then◌else◌,
}
use bitheim.Prelude.Lines.{show_nat}
use bitheim.Errors.{
  value_error, rpc_error, rpc_timeout, rpc_unavailable, is_runtime_unavailable, or_raise, require,
}
use bitheim.Value.{Value, Fields, nonneg, text_where, optional, is_null, is_overlong}
use bitheim.Effect.{M, raise, lift, handle, ◌>>=◌, ◌>>◌}
use bitheim.Effect.Clock.{now}
use bitheim.Domain.Node.{stopped, same_state}
use bitheim.Domain.Overview.{NodeOverview}
use bitheim.Domain.Block.{BlockSummary, hex_64}
use bitheim.Domain.Mempool.{MempoolSummary}
use bitheim.Domain.Peer.{PeerSummary}
use bitheim.Service.Guards.{command_deadline}
use bitheim.Service.Observation.{either_one}
use bitheim.Compose.Docker.{Settings, Docker, run_inspect, budget, build_env, run}
use bitheim.Compose.Runtime.{check_docker_runtime_available}
use bitheim.Compose.Containers.{get_lifecycle_state_deadline}
use bitheim.Compose.Delegation.{delegated_result}
use bitheim.Compose.Parse.{parse_overview, parse_block_summary, parse_mempool_summary, parse_peers}

-- the arguments that name a block
abbrev pub block_args : Option String → Option ℕ → List String
block_args (some block_hash) height = "--hash" ∷ block_hash ∷ []
block_args none (some height) = "--height" ∷ show_nat height ∷ []
block_args none none = []

module _ {W : Type 0} (d : Docker W) (s : Settings) where
  -- `_run_delegated_inspection`
  unfoldable pub run_delegated_inspection : String → ℕ → String → List String → M W Fields
  run_delegated_inspection node_id deadline inspection_type extra_args = do
    r ← budget d deadline rpc_timeout
    env ← build_env d s node_id
    res ←
        run d s (run_inspect node_id inspection_type extra_args) (some env) r rpc_timeout rpc_error
    lift (delegated_result d.loads res)

  -- the check of the runtime in a `try` that turns `RuntimeUnavailableError` into `RpcUnavailableError`
  unfoldable pub require_runtime : ℕ → M W (Unit {0})
  require_runtime deadline =
      handle (check_docker_runtime_available d s deadline)
        (λ e. raise (if is_runtime_unavailable e then rpc_unavailable else e))

  -- what every inspection does after the checks of its arguments; `printable` says
  -- whether `str` accepts the height that is among the arguments
  unfoldable pub delegate : String → ℕ → String → Bool → List String → M W Fields
  delegate node_id float_timeout inspection_type printable extra_args = do
    t ← now d.clock
    require_runtime (t + float_timeout)
    state ← get_lifecycle_state_deadline d s node_id (t + float_timeout)
    lift (require (not (same_state state stopped)) rpc_unavailable)
    lift (require printable value_error)
    run_delegated_inspection node_id (t + float_timeout) inspection_type extra_args

  unfoldable pub inspect_node : String → Value → M W NodeOverview
  inspect_node node_id timeout = do
    float_timeout ← lift (command_deadline timeout)
    fields ← delegate node_id float_timeout "node" true []
    lift (parse_overview fields)

  unfoldable pub inspect_block : String → Value → Value → Value → M W BlockSummary
  inspect_block node_id block_hash height timeout = do
    float_timeout ← lift (command_deadline timeout)
    lift (require (either_one (is_null block_hash) (is_null height)) rpc_error)
    valid_hash ← lift (or_raise (optional (text_where hex_64) block_hash) rpc_error)
    valid_height ← lift (or_raise (optional nonneg height) rpc_error)
    fields ←
        delegate node_id float_timeout "block" (not (is_overlong height))
          (block_args valid_hash valid_height)
    lift (parse_block_summary fields)

  unfoldable pub inspect_mempool : String → Value → M W MempoolSummary
  inspect_mempool node_id timeout = do
    float_timeout ← lift (command_deadline timeout)
    fields ← delegate node_id float_timeout "mempool" true []
    lift (parse_mempool_summary fields)

  unfoldable pub inspect_peers : String → Value → M W (List PeerSummary)
  inspect_peers node_id timeout = do
    float_timeout ← lift (command_deadline timeout)
    fields ← delegate node_id float_timeout "peers" true []
    lift (parse_peers fields)
