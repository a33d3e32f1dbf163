-- ===== src/Service/Observation.antt =====
-- application/service.py: `NodeObservationService`, over any adapter that has the operations of `NodeObservationPort`.
pub mod Requests
use bitheim.Prelude.{String, Bool, Option, ℕ, List, not, if◌then◌else◌}
use bitheim.Prelude.Int.{pos}
use bitheim.Errors.{rpc_error, or_raise, require}
use bitheim.Value.{Value, float, finite, nonneg, text_where, optional, is_null}
use bitheim.Effect.{M, lift, ◌>>=◌, ◌>>◌}
use bitheim.Domain.Overview.{NodeOverview}
use bitheim.Domain.Block.{BlockSummary, hex_64}
use bitheim.Domain.Mempool.{MempoolSummary}
use bitheim.Domain.Peer.{PeerSummary}
use bitheim.Service.Guards.{command_deadline}

-- application/ports.py: timeouts are unchecked values. A height that is absent is null.
pub record NodeObservationPort (W : Type 0) : Type 0 where
  pub get_node_overview : Value → M W NodeOverview
  pub get_block : Option String → Value → Value → M W BlockSummary
  pub get_mempool : Value → M W MempoolSummary
  pub get_peers : Value → M W (List PeerSummary)

-- exactly one of the two
abbrev pub either_one : Bool → Bool → Bool
either_one a b = if a then not b else b

module _ {W : Type 0} (port : NodeObservationPort W) where
  unfoldable pub inspect_node : Value → M W NodeOverview
  inspect_node timeout = do
    valid_timeout ← lift (command_deadline timeout)
    port.get_node_overview (float (finite (pos valid_timeout)))

  unfoldable pub inspect_block : Value → Value → Value → M W BlockSummary
  inspect_block block_hash height timeout = do
    float_timeout ← lift (command_deadline timeout)
    lift (require (either_one (is_null block_hash) (is_null height)) rpc_error)
    hash ← lift (or_raise (optional (text_where hex_64) block_hash) rpc_error)
    valid_height ← lift (or_raise (optional nonneg height) rpc_error)
    port.get_block hash height timeout

  unfoldable pub inspect_mempool : Value → M W MempoolSummary
  inspect_mempool timeout = do
    float_timeout ← lift (command_deadline timeout)
    port.get_mempool timeout

  unfoldable pub inspect_peers : Value → M W (List PeerSummary)
  inspect_peers timeout = do float_timeout ← lift (command_deadline timeout); port.get_peers timeout
