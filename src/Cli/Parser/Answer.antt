-- ===== src/Cli/Parser/Answer.antt =====
-- What a container answers to a host: by the client or the probe there, and as the host reads it.
pub mod Printing
pub mod EndToEnd
pub mod OnHost
pub mod Ran
use bitheim.Prelude.{
  ℕ, String, Bool, true, Option, none, some, List, ◌++◌, ◌≢◌, ◌*◌, ◌≡◌, refl, sym,
}
use mathlib.Core.Path.{subst}
use bitheim.Prelude.Int.{ℤ, pos}
use bitheim.Value.{Value, str, obj, float, finite, second, null, int, Float}
use bitheim.Effect.{M, returns, pure, ◌>>=◌, >>=-eq-returns}
use bitheim.Domain.Overview.{NodeOverview}
use bitheim.Domain.Block
use bitheim.Domain.Block.{BlockSummary}
use bitheim.Domain.Mempool.{MempoolSummary}
use bitheim.Domain.Peer.{PeerSummary}
use bitheim.Service.Observation
use bitheim.Bitcoin.Client.{observation}
use bitheim.Bitcoin.Client.Results.{
  get_node_overview-IsValid, get_block-IsValid, get_peers-Ascending,
}
use bitheim.Configuration.{BitheimConfiguration}
use bitheim.Compose.Docker.{Completed, Loaded, Settings, argv}
use bitheim.Compose.Delegation.Snapshots.{
  Snapshot, overview_snapshot, block_snapshot, mempool_snapshot, peers_snapshot, IsSnapshot,
  payload,
}
use bitheim.Compose.Delegation.RoundTrip.{Printed, ReadBack, delegated_result-Snapshot}
use bitheim.Cli.{
  Host, Args, Finished, json, is_container_execution_context, configured, printed, failed, main,
  handle_inspect_node, handle_inspect_block, handle_inspect_mempool, handle_inspect_peers,
}
use bitheim.Cli
use bitheim.Cli.Argparse.{Parsed, parse_args}
use bitheim.Cli.Parser.{args_of, run_handler, main_parsed, build_parser}
use bitheim.Cli.Parser.Delegated.{
  Request, probe, node, mempool, peers, by_hash, by_height, handler_of, args_for, command_of,
  service_run, IsAccepted, ReadsHeight, argv-ReadsAs,
}
use bitheim.Cli.Exits.{succeeded, main_ok}
use bitheim.Cli.Doctor.{Machine}
use bitheim.Domain.Node.{Health, Status}
use bitheim.Bitcoin.Probe.{probe_rpc_http}
use bitheim.Bitcoin.Probe.Laws.{IsSound, probe_rpc_http-IsSound}
use bitheim.Prelude.{false}
use bitheim.Prelude.Text.{strip, is_empty}
use bitheim.Errors.{ok}
use bitheim.Compose.Docker.{completed}
use bitheim.Compose.Health.{probe_result}
use bitheim.Cli.{container_status, handle_status}
use bitheim.Cli.Output.{status_object}
use bitheim.Cli.Probed.{probe_result-status_object}

-- a snapshot, or the health that a probe finds
pub data Answer : Type 0 where
  inspected : Snapshot → Answer
  probed : Health → Answer

abbrev pub IsAnswer : Answer → Type 0
IsAnswer (inspected x) = IsSnapshot x
IsAnswer (probed h) = IsSound h

-- the value that a container prints for an answer
abbrev pub Prints : Answer → Value → Type 0
Prints (inspected x) v = v ≡ obj (payload x)
Prints (probed h) v = (s : Status) × (s.health ≡ h) × (v ≡ obj (status_object s))

module _ (show : Value → String) (loads : String → Loaded) where
  -- The host reads the answer from what the process has printed.
  abbrev pub IsRead : Completed → Answer → Type 0
  IsRead c (inspected x) = ReadBack loads c x
  IsRead c (probed h) = probe_result show loads (completed c) ≡ ok h

  pub Prints-IsRead :
      (a : Answer) (c : Completed) (v : Value)
      → IsAnswer a
      → Prints a v
      → Printed loads c v
      → is_empty (strip c.stdout) ≡ false
      → IsRead c a
  Prints-IsRead (inspected x) c v valid e p written =
      delegated_result-Snapshot loads x c valid (subst (Printed loads c) e p)
  Prints-IsRead (probed h) c v valid (s, same, e) p written =
      subst (λ h. probe_result show loads (completed c) ≡ ok h) same
        (probe_result-status_object show loads s c (subst IsSound (sym same) valid)
          (subst (Printed loads c) e p) written)

-- the deadline of an inspection that is given none
abbrev pub default_timeout : Value
default_timeout = float (finite (pos (10 * second)))

module _ {W : Type 0} (m : Machine W) where
  -- The client, or the probe, has answered the request.
  pub data Answered : Request → Answer → Type 0 where
    probe_answer :
        (h : Health) (u v : W)
        → probe_rpc_http m.host.probe true true u ≡ returns h v
        → Answered probe (probed h)
    node_answer :
        (o : NodeOverview) (u v : W)
        → Observation.inspect_node (observation m.host.client) default_timeout u ≡ returns o v
        → Answered node (inspected (overview_snapshot o))
    hash_answer :
        (h : String) (b : BlockSummary) (u v : W)
        → Observation.inspect_block (observation m.host.client) (str h) null default_timeout u
          ≡ returns b v
        → Answered (by_hash h) (inspected (block_snapshot b))
    height_answer :
        (n : ℕ) (b : BlockSummary) (u v : W)
        → Observation.inspect_block (observation m.host.client) null (int (pos n)) default_timeout u
          ≡ returns b v
        → Answered (by_height n) (inspected (block_snapshot b))
    mempool_answer :
        (s : MempoolSummary) (u v : W)
        → Observation.inspect_mempool (observation m.host.client) default_timeout u ≡ returns s v
        → Answered mempool (inspected (mempool_snapshot s))
    peers_answer :
        (ps : List PeerSummary) (u v : W)
        → Observation.inspect_peers (observation m.host.client) default_timeout u ≡ returns ps v
        → Answered peers (inspected (peers_snapshot ps))

  block_answer-IsValid :
      (hash height : Value) (u v : W) (b : BlockSummary)
      → Observation.inspect_block (observation m.host.client) hash height default_timeout u
        ≡ returns b v
      → Block.Laws.IsValid b
  unfolding Observation.inspect_block
  block_answer-IsValid hash height u v b e =
      let (_, _, _, e₁) = >>=-eq-returns _ _ e in
      let (_, _, _, e₂) = >>=-eq-returns _ _ e₁ in
      let (_, _, _, e₃) = >>=-eq-returns _ _ e₂ in
      let (_, w, _, e₄) = >>=-eq-returns _ _ e₃ in get_block-IsValid m.host.client _ _ _ w v b e₄

  pub Answered-IsAnswer : {r : Request} {a : Answer} → Answered r a → IsAnswer a
  unfolding Observation.inspect_node Observation.inspect_peers
  Answered-IsAnswer (probe_answer h u v e) = probe_rpc_http-IsSound m.host.probe true true u v h e
  Answered-IsAnswer (node_answer o u v e) =
      let (t, w, _, e₁) = >>=-eq-returns _ _ e in get_node_overview-IsValid m.host.client _ w v o e₁
  Answered-IsAnswer (hash_answer h b u v e) = block_answer-IsValid (str h) null u v b e
  Answered-IsAnswer (height_answer n b u v e) = block_answer-IsValid null (int (pos n)) u v b e
  Answered-IsAnswer (mempool_answer s u v e) = tt
  Answered-IsAnswer (peers_answer ps u v e) =
      let (t, w, _, e₁) = >>=-eq-returns _ _ e in get_peers-Ascending m.host.client _ w v ps e₁
