-- ===== src/Cli/Parser/Answer/Ran.antt =====
-- What a host reads when its Docker runs this program in the container.
use bitheim.Prelude.{
  ℕ, String, true, false, Option, none, some, List, ◌++◌, ◌≡◌, ◌≢◌, refl, ap, sym, arith,
  Bool-cases, inl, inr,
}
use mathlib.Core.Path.{subst}
use bitheim.Prelude.Int.{ℤ, pos, int_eq}
use bitheim.Prelude.Text.{strip, is_empty}
use bitheim.Errors.{rpc_error, ok, ok-injective, ◌>>=◌ as bind, or_raise}
use bitheim.Value.{Value, Float, Fields, null, str, int, text_where, optional, nonneg}
use bitheim.Effect.{returns}
use bitheim.Domain.Node.{Health}
use bitheim.Domain.Overview.{NodeOverview}
use bitheim.Domain.Block.{BlockSummary, hex_64}
use bitheim.Domain.Mempool.{MempoolSummary}
use bitheim.Domain.Peer.{PeerSummary}
use bitheim.Compose.Docker.{Docker, Settings, run_inspect, Completed, argv}
use bitheim.Compose.Parse.{parse_overview, parse_block_summary, parse_mempool_summary, parse_peers}
use bitheim.Compose.Delegation.{delegated_result}
use bitheim.Compose.Delegation.Snapshots.{
  Snapshot, overview_snapshot, block_snapshot, mempool_snapshot, peers_snapshot,
}
use bitheim.Compose.Delegation.RoundTrip.{Printed, parse_like}
use bitheim.Compose.Inspect.{block_args}
use bitheim.Cli.{Finished, json, is_container_execution_context}
use bitheim.Cli.Argparse.{Parsed, parse_args}
use bitheim.Cli.Doctor.{Machine}
use bitheim.Cli.Parser.{main_parsed, build_parser}
use bitheim.Cli.Parser.Delegated.{
  Request, probe, node, mempool, peers, by_hash, by_height, command_of, service_run, IsAccepted,
  ReadsHeight,
}
use bitheim.Cli.Parser.Answer.{
  Answer, inspected, probed, Answered, probe_answer, node_answer, hash_answer, height_answer,
  mempool_answer, peers_answer, IsRead,
}
use bitheim.Cli.Parser.Answer.EndToEnd.{delegation-Answered}
use bitheim.Compose.Inspect.Ended.{Ended, IsOutput, ended_well, same_snapshot}

pub no_value :
    {A : Type 0} (test : Value → Option A) (v : Option A)
    → or_raise (optional test null) rpc_error ≡ ok v
    → v ≡ none
no_value test v e = sym (ok-injective e)

pub valid_hash :
    (h : String) (v : Option String)
    → or_raise (optional (text_where hex_64) (str h)) rpc_error ≡ ok v
    → (v ≡ some h) × (hex_64 h ≡ true)
valid_hash h v e = elim (Bool-cases (hex_64 h)) [
  | inl hex ↦ (ground (arith, hex), hex)
  | inr bad ↦ absurd (ground (arith, bad))
]

pub valid_height :
    (n : ℕ) (v : Option ℕ) → or_raise (optional nonneg (int (pos n))) rpc_error ≡ ok v → v ≡ some n
valid_height n v e = sym (ok-injective e)

module _ {V W : Type 0} (d : Docker V) (s : Settings) (m : Machine W)
    (float_of_text : String → Option Float) (int_of_text : String → Option ℤ) where
  pub block-IsOutput :
      (id : String) (v v' : Option String) (w w' : Option ℕ) (fields : Fields)
      → v ≡ v'
      → w ≡ w'
      → IsOutput d s (run_inspect id "block" (block_args v w)) fields
      → IsOutput d s (run_inspect id "block" (block_args v' w')) fields
  block-IsOutput id v v' w w' fields e e' out =
      subst (λ w. IsOutput d s (run_inspect id "block" (block_args v' w)) fields) e'
        (subst (λ v. IsOutput d s (run_inspect id "block" (block_args v w)) fields) e out)

  -- The process was a run of the program in a container, which has exited with the code 0 and printed its output.
  pub record Ran (id : String) (r : Request) (c : Completed) : Type 0 where
    pub args : List String
    pub parsed : Parsed
    pub before : W
    pub after : W
    pub finished : Finished
    pub command : argv s (command_of id r) ≡ service_run s id ++ args
    pub read : parse_args float_of_text int_of_text build_parser args ≡ some parsed
    pub run : main_parsed m parsed before ≡ returns finished after
    pub code : finished.code ≡ 0
    pub printed : (v : Value) → finished.output ≡ some (json v) → Printed d.loads c v
    pub written : is_empty (strip c.stdout) ≡ false

  -- Whatever the Docker command for the request gives with the code 0 is what such a run has given.
  abbrev pub Runs : String → Request → Type 0
  Runs id r = (c : Completed) → Ended d s (command_of id r) c → c.returncode ≡ pos 0 → Ran id r c

  pub node_parsed :
      (fields : Fields) (o : NodeOverview) (x : Snapshot)
      → parse_overview fields ≡ ok o
      → Answered m node (inspected x)
      → parse_like x fields ≡ ok (overview_snapshot o)
  node_parsed fields o x e (node_answer _ _ _ _) =
      ap (λ r. bind r (λ o. ok (overview_snapshot o))) e

  pub hash_parsed :
      (text : String) (fields : Fields) (b : BlockSummary) (x : Snapshot)
      → parse_block_summary fields ≡ ok b
      → Answered m (by_hash text) (inspected x)
      → parse_like x fields ≡ ok (block_snapshot b)
  hash_parsed text fields b x e (hash_answer _ _ _ _ _) =
      ap (λ r. bind r (λ b. ok (block_snapshot b))) e

  pub height_parsed :
      (n : ℕ) (fields : Fields) (b : BlockSummary) (x : Snapshot)
      → parse_block_summary fields ≡ ok b
      → Answered m (by_height n) (inspected x)
      → parse_like x fields ≡ ok (block_snapshot b)
  height_parsed n fields b x e (height_answer _ _ _ _ _) =
      ap (λ r. bind r (λ b. ok (block_snapshot b))) e

  pub mempool_parsed :
      (fields : Fields) (y : MempoolSummary) (x : Snapshot)
      → parse_mempool_summary fields ≡ ok y
      → Answered m mempool (inspected x)
      → parse_like x fields ≡ ok (mempool_snapshot y)
  mempool_parsed fields y x e (mempool_answer _ _ _ _) =
      ap (λ r. bind r (λ y. ok (mempool_snapshot y))) e

  pub peers_parsed :
      (fields : Fields) (ps : List PeerSummary) (x : Snapshot)
      → parse_peers fields ≡ ok ps
      → Answered m peers (inspected x)
      → parse_like x fields ≡ ok (peers_snapshot ps)
  peers_parsed fields ps x e (peers_answer _ _ _ _) =
      ap (λ r. bind r (λ ps. ok (peers_snapshot ps))) e

  probe_only : {r : Request} {h : Health} → Answered m r (probed h) → r ≡ probe
  probe_only (probe_answer _ _ _ _) = refl

  -- an answer that the host reads as a snapshot is this snapshot
  read_answer :
      (r : Request) (a : Answer) (c : Completed) (fields : Fields) (y : Snapshot)
      → r ≢ probe
      → Answered m r a
      → IsRead d.show d.loads c a
      → delegated_result d.loads c ≡ ok fields
      → ((x : Snapshot) → Answered m r (inspected x) → parse_like x fields ≡ ok y)
      → Answered m r (inspected y)
  read_answer r (inspected x) c fields y n answered read e parsed =
      subst (λ x. Answered m r (inspected x))
        (same_snapshot d.loads c fields x y e read (parsed x answered)) answered
  read_answer r (probed h) c fields y n answered read e parsed = absurd (n (probe_only answered))

  module _
      (inside : (w : W)
        → (w' : W) × (is_container_execution_context m.host w ≡ returns true w')) where
    pub from_output :
        (id : String) (r : Request) (fields : Fields) (y : Snapshot)
        → Runs id r
        → ReadsHeight float_of_text int_of_text r
        → IsAccepted r
        → r ≢ probe
        → IsOutput d s (command_of id r) fields
        → ((x : Snapshot) → Answered m r (inspected x) → parse_like x fields ≡ ok y)
        → Answered m r (inspected y)
    from_output id r fields y runs height accepted n (c, ended, e) parsed =
        let ran = runs c ended (ended_well d.loads c fields e) in
        let (a, answered, read) =
          delegation-Answered m inside float_of_text int_of_text d.show d.loads s id r ran.args
            ran.parsed ran.before ran.after ran.finished c height accepted ran.command ran.read
            ran.run ran.code ran.printed ran.written in
        read_answer r a c fields y n answered read e parsed
