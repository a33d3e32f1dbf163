-- ===== src/Cli/Parser/Answer/OnHost.antt =====
-- What an inspection returns on a host whose Docker runs this program in the container.
use bitheim.Prelude.{ℕ, String, true, Option, none, some, List, ◌≡◌}
use bitheim.Prelude.Int.{ℤ, pos, int_eq}
use bitheim.Value.{Value, Float, null, str, int, text_where, nonneg}
use bitheim.Effect.{returns}
use bitheim.Effect.Results.{Returns, Returns-at, Returns-bind, Returns-bind_with, Returns-lift}
use bitheim.Domain.Overview.{NodeOverview}
use bitheim.Domain.Block.{BlockSummary, hex_64}
use bitheim.Domain.Mempool.{MempoolSummary}
use bitheim.Domain.Peer.{PeerSummary}
use bitheim.Compose.Docker.{Docker, Settings}
use bitheim.Compose.Delegation.Snapshots.{
  Snapshot, overview_snapshot, block_snapshot, mempool_snapshot, peers_snapshot,
}
use bitheim.Compose.Inspect.{inspect_node, inspect_block, inspect_mempool, inspect_peers}
use bitheim.Cli.{is_container_execution_context}
use bitheim.Cli.Doctor.{Machine}
use bitheim.Cli.Parser.Delegated.{
  Request, probe, node, mempool, peers, by_hash, by_height, ReadsHeight,
}
use bitheim.Cli.Parser.Answer.{inspected, Answered}
use bitheim.Compose.Inspect.Ended.{delegate-IsOutput}
use bitheim.Cli.Parser.Answer.Ran.{
  Runs, no_value, valid_hash, valid_height, block-IsOutput, node_parsed, hash_parsed, height_parsed,
  mempool_parsed, peers_parsed, from_output,
}

module _ {V W : Type 0} (d : Docker V) (s : Settings) (m : Machine W)
    (float_of_text : String → Option Float) (int_of_text : String → Option ℤ) where
  module _
      (inside : (w : W)
        → (w' : W) × (is_container_execution_context m.host w ≡ returns true w')) where
    -- An inspection on the host has returned a snapshot for the request.
    pub data Returned (id : String) (t : Value) (u u' : V) : Request → Snapshot → Type 0 where
      node_returned :
          (o : NodeOverview)
          → inspect_node d s id t u ≡ returns o u'
          → Returned id t u u' node (overview_snapshot o)
      hash_returned :
          (h : String) (b : BlockSummary)
          → inspect_block d s id (str h) null t u ≡ returns b u'
          → Returned id t u u' (by_hash h) (block_snapshot b)
      height_returned :
          (n : ℕ) (b : BlockSummary)
          → inspect_block d s id null (int (pos n)) t u ≡ returns b u'
          → Returned id t u u' (by_height n) (block_snapshot b)
      mempool_returned :
          (x : MempoolSummary)
          → inspect_mempool d s id t u ≡ returns x u'
          → Returned id t u u' mempool (mempool_snapshot x)
      peers_returned :
          (ps : List PeerSummary)
          → inspect_peers d s id t u ≡ returns ps u'
          → Returned id t u u' peers (peers_snapshot ps)

    node-Answered :
        (id : String) (t : Value)
        → Runs d s m float_of_text int_of_text id node
        → Returns (λ o. Answered m node (inspected (overview_snapshot o))) (inspect_node d s id t)
    unfolding inspect_node
    node-Answered id t runs = Returns-bind _ _ (λ limit.
        Returns-bind_with _ _ (delegate-IsOutput d s _ _ _ _ _) (λ fields out.
          Returns-lift _ (λ o e.
            from_output d s m float_of_text int_of_text inside id node fields (overview_snapshot o)
              runs tt tt (cc) out (λ x. node_parsed d s m float_of_text int_of_text fields o x e))))

    mempool-Answered :
        (id : String) (t : Value)
        → Runs d s m float_of_text int_of_text id mempool
        → Returns
            (λ y. Answered m mempool (inspected (mempool_snapshot y)))
            (inspect_mempool d s id t)
    unfolding inspect_mempool
    mempool-Answered id t runs = Returns-bind _ _ (λ limit.
        Returns-bind_with _ _ (delegate-IsOutput d s _ _ _ _ _) (λ fields out.
          Returns-lift _ (λ y e.
            from_output d s m float_of_text int_of_text inside id mempool fields
              (mempool_snapshot y) runs tt tt (cc) out
              (λ x. mempool_parsed d s m float_of_text int_of_text fields y x e))))

    peers-Answered :
        (id : String) (t : Value)
        → Runs d s m float_of_text int_of_text id peers
        → Returns (λ ps. Answered m peers (inspected (peers_snapshot ps))) (inspect_peers d s id t)
    unfolding inspect_peers
    peers-Answered id t runs = Returns-bind _ _ (λ limit.
        Returns-bind_with _ _ (delegate-IsOutput d s _ _ _ _ _) (λ fields out.
          Returns-lift _ (λ ps e.
            from_output d s m float_of_text int_of_text inside id peers fields (peers_snapshot ps)
              runs tt tt (cc) out
              (λ x. peers_parsed d s m float_of_text int_of_text fields ps x e))))

    hash-Answered :
        (id text : String) (t : Value)
        → Runs d s m float_of_text int_of_text id (by_hash text)
        → Returns
            (λ b. Answered m (by_hash text) (inspected (block_snapshot b)))
            (inspect_block d s id (str text) null t)
    unfolding inspect_block
    hash-Answered id text t runs = Returns-bind _ _ (λ limit. Returns-bind _ _ (λ _.
        Returns-bind_with _ _ (Returns-lift _ (λ v e. valid_hash text v e)) (λ v (v_eq, hex).
          Returns-bind_with _ _ (Returns-lift _ (λ w e. no_value nonneg w e)) (λ w w_eq.
            Returns-bind_with _ _ (delegate-IsOutput d s _ _ _ _ _) (λ fields out.
              Returns-lift _ (λ b e.
                from_output d s m float_of_text int_of_text inside id (by_hash text) fields
                  (block_snapshot b) runs tt hex (cc)
                  (block-IsOutput d s m float_of_text int_of_text id v (some text) w none fields
                    v_eq w_eq out)
                  (λ x. hash_parsed d s m float_of_text int_of_text text fields b x e)))))))

    height-Answered :
        (id : String) (n : ℕ) (t : Value)
        → Runs d s m float_of_text int_of_text id (by_height n)
        → ReadsHeight float_of_text int_of_text (by_height n)
        → Returns
            (λ b. Answered m (by_height n) (inspected (block_snapshot b)))
            (inspect_block d s id null (int (pos n)) t)
    unfolding inspect_block
    height-Answered id n t runs height = Returns-bind _ _ (λ limit. Returns-bind _ _ (λ _.
        Returns-bind_with _ _ (Returns-lift _ (λ v e. no_value (text_where hex_64) v e)) (λ v v_eq.
          Returns-bind_with _ _ (Returns-lift _ (λ w e. valid_height n w e)) (λ w w_eq.
            Returns-bind_with _ _ (delegate-IsOutput d s _ _ _ _ _) (λ fields out.
              Returns-lift _ (λ b e.
                from_output d s m float_of_text int_of_text inside id (by_height n) fields
                  (block_snapshot b) runs height tt (cc)
                  (block-IsOutput d s m float_of_text int_of_text id v none w (some n) fields v_eq
                    w_eq out)
                  (λ x. height_parsed d s m float_of_text int_of_text n fields b x e)))))))

    -- If every process that Docker runs for the request and that ends with the code 0 is a run of this program in a
    -- container, which exits with 0, the host finds the value that it has printed in its output, at most 65536 bytes, and
    -- `int` reads back a height, then a snapshot that the inspection on the host returns is the one that the client in
    -- the container has answered to this very request.
    pub inspection-Answered :
        (id : String) (t : Value) (u u' : V) (r : Request) (x : Snapshot)
        → Runs d s m float_of_text int_of_text id r
        → ReadsHeight float_of_text int_of_text r
        → Returned id t u u' r x
        → Answered m r (inspected x)
    inspection-Answered id t u u' probe x runs height returned = elim returned [ ]
    inspection-Answered id t u u' node x runs height (node_returned o e) =
        Returns-at (node-Answered id t runs) u u' o e
    inspection-Answered id t u u' (by_hash text) x runs height (hash_returned _ b e) =
        Returns-at (hash-Answered id text t runs) u u' b e
    inspection-Answered id t u u' (by_height n) x runs height (height_returned _ b e) =
        Returns-at (height-Answered id n t runs height) u u' b e
    inspection-Answered id t u u' mempool x runs height (mempool_returned y e) =
        Returns-at (mempool-Answered id t runs) u u' y e
    inspection-Answered id t u u' peers x runs height (peers_returned ps e) =
        Returns-at (peers-Answered id t runs) u u' ps e
