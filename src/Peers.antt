-- ===== src/Peers.antt =====
-- The loop that both sides run over a list of peers, `get_peers` of infrastructure/bitcoin/rpc_client.py and
-- `_parse_peers` of infrastructure/compose/adapter.py: parse each, reject a repeated id, sort by id.
pub mod Laws
pub mod Order
use bitheim.Prelude.{ℕ, List, [], ◌∷◌, not, contains, nat_eq, leb, if◌then◌else◌}
use bitheim.Errors.{Result, ok, rpc_malformed_response, require, ◌>>=◌, ◌>>◌}
use bitheim.Value.{Value}
use bitheim.Domain.Peer.{PeerSummary}

-- `peers.sort(key=lambda p: p.peer_id)`: a stable sort
unfoldable pub insert : PeerSummary → List PeerSummary → List PeerSummary
insert p [] = p ∷ []
insert p (q ∷ qs) = if leb p.peer_id q.peer_id then p ∷ q ∷ qs else q ∷ insert p qs

unfoldable pub sort : List PeerSummary → List PeerSummary
unfolding insert
sort [] = []
sort (p ∷ ps) = insert p (sort ps)

module _ (parse : Value → Result PeerSummary) where
  -- the loop with the set `peer_ids` of the ids seen before
  unfoldable pub collect : List ℕ → List Value → Result (List PeerSummary)
  collect peer_ids [] = ok []
  collect peer_ids (v ∷ vs) = do
    peer ← parse v
    require (not (contains peer_ids peer.peer_id)) rpc_malformed_response
    rest ← collect (peer.peer_id ∷ peer_ids) vs
    ok (peer ∷ rest)

  unfoldable pub parse_all : List Value → Result (List PeerSummary)
  parse_all vs = do peers ← collect [] vs; ok (sort peers)
