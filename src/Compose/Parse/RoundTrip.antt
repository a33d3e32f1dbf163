-- ===== src/Compose/Parse/RoundTrip.antt =====
-- What the container prints with `to_dict`, the host reads back unchanged.
use bitheim.Prelude.{
  ℕ, zero, suc, String, List, [], ◌∷◌, true, Option, none, some, map, ◌≡◌, ◌≤◌, refl, ap, arith,
  nat_eq, length, All, le→leb,
}
use bitheim.Prelude.Text.{count, all_chars, class_run, is_lower_hex, is_hex}
use bitheim.Errors.{ok, rpc_malformed_response, on_value_error}
use bitheim.Value.{
  Value, Fields, obj, arr, end, field, find, of_list, items, optional, text_where, value_or_null,
  str,
}
use bitheim.Domain.Overview
use bitheim.Domain.Overview.{NodeOverview, lower_hex_64, short_printable, node_overview}
use bitheim.Domain.Block
use bitheim.Domain.Block.{BlockSummary}
use bitheim.Domain.Mempool
use bitheim.Domain.Mempool.{MempoolSummary}
use bitheim.Domain.Peer
use bitheim.Domain.Peer.{PeerSummary}
use bitheim.Peers.Order.{Ascending}
use bitheim.Peers.Laws.{Parsed, parse_all_ok}
use bitheim.Compose.Parse.{
  any_hex_64, parse_overview, parse_block_summary, parse_mempool_summary, parse_peer, parse_peers,
}

-- `{"peers": [p.to_dict() for p in peers]}`
abbrev pub peers_payload : List PeerSummary → Fields
peers_payload ps = field "peers" (arr (of_list (map (λ p. obj (Peer.to_dict p)) ps))) end

class_run-of_count :
    (n : ℕ) (s : String)
    → count s ≡ n
    → all_chars is_lower_hex s ≡ true
    → class_run is_hex n s ≡ true
class_run-of_count zero String.[] c h = refl
class_run-of_count (suc n) (String.◌∷◌ x s) c h = ground (arith, class_run-of_count n s)
class_run-of_count zero (String.◌∷◌ x s) c h = absurd (omega arith)
class_run-of_count (suc n) String.[] c h = absurd (omega arith)

-- A text that the snapshot's own check accepts is accepted by the adapter's regular expression.
pub lower_hex_64-any_hex_64 : (s : String) → lower_hex_64 s ≡ true → any_hex_64 s ≡ true
unfolding lower_hex_64 any_hex_64
lower_hex_64-any_hex_64 s h = class_run-of_count 64 s (ground arith) (ground arith)

-- What `BlockSummary.to_dict` makes of a valid block, the host reads back as that block.
pub parse_block_summary-to_dict :
    (b : BlockSummary) → Block.Laws.IsValid b → parse_block_summary (Block.to_dict b) ≡ ok b
unfolding parse_block_summary Block.to_dict find
parse_block_summary-to_dict b v =
    ap (λ r. on_value_error r rpc_malformed_response) (Block.Laws.block_summary-args b v)

-- What `MempoolSummary.to_dict` makes of a mempool summary, the host reads back as that summary.
pub parse_mempool_summary-to_dict :
    (m : MempoolSummary) → parse_mempool_summary (Mempool.to_dict m) ≡ ok m
unfolding parse_mempool_summary Mempool.to_dict find
parse_mempool_summary-to_dict m =
    ap (λ r. on_value_error r rpc_malformed_response) (Mempool.Laws.mempool_summary-args m)

parse_peer-to_dict :
    (p : PeerSummary) → Peer.Laws.IsValid p → parse_peer (obj (Peer.to_dict p)) ≡ ok p
unfolding parse_peer Peer.to_dict find
parse_peer-to_dict p v =
    ap (λ r. on_value_error r rpc_malformed_response) (Peer.Laws.peer_summary-args p v)

pub chainwork_read :
    (o : Option String)
    → Overview.Laws.OptionHash o
    → optional (text_where any_hex_64) (value_or_null str o) ≡ some o
chainwork_read none h = refl
chainwork_read (some s) h = rw (lower_hex_64-any_hex_64 s h)

-- What `NodeOverview.to_dict` makes of a valid overview, the host reads back as that overview.
pub parse_overview-to_dict :
    (o : NodeOverview) → Overview.Laws.IsValid o → parse_overview (Overview.to_dict o) ≡ ok o
unfolding parse_overview Overview.to_dict find
parse_overview-to_dict o v = ground (
  arith,
  Overview.Laws.node_overview-args o v,
  lower_hex_64-any_hex_64 o.best_block_hash v.best_block_hash,
  chainwork_read o.chainwork v.chainwork,
)

peer_value : PeerSummary → Value
peer_value p = obj (Peer.to_dict p)

peers_read :
    (ps : List PeerSummary)
    → All Peer.Laws.IsValid ps
    → Parsed parse_peer (items (of_list (map peer_value ps))) ps
unfolding peer_value
peers_read [] h = tt
peers_read (p ∷ ps) (v, h) = (parse_peer-to_dict p v, peers_read ps h)

peers_length : (ps : List PeerSummary) → length (items (of_list (map peer_value ps))) ≡ length ps
peers_length [] = refl
peers_length (p ∷ ps) = ap suc (peers_length ps)

-- The payload of at most 256 valid peers whose ids ascend strictly is read back as those peers, in the same order.
pub parse_peers-to_dict :
    (ps : List PeerSummary)
    → All Peer.Laws.IsValid ps
    → Ascending ps
    → length ps ≤ 256
    → parse_peers (peers_payload ps) ≡ ok ps
unfolding parse_peers find peer_value
parse_peers-to_dict ps v a h =
    rw (peers_length ps, le→leb (length ps) 256 h)
      (parse_all_ok parse_peer (items (of_list (map peer_value ps))) ps (peers_read ps v) a)
