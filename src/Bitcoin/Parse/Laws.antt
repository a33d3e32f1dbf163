-- ===== src/Bitcoin/Parse/Laws.antt =====
-- What the checks on the results of the RPC methods accept, and what they raise.
use bitheim.Prelude.{
  String, List, Option, some, ◌≡◌, ◌⊎◌, inl, inr, refl, arith, length, leb, All, ◌≤◌, leb→le,
}
use bitheim.Prelude.Int.{pos, int_eq}
use bitheim.Errors.{
  Exc, ok, err, value_error, rpc_malformed_response, rpc_incompatible_node, unicode_encode_error,
  or_raise, require, require_ok, >>=-eq-ok, >>=-eq-err, Result, on_value_error,
}
use bitheim.Value.{Value, Fields, int, str, get, find, as_arr, optional, text_where, value_or_null}
use bitheim.Domain.Overview
use bitheim.Domain.Peer
use bitheim.Domain.Peer.{PeerSummary, PeerArgs, peer_summary}
use bitheim.Peers.Order.{Ascending}
use bitheim.Peers.Laws.{parse_all-inv, parse_all-All, length-parse_all}
use bitheim.Bitcoin.Numbers.{DecimalOps}
use bitheim.Domain.Overview.{OverviewArgs, NodeOverview, node_overview}
use bitheim.Domain.Block
use bitheim.Domain.Block.{BlockSummary, hex_64, block_summary}
use bitheim.Bitcoin.Parse.{
  NetworkInfo, parse_network_info, parse_chain_info, parse_block, parse_peer, parse_peers,
  overview_args, peer_fields, ping_time, members,
}

-- what a handler for `ValueError` lets through
kept {ℓ} :
    {A : Type ℓ} (r : Result A) {a : A} → on_value_error r rpc_malformed_response ≡ ok a → r ≡ ok a
kept r h = ground arith

-- what a handler for `ValueError` raises
pub caught {ℓ} :
    {A : Type ℓ} (r : Result A) (e : Exc)
    → ((x : Exc) → r ≡ err x → x ≡ value_error)
    → on_value_error r rpc_malformed_response ≡ err e
    → e ≡ rpc_malformed_response
caught (ok a) e only h = cc
caught (err x) e only h = let x-eq = only x refl in ground arith

-- what the readings of the two replies for an overview raise
abbrev pub IsOverviewError : Exc → Type 0
IsOverviewError e =
    (e ≡ rpc_malformed_response) ⊎ (e ≡ rpc_incompatible_node) ⊎ (e ≡ unicode_encode_error)

overview_errors : (a : OverviewArgs) (e : Exc) → node_overview a ≡ err e → e ≡ value_error
unfolding node_overview
overview_errors a e h = ground arith

args_errors :
    (net : NetworkInfo) (v : Value) (e : Exc) → overview_args net v ≡ err e → IsOverviewError e
unfolding overview_args
args_errors net v e h = ground arith

-- An overview that the client builds is valid: in particular the node runs version 310100 on regtest.
pub parse_chain_info-IsValid :
    (net : NetworkInfo) (v : Value) (o : NodeOverview)
    → parse_chain_info net v ≡ ok o
    → Overview.Laws.IsValid o
unfolding parse_chain_info
parse_chain_info-IsValid net v o h =
    let (a, _, e) = >>=-eq-ok (overview_args net v) _ h in
    Overview.Laws.node_overview-IsValid a o (kept (node_overview a) e)

-- What the client raises for an overview is `RpcMalformedResponseError`, or `RpcIncompatibleNodeError` for a reply whose
-- chain is not regtest, or `UnicodeEncodeError` for a text with a lone surrogate.
pub parse_chain_info_errors :
    (net : NetworkInfo) (v : Value) (e : Exc) → parse_chain_info net v ≡ err e → IsOverviewError e
unfolding parse_chain_info
parse_chain_info_errors net v e h = elim (>>=-eq-err (overview_args net v) _ h) [
  | inl q ↦ args_errors net v e q
  | inr (a, _, q) ↦ inl (caught (node_overview a) e (overview_errors a) q)
]

-- The version gate: the network information that is accepted has version 310100.
pub parse_network_info-version :
    (v : Value) (net : NetworkInfo) → parse_network_info v ≡ ok net → net.version ≡ pos 310100
unfolding parse_network_info
parse_network_info-version v net h = ground (arith, int_eq.same_iff net.version (pos 310100))

pub parse_network_info_errors :
    (v : Value) (e : Exc) → parse_network_info v ≡ err e → IsOverviewError e
unfolding parse_network_info
parse_network_info_errors v e h = ground arith

-- A peer that the client builds is valid.
pub parse_peer-IsValid :
    (ops : DecimalOps) (v : Value) (p : PeerSummary) → parse_peer ops v ≡ ok p → Peer.Laws.IsValid p
unfolding parse_peer
parse_peer-IsValid ops v p h =
    let (a, _, h₁) = >>=-eq-ok (peer_fields v) _ h in
    let (ping, _, h₂) = >>=-eq-ok (ping_time ops (find "pingtime" (members v))) _ h₁ in
    Peer.Laws.peer_summary-IsValid (record a { ping_time_seconds = ping }) p
      (kept (peer_summary _) h₂)

-- what a hash that may be missing is read as
optional_hash :
    (v : Value) (o : Option String)
    → optional (text_where hex_64) v ≡ some o
    → Block.Laws.OptionHash o
optional_hash v o h = ground arith

-- An error of the client's block parser is `RpcMalformedResponseError`: the constructor of `BlockSummary`, which the
-- parser calls outside any `try`, never raises its `ValueError`.
pub parse_block_errors : (d : Fields) (e : Exc) → parse_block d ≡ err e → e ≡ rpc_malformed_response
unfolding parse_block block_summary
parse_block_errors d e h = ground arith

-- A block that the client builds is valid, has the hash, the height and the neighbours of the result it is built from, and
-- counts as many transactions as the list in the result has.
pub parse_block-IsValid :
    (d : Fields) (b : BlockSummary)
    → parse_block d ≡ ok b
    → Block.Laws.IsValid b
      × (get "hash" d ≡ str b.hash)
      × (get "height" d ≡ int (pos b.height))
      × (get "previousblockhash" d ≡ value_or_null str b.previous_block_hash)
      × (get "nextblockhash" d ≡ value_or_null str b.next_block_hash)
      × (txs : List Value) × (as_arr (get "tx" d) ≡ some txs)
      × (b.transaction_count ≡ length txs)
unfolding parse_block block_summary
parse_block-IsValid d b h = ground arith

-- The peers that the client builds are valid, and their ids ascend.
pub length-parse_peers :
    (ops : DecimalOps) (v : Value) (ps : List PeerSummary)
    → parse_peers ops v ≡ ok ps
    → length ps ≤ 256
unfolding parse_peers
length-parse_peers ops v ps h =
    let (vs, _, h₁) = >>=-eq-ok (or_raise (as_arr v) rpc_malformed_response) _ h in
    let (_, e, h₂) = >>=-eq-ok (require (leb (length vs) 256) rpc_malformed_response) _ h₁ in
    omega (
      arith,
      length-parse_all (parse_peer ops) vs ps h₂,
      leb→le (length vs) 256 (require_ok _ _ _ e),
    )

pub parse_peers-Ascending :
    (ops : DecimalOps) (v : Value) (ps : List PeerSummary)
    → parse_peers ops v ≡ ok ps
    → All Peer.Laws.IsValid ps × Ascending ps
unfolding parse_peers
parse_peers-Ascending ops v ps h =
    let (vs, _, h₁) = >>=-eq-ok (or_raise (as_arr v) rpc_malformed_response) _ h in
    let (_, _, h₂) = >>=-eq-ok (require (leb (length vs) 256) rpc_malformed_response) _ h₁ in
    let (_, _, _, up) = parse_all-inv (parse_peer ops) vs ps h₂ in
    (parse_all-All Peer.Laws.IsValid (parse_peer ops) vs ps (parse_peer-IsValid ops) h₂, up)
