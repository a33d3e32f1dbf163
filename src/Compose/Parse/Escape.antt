-- ===== src/Compose/Parse/Escape.antt =====
-- Which exceptions the host's checks raise.
use bitheim.Prelude.{String, true, false, ◌≡◌, arith, refl}
use bitheim.Errors.{
  Result, ok, err, Exc, value_error, rpc_malformed_response, on_value_error, or_raise, require,
  or_raise_errors, require_errors, >>=-errors,
}
use bitheim.Value.{Value, Fields, find, get, as_obj, as_arr}
use bitheim.Domain.Overview
use bitheim.Domain.Overview.{NodeOverview, lower_hex_64, short_printable, node_overview}
use bitheim.Domain.Block.{BlockArgs, block_summary}
use bitheim.Compose.Parse.RoundTrip.{chainwork_read}
use bitheim.Domain.Mempool.{MempoolArgs, mempool_summary}
use bitheim.Domain.Peer.{peer_summary}
use bitheim.Peers.Laws.{parse_all_errors}
use bitheim.Bitcoin.Parse.Errors.{peer_errors}
use bitheim.Compose.Parse.{
  any_hex_64, parse_overview, parse_block_summary, parse_mempool_summary, parse_peer, parse_peers,
}

-- The output for a valid overview whose best block hash is replaced by a text that the adapter's regular expression
-- accepts and that is not 64 lower-case hexadecimal digits makes the host's reading raise `ValueError`.
pub parse_overview_escape :
    (o : NodeOverview) (h : String)
    → Overview.Laws.IsValid o
    → any_hex_64 h ≡ true
    → lower_hex_64 h ≡ false
    → parse_overview (Overview.to_dict (record o { best_block_hash = h })) ≡ err value_error
unfolding parse_overview node_overview Overview.to_dict find
parse_overview_escape o h v any low = ground (arith, chainwork_read o.chainwork v.chainwork)

-- a handler for `ValueError` around code that raises nothing else
pub caught {ℓ} :
    {A : Type ℓ} (r : Result A) (e : Exc)
    → ((x : Exc) → r ≡ err x → x ≡ value_error)
    → on_value_error r rpc_malformed_response ≡ err e
    → e ≡ rpc_malformed_response
caught (ok a) e only h = cc
caught (err x) e only h = let x-eq = only x refl in ground arith

only_value_error : (a : BlockArgs) (e : Exc) → block_summary a ≡ err e → e ≡ value_error
unfolding block_summary
only_value_error a e h = ground arith

pub parse_block_summary_errors :
    (d : Fields) (e : Exc) → parse_block_summary d ≡ err e → e ≡ rpc_malformed_response
unfolding parse_block_summary
parse_block_summary_errors d e h = caught (block_summary _) e (only_value_error _) h

mempool_only_value_error : (a : MempoolArgs) (e : Exc) → mempool_summary a ≡ err e → e ≡ value_error
unfolding mempool_summary
mempool_only_value_error a e h = ground arith

pub parse_mempool_summary_errors :
    (d : Fields) (e : Exc) → parse_mempool_summary d ≡ err e → e ≡ rpc_malformed_response
unfolding parse_mempool_summary
parse_mempool_summary_errors d e h = caught (mempool_summary _) e (mempool_only_value_error _) h

parse_peer_errors : (v : Value) (e : Exc) → parse_peer v ≡ err e → e ≡ rpc_malformed_response
unfolding parse_peer
parse_peer_errors v =
    >>=-errors (λ e. e ≡ rpc_malformed_response) (or_raise (as_obj v) _) _ (or_raise_errors _ _)
      (λ p e. caught (peer_summary _) e (peer_errors _))

pub parse_peers_errors : (d : Fields) (e : Exc) → parse_peers d ≡ err e → e ≡ rpc_malformed_response
unfolding parse_peers
parse_peers_errors d =
    >>=-errors (λ e. e ≡ rpc_malformed_response) (or_raise (as_arr (get "peers" d)) _) _
      (or_raise_errors _ _)
      (λ vs.
        >>=-errors (λ e. e ≡ rpc_malformed_response) (require _ _) _ (require_errors _ _)
          (λ _. parse_all_errors parse_peer parse_peer_errors vs))
