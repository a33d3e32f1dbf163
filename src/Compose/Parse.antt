-- ===== src/Compose/Parse.antt =====
-- infrastructure/compose/adapter.py: the checks on the JSON that a delegated inspection prints.
pub mod RoundTrip
pub mod Escape
use bitheim.Prelude.{
  ℕ, String, Bool, List, Option, none, some, ◌&&◌, leb, ◌==◌, nat_eq, string_eq, length,
}
use bitheim.Prelude.Int.{int_eq, pos}
use bitheim.Prelude.Text.{class_run, is_hex}
use bitheim.Errors.{
  Result, ok, unicode_encode_error, rpc_malformed_response, rpc_incompatible_node, or_raise,
  require, on_value_error, ◌>>=◌, ◌>>◌,
}
use bitheim.Value.{
  Value, int, str, bool, Fields, get, is_encodable, nonneg, as_int, as_bool, as_text, as_obj,
  as_arr, text_where, optional, value_or_null,
}
use bitheim.Domain.Overview.{NodeOverview, short_printable, node_overview}
use bitheim.Domain.Block.{BlockSummary, block_summary}
use bitheim.Domain.Mempool.{MempoolSummary, mempool_summary}
use bitheim.Domain.Peer.{PeerSummary, peer_summary}
use bitheim.Peers.{parse_all}

-- `re.compile(r"^[0-9a-fA-F]{64}$").match(s)`
unfoldable pub any_hex_64 : String → Bool
any_hex_64 s = class_run is_hex 64 s

-- the second half of `inspect_node`
unfoldable pub parse_overview : Fields → Result NodeOverview
parse_overview d = do
  version ← or_raise (as_int (get "version" d)) rpc_malformed_response
  require (is_encodable (get "subversion" d)) unicode_encode_error
  subversion ← or_raise (text_where short_printable (get "subversion" d)) rpc_malformed_response
  network_active ← or_raise (as_bool (get "network_active" d)) rpc_malformed_response
  connections ← or_raise (nonneg (get "connections" d)) rpc_malformed_response
  chain ← or_raise (as_text (get "chain" d)) rpc_malformed_response
  blocks ← or_raise (nonneg (get "blocks" d)) rpc_malformed_response
  headers ← or_raise (nonneg (get "headers" d)) rpc_malformed_response
  hash ← or_raise (text_where any_hex_64 (get "best_block_hash" d)) rpc_malformed_response
  median_time ← or_raise (nonneg (get "median_time" d)) rpc_malformed_response
  download ← or_raise (as_bool (get "initial_block_download" d)) rpc_malformed_response
  pruned ← or_raise (as_bool (get "pruned" d)) rpc_malformed_response
  chainwork ← or_raise (optional (text_where any_hex_64) (get "chainwork" d)) rpc_malformed_response
  require (version == pos 310100 && chain == "regtest") rpc_incompatible_node
  node_overview (record {
    version = int version;
    subversion = str subversion;
    network_active = bool network_active;
    connections = int (pos connections);
    chain = str chain;
    blocks = int (pos blocks);
    headers = int (pos headers);
    best_block_hash = str hash;
    median_time = int (pos median_time);
    initial_block_download = bool download;
    pruned = bool pruned;
    chainwork = value_or_null str chainwork;
  })

-- `_parse_block_summary`
unfoldable pub parse_block_summary : Fields → Result BlockSummary
parse_block_summary d =
    on_value_error
      (block_summary (record {
        hash = get "hash" d;
        height = get "height" d;
        confirmations = get "confirmations" d;
        timestamp = get "timestamp" d;
        transaction_count = get "transaction_count" d;
        size = get "size" d;
        weight = get "weight" d;
        previous_block_hash = get "previous_block_hash" d;
        next_block_hash = get "next_block_hash" d;
      }))
      rpc_malformed_response

-- `_parse_mempool_summary`
unfoldable pub parse_mempool_summary : Fields → Result MempoolSummary
parse_mempool_summary d =
    on_value_error
      (mempool_summary (record {
        loaded = get "loaded" d;
        transaction_count = get "transaction_count" d;
        serialized_bytes = get "serialized_bytes" d;
        dynamic_memory_usage = get "dynamic_memory_usage" d;
        max_memory = get "max_memory" d;
        total_fees_satoshis = get "total_fees_satoshis" d;
      }))
      rpc_malformed_response

-- one round of the loop of `_parse_peers`
unfoldable pub parse_peer : Value → Result PeerSummary
parse_peer v = do
  p ← or_raise (as_obj v) rpc_malformed_response
  on_value_error
      (peer_summary (record {
        peer_id = get "peer_id" p;
        endpoint = get "endpoint" p;
        network = get "network" p;
        inbound = get "inbound" p;
        connection_type = get "connection_type" p;
        protocol_version = get "protocol_version" p;
        subversion = get "subversion" p;
        synced_headers = get "synced_headers" p;
        synced_blocks = get "synced_blocks" p;
        ping_time_seconds = get "ping_time_seconds" p;
      }))
      rpc_malformed_response

-- `_parse_peers`
unfoldable pub parse_peers : Fields → Result (List PeerSummary)
parse_peers d = do
  peers_list ← or_raise (as_arr (get "peers" d)) rpc_malformed_response
  require (leb (length peers_list) 256) rpc_malformed_response
  parse_all parse_peer peers_list
