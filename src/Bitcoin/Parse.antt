-- ===== src/Bitcoin/Parse.antt =====
-- infrastructure/bitcoin/rpc_client.py: the checks on the results of the RPC methods.
pub mod Laws
pub mod Errors
use bitheim.Prelude.{
  ℕ, String, Bool, List, Option, none, some, ◌&&◌, not, ◌≡◌, leb, ◌==◌, nat_eq, string_eq, length,
  if◌then◌else◌, all, is_some,
}
use bitheim.Prelude.Int.{ℤ, int_eq, pos, negsuc}
use bitheim.Prelude.Text.{utf8_len}
use bitheim.Errors.{
  Exc, value_error, decimal_exception, Result, ok, err, rpc_malformed_response,
  unicode_encode_error, rpc_incompatible_node, or_raise, require, on_value_error, ◌>>=◌, ◌>>◌,
}
use bitheim.Value.{
  Value, null, obj, end, int, str, bool, float, Float, Decimal, decimal, Fields, get, is_encodable,
  find, nonneg, as_int, as_bool, as_text, as_obj, as_arr, text_where, optional, value_or_null,
  Items, nil, cons, items,
}
use bitheim.Domain.Overview.{NodeOverview, OverviewArgs, short_printable, node_overview}
use bitheim.Domain.Block.{BlockSummary, block_summary, hex_64}
use bitheim.Domain.Mempool.{MempoolSummary, MempoolArgs, mempool_summary}
use bitheim.Domain.Peer.{PeerSummary, PeerArgs, peer_summary, count_value}
use bitheim.Bitcoin.Numbers.{DecimalOps, is_finite, is_negative}
use bitheim.Peers.{parse_all}

pub record NetworkInfo : Type 0 where
  pub version : ℤ
  pub subversion : String
  pub network_active : Bool
  pub connections : ℕ

-- the fields of `getnetworkinfo`, in `get_node_overview`
unfoldable pub parse_network_info : Value → Result NetworkInfo
parse_network_info v = do
  net_info ← or_raise (as_obj v) rpc_malformed_response
  version ← or_raise (as_int (get "version" net_info)) rpc_malformed_response
  require (is_encodable (get "subversion" net_info)) unicode_encode_error
  subversion ←
      or_raise (text_where short_printable (get "subversion" net_info)) rpc_malformed_response
  network_active ← or_raise (as_bool (get "networkactive" net_info)) rpc_malformed_response
  connections ← or_raise (nonneg (get "connections" net_info)) rpc_malformed_response
  require (version == pos 310100) rpc_incompatible_node
  ok (record {
    version = version;
    subversion = subversion;
    network_active = network_active;
    connections = connections;
  })

-- `len(s.encode("utf-8")) <= 512`
abbrev pub is_bounded : String → Bool
is_bounded s = leb (utf8_len s) 512

-- the fields of `getblockchaininfo` and the arguments of the snapshot, in `get_node_overview`
unfoldable pub overview_args : NetworkInfo → Value → Result OverviewArgs
overview_args net v = do
  chain_info ← or_raise (as_obj v) rpc_malformed_response
  require (is_encodable (get "chain" chain_info)) unicode_encode_error
  chain ← or_raise (text_where is_bounded (get "chain" chain_info)) rpc_malformed_response
  blocks ← or_raise (nonneg (get "blocks" chain_info)) rpc_malformed_response
  headers ← or_raise (nonneg (get "headers" chain_info)) rpc_malformed_response
  best_block_hash ←
      or_raise (text_where hex_64 (get "bestblockhash" chain_info)) rpc_malformed_response
  median_time ← or_raise (nonneg (get "mediantime" chain_info)) rpc_malformed_response
  download ← or_raise (as_bool (get "initialblockdownload" chain_info)) rpc_malformed_response
  pruned ← or_raise (as_bool (get "pruned" chain_info)) rpc_malformed_response
  chainwork ←
      or_raise (optional (text_where hex_64) (get "chainwork" chain_info)) rpc_malformed_response
  require (chain == "regtest") rpc_incompatible_node
  ok (record {
    version = int net.version;
    subversion = str net.subversion;
    network_active = bool net.network_active;
    connections = int (pos net.connections);
    chain = str chain;
    blocks = int (pos blocks);
    headers = int (pos headers);
    best_block_hash = str best_block_hash;
    median_time = int (pos median_time);
    initial_block_download = bool download;
    pruned = bool pruned;
    chainwork = value_or_null str chainwork;
  })

-- `get_node_overview` from the second reply on
unfoldable pub parse_chain_info : NetworkInfo → Value → Result NodeOverview
parse_chain_info net v = do
  overview ← overview_args net v
  on_value_error (node_overview overview) rpc_malformed_response

abbrev is_hash : Value → Bool
is_hash v = is_some (text_where hex_64 v)

-- `BitcoinRpcClient._parse_block_summary`
unfoldable pub parse_block : Fields → Result BlockSummary
parse_block d = do
  hash ← or_raise (text_where hex_64 (get "hash" d)) rpc_malformed_response
  height ← or_raise (nonneg (get "height" d)) rpc_malformed_response
  confirmations ← or_raise (nonneg (get "confirmations" d)) rpc_malformed_response
  timestamp ← or_raise (nonneg (get "time" d)) rpc_malformed_response
  tx ← or_raise (as_arr (get "tx" d)) rpc_malformed_response
  require (all is_hash tx) rpc_malformed_response
  size ← or_raise (nonneg (get "size" d)) rpc_malformed_response
  weight ← or_raise (nonneg (get "weight" d)) rpc_malformed_response
  previous ←
      or_raise (optional (text_where hex_64) (get "previousblockhash" d)) rpc_malformed_response
  next ← or_raise (optional (text_where hex_64) (get "nextblockhash" d)) rpc_malformed_response
  block_summary (record {
    hash = str hash;
    height = int (pos height);
    confirmations = int (pos confirmations);
    timestamp = int (pos timestamp);
    transaction_count = int (pos (length tx));
    size = int (pos size);
    weight = int (pos weight);
    previous_block_hash = value_or_null str previous;
    next_block_hash = value_or_null str next;
  })

-- `isinstance(v, Decimal)`, finite and not negative
abbrev pub amount : Value → Option Decimal
amount (decimal d) = if is_finite d && not (is_negative d) then some d else none
amount _ = none

-- `type(v) is int and v >= -1`, with the None that -1 is mapped to
abbrev pub synced : Value → Option (Option ℕ)
synced (int (pos n)) = some (some n)
synced (int (negsuc n)) = if n == 0 then some none else none
synced _ = none

-- the fields of `_parse_mempool_summary`, with the fee before its conversion
unfoldable pub mempool_fields : Fields → Result (MempoolArgs × Decimal)
mempool_fields d = do
  loaded ← or_raise (as_bool (get "loaded" d)) rpc_malformed_response
  size ← or_raise (nonneg (get "size" d)) rpc_malformed_response
  bytes_val ← or_raise (nonneg (get "bytes" d)) rpc_malformed_response
  usage ← or_raise (nonneg (get "usage" d)) rpc_malformed_response
  maxmempool ← or_raise (nonneg (get "maxmempool" d)) rpc_malformed_response
  total_fee ← or_raise (amount (get "total_fee" d)) rpc_malformed_response
  ok (
    record {
      loaded = bool loaded;
      transaction_count = int (pos size);
      serialized_bytes = int (pos bytes_val);
      dynamic_memory_usage = int (pos usage);
      max_memory = int (pos maxmempool);
      total_fees_satoshis = null;
    },
    total_fee,
  )

-- the fields of one peer in `_parse_peer` but the ping time, with the test of the loop that the peer is an object
unfoldable pub peer_fields : Value → Result PeerArgs
peer_fields v = do
  p ← or_raise (as_obj v) rpc_malformed_response
  peer_id ← or_raise (nonneg (get "id" p)) rpc_malformed_response
  endpoint ← or_raise (as_text (get "addr" p)) rpc_malformed_response
  network ← or_raise (as_text (get "network" p)) rpc_malformed_response
  inbound ← or_raise (as_bool (get "inbound" p)) rpc_malformed_response
  connection_type ← or_raise (as_text (get "connection_type" p)) rpc_malformed_response
  version ← or_raise (nonneg (get "version" p)) rpc_malformed_response
  subver ← or_raise (as_text (get "subver" p)) rpc_malformed_response
  mapped_headers ← or_raise (synced (get "synced_headers" p)) rpc_malformed_response
  mapped_blocks ← or_raise (synced (get "synced_blocks" p)) rpc_malformed_response
  ok (record {
    peer_id = int (pos peer_id);
    endpoint = str endpoint;
    network = str network;
    inbound = bool inbound;
    connection_type = str connection_type;
    protocol_version = int (pos version);
    subversion = str subver;
    synced_headers = value_or_null count_value mapped_headers;
    synced_blocks = value_or_null count_value mapped_blocks;
    ping_time_seconds = null;
  })

-- the members of an object
abbrev pub members : Value → Fields
members (obj m) = m
members _ = end

-- `try: r except (DecimalException, OverflowError, ValueError)`
abbrev pub on_conversion_error {ℓ} : {A : Type ℓ} → Result A → Exc → Result A
on_conversion_error (err value_error) e = err e
on_conversion_error (err decimal_exception) e = err e
on_conversion_error r e = r

module _ (decimals : DecimalOps) where
  -- the conversion to satoshis in `_parse_mempool_summary`
  unfoldable pub satoshis : Decimal → Result ℤ
  satoshis total_fee =
      on_conversion_error
        (do
          fee_sats ← decimals.times_satoshis total_fee
          fraction ← decimals.has_fraction fee_sats
          require (not fraction) rpc_malformed_response
          decimals.to_int fee_sats)
        rpc_malformed_response

  -- `BitcoinRpcClient._parse_mempool_summary`
  unfoldable pub parse_mempool : Fields → Result MempoolSummary
  parse_mempool d = do
    (mempool, total_fee) ← mempool_fields d
    fees ← satoshis total_fee
    on_value_error (mempool_summary (record mempool { total_fees_satoshis = int fees }))
        rpc_malformed_response

  -- the value of `pingtime`, None when it is missing
  unfoldable pub ping_time : Option Value → Result Value
  ping_time none = ok null
  ping_time (some v) = do
    pt ← or_raise (amount v) rpc_malformed_response
    seconds ← on_conversion_error (decimals.to_float pt) rpc_malformed_response
    ok (float seconds)

  -- `BitcoinRpcClient._parse_peer`
  unfoldable pub parse_peer : Value → Result PeerSummary
  parse_peer v = do
    peer ← peer_fields v
    ping ← ping_time (find "pingtime" (members v))
    on_value_error (peer_summary (record peer { ping_time_seconds = ping })) rpc_malformed_response

  -- the second half of `get_peers`
  unfoldable pub parse_peers : Value → Result (List PeerSummary)
  parse_peers v = do
    peers_data ← or_raise (as_arr v) rpc_malformed_response
    require (leb (length peers_data) 256) rpc_malformed_response
    parse_all parse_peer peers_data
