-- ===== src/Tests/Client.antt =====
-- The theorems on the RPC client and the probe, at concrete runs.
use bitheim.Prelude.{
  ℕ, suc, String, List, [], ◌∷◌, Option, none, some, true, false, ◌≡◌, ◌≤◌, refl, All, ◌==◌,
  string_eq, if◌then◌else◌, zero, nat_eq,
}
use bitheim.Prelude.Int.{pos, negsuc}
use bitheim.Prelude.Text.{strip, lstrip, rstrip, is_space}
use bitheim.Errors.{ok, err, rpc_error}
use bitheim.Value.{
  float_limit, Value, null, bool, int, str, obj, arr, cons, nil, decimal, fin, finite, end, field,
  find,
}
use bitheim.Value.Depth.{check_json_depth}
use bitheim.Value.Keys.{build, reject_duplicate_keys, reject_from, put_last, has}
use bitheim.Effect.{returns, finally, ◌>>=◌}
use bitheim.Effect.Clock.{Clock, now}
use bitheim.Domain.Overview
use bitheim.Domain.Overview.{node_overview, short_printable, lower_hex_64}
use bitheim.Domain.Block
use bitheim.Domain.Block.{block_summary, hex_64}
use bitheim.Domain.Peer
use bitheim.Domain.Peer.{PeerSummary, peer_summary, peer_texts}
use bitheim.Peers.{parse_all, collect, sort, insert}
use bitheim.Peers.Order.{Ascending}
use bitheim.Service.Guards.{command_deadline}
use bitheim.Bitcoin.Numbers.{DecimalOps}
use bitheim.Bitcoin.Credential.{
  credential, drop_newline, before_colon, after_colon, check_lstat, check_fstat,
}
use bitheim.Bitcoin.Cookie.{CookieFile, read_open, open_and_read, read_bytes, read_cookie_header}
use bitheim.Bitcoin.Envelope.{envelope}
use bitheim.Bitcoin.Envelope.Reading.{
  Chunk, bytes, Decoder, after_read, read_body, read_and_parse_envelope,
}
use bitheim.Bitcoin.Parse.{
  parse_network_info, parse_chain_info, overview_args, parse_block, parse_peers, parse_peer,
  peer_fields, ping_time,
}
use bitheim.Bitcoin.Client.{
  bitcoin_rpc_client, apply_response_timeout, Environment, Reply, response, unreachable, on_reply,
  send_request, get_node_overview, resolve_hash, get_block, get_peers,
}
use bitheim.Bitcoin.Client.Results.{get_node_overview-IsValid, get_block-hash, get_peers-Ascending}
use bitheim.Tests.{hash, overview, block, peer, second_peer}

-- the requests made, and the reads of the last response
abbrev pub World : Type 0
World = ℕ × ℕ

-- a clock that stands still
abbrev pub clock : Clock World
clock = record { time = λ w. 0; monotonic = λ w. (0, w); sleep = λ d w. w }

-- a private regular file that holds the byte 1, and no descriptors to speak of
abbrev cookie : CookieFile World
cookie = record {
  lstat = λ w. (some (record { mode = 33152; size = 3; ino = 5; device = 1 }), w);
  open_file = λ w. (some 3, w);
  fstat = λ fd w. (some (record { mode = 33152; size = 3; ino = 5; device = 1 }), w);
  read = λ fd n w. (some (1 ∷ []), w);
  close = λ fd w. w;
}

-- the byte 1 is the cookie and the first reply, any other byte the second reply
abbrev pub text_of : List ℕ → Option String
text_of [] = none
text_of (n ∷ ns) = some (if n == 1 then "u:p" else "second")

abbrev decoder : Value → Value → Decoder
decoder first second_reply = record {
  decode = text_of;
  loads = λ s. ok (if s == "u:p" then first else second_reply);
}

abbrev decimals : DecimalOps
decimals = record {
  times_satoshis = λ d. ok d;
  has_fraction = λ d. ok false;
  to_int = λ d. ok (pos 1500);
  to_float = λ d. ok (finite (pos 1200));
}

abbrev pub read_once : ℕ → World → Chunk × World
read_once t (n, zero) = (bytes (n ∷ []), (n, 1))
read_once t (n, suc k) = (bytes [], (n, suc k))

abbrev env : Reply → Value → Value → Environment World
env reply first second_reply = record {
  clock = clock;
  cookie = cookie;
  base64 = λ s. s;
  decoder = decoder first second_reply;
  decimals = decimals;
  post = λ r t (n, k). (reply, (suc n, 0));
  serialisable = λ r. true;
  stream = record { settimeout = false; socket_settimeout = true };
  read = λ t. read_once 0;
}

abbrev reply_to : String → Value → Value
reply_to id v = obj (field "id" (str id) (field "result" v (field "error" null end)))

abbrev network_info : Value
network_info = obj (
    field "version" (int (pos 310100)) (
      field "subversion" (str "/Satoshi:31.1.0/")
        (field "networkactive" (bool true) (field "connections" (int (pos 2)) end))))

abbrev chain_info : Value
chain_info = obj (
    field "chain" (str "regtest") (
      field "blocks" (int (pos 7)) (
        field "headers" (int (pos 7)) (
          field "bestblockhash" (str hash) (
            field "mediantime" (int (pos 1700000000)) (
              field "initialblockdownload" (bool false)
                (field "pruned" (bool false) (field "chainwork" (str hash) end))))))))

abbrev pub healthy_env : Environment World
healthy_env =
    env response (reply_to "bitheim-req-1" network_info) (reply_to "bitheim-req-2" chain_info)

pub overview_run : get_node_overview healthy_env (int (pos 10)) (0, 0) ≡ returns overview (2, 1)
unfolding float_limit get_node_overview send_request read_cookie_header read_bytes open_and_read
    read_open credential check_lstat check_fstat drop_newline strip lstrip rstrip is_space
    before_colon after_colon finally now on_reply read_and_parse_envelope read_body after_read build
    reject_duplicate_keys reject_from put_last has envelope check_json_depth find command_deadline
    parse_network_info parse_chain_info overview_args node_overview short_printable lower_hex_64
    hex_64 ◌>>=◌
overview_run = refl

get_node_overview-IsValid_example : Overview.Laws.IsValid overview
get_node_overview-IsValid_example =
    get_node_overview-IsValid healthy_env (int (pos 10)) (0, 0) (2, 1) overview overview_run

abbrev block_data : Value
block_data = obj (
    field "hash" (str hash) (
      field "height" (int (pos 7)) (
        field "confirmations" (int (pos 1)) (
          field "time" (int (pos 1700000000)) (
            field "tx" (arr (cons (str hash) nil)) (
              field "size" (int (pos 250))
                (field "weight" (int (pos 1000)) (field "previousblockhash" (str hash) end))))))))

abbrev block_env : Environment World
block_env = env response (reply_to "bitheim-req-block" block_data) null

block_run : get_block block_env (some hash) null (int (pos 10)) (0, 0) ≡ returns block (1, 1)
unfolding float_limit get_block resolve_hash send_request read_cookie_header read_bytes
    open_and_read read_open credential check_lstat check_fstat drop_newline strip lstrip rstrip
    is_space before_colon after_colon finally now on_reply read_and_parse_envelope read_body
    after_read build reject_duplicate_keys reject_from put_last has envelope check_json_depth find
    command_deadline parse_block block_summary hex_64 ◌>>=◌
block_run = refl

get_block-hash_example : Block.Laws.IsValid block × (hash ≡ hash)
get_block-hash_example =
    get_block-hash block_env hash null (int (pos 10)) (0, 0) (1, 1) block block_run

abbrev peer_data : ℕ → Value
peer_data n = obj (
    field "id" (int (pos n)) (
      field "addr" (str "10.0.0.2:18444") (
        field "network" (str "ipv4") (
          field "inbound" (bool false) (
            field "connection_type" (str "manual") (
              field "version" (int (pos 70016)) (
                field "subver" (str "/Satoshi:31.1.0/") (
                  field "synced_headers" (int (pos 7)) (
                    field "synced_blocks" (int (negsuc 0))
                      (field "pingtime" (decimal (fin false 12 (negsuc 3))) end))))))))))

abbrev peers_env : Environment World
peers_env =
    env response (reply_to "bitheim-req-peers" (arr (cons (peer_data 4) (cons (peer_data 1) nil))))
      null

peers_run : get_peers peers_env (int (pos 10)) (0, 0) ≡ returns (peer ∷ second_peer ∷ []) (1, 1)
unfolding float_limit get_peers send_request read_cookie_header read_bytes open_and_read read_open
    credential check_lstat check_fstat drop_newline strip lstrip rstrip is_space before_colon
    after_colon finally now on_reply read_and_parse_envelope read_body after_read build
    reject_duplicate_keys reject_from put_last has envelope check_json_depth find command_deadline
    parse_peers parse_all collect sort insert parse_peer peer_fields ping_time peer_summary
    peer_texts short_printable ◌>>=◌
peers_run = refl

get_peers-Ascending_example :
    All Peer.Laws.IsValid (peer ∷ second_peer ∷ [])
    × Ascending (peer ∷ second_peer ∷ [])
    × (2 ≤ 256)
get_peers-Ascending_example =
    get_peers-Ascending peers_env (int (pos 10)) (0, 0) (1, 1) (peer ∷ second_peer ∷ []) peers_run

abbrev down_env : Environment World
down_env = env unreachable null null

-- the constructor accepts the node in the container only
other_host : bitcoin_rpc_client down_env "localhost" 18443 "/data/rpc/.cookie" ≡ err rpc_error
unfolding bitcoin_rpc_client
other_host = refl

-- the timeout of a read goes to the socket below a response
socket_timeout :
    apply_response_timeout (record { settimeout = false; socket_settimeout = true }) 5 ≡ some 5
unfolding apply_response_timeout
socket_timeout = refl
