-- ===== src/Bitcoin/Client.antt =====
-- infrastructure/bitcoin/rpc_client.py: `BitcoinRpcClient`, over the clock, the cookie file and the HTTP connection.
pub mod Errors
pub mod Results
use bitheim.Prelude.{
  ℕ, ◌+◌, ◌-◌, String, Bool, List, [], ◌∷◌, Option, none, some, not, leb, contains, ◌==◌, ◌||◌,
  nat_eq, string_eq, if◌then◌else◌,
}
use bitheim.Prelude.Int.{pos}
use bitheim.Errors.{
  rpc_error, rpc_timeout, rpc_authentication, rpc_unavailable, rpc_protocol, rpc_malformed_response,
  http_exception, or_raise, require, Result, ok, err,
}
use bitheim.Value.{Value, int, str, nonneg, as_obj, as_text, is_null}
use bitheim.Effect.{M, pure, raise, lift, ask, ◌>>=◌, ◌>>◌}
use bitheim.Effect.Clock.{Clock, now}
use bitheim.Domain.Overview.{NodeOverview}
use bitheim.Domain.Block.{BlockSummary, hex_64}
use bitheim.Domain.Mempool.{MempoolSummary}
use bitheim.Domain.Peer.{PeerSummary}
use bitheim.Service.Guards.{command_deadline}
use bitheim.Service.Observation.{NodeObservationPort, either_one}
use bitheim.Bitcoin.Numbers.{DecimalOps}
use bitheim.Bitcoin.Cookie.{CookieFile, read_cookie_header}
use bitheim.Bitcoin.Envelope.Reading.{Chunk, Decoder, read_and_parse_envelope}
use bitheim.Bitcoin.Parse.{
  parse_network_info, parse_chain_info, parse_block, parse_mempool, parse_peers,
}

-- the body and the headers of one POST
pub record Request : Type 0 where
  pub authorization : String
  pub id : String
  pub method : String
  pub params : List Value

-- what `opener.open` does: a response; an `HTTPError` with its code, which can be read as a response can; a timeout;
-- another `OSError`; or an `HTTPException` that is none, such as `BadStatusLine`. A redirect is `RpcUnavailableError`,
-- raised by `_NoRedirectHandler`.
pub data Reply : Type 0 where
  response : Reply
  http_error : ℕ → Reply
  redirected : Reply
  timed_out : Reply
  unreachable : Reply
  no_http : Reply

-- whether a response has `settimeout`, and whether the socket below it has
pub record Stream : Type 0 where
  pub settimeout : Bool
  pub socket_settimeout : Bool

-- `_apply_response_timeout`: the timeout of the next read, none if nothing takes one
unfoldable pub apply_response_timeout : Stream → ℕ → Option ℕ
apply_response_timeout resp timeout =
    if resp.settimeout then some timeout else if resp.socket_settimeout then some timeout else none

-- everything outside the client; `serialisable` says whether `json.dumps` and UTF-8 encode the body
pub record Environment (W : Type 0) : Type 0 where
  pub clock : Clock W
  pub cookie : CookieFile W
  pub base64 : String → String
  pub decoder : Decoder
  pub decimals : DecimalOps
  pub serialisable : Request → Bool
  pub post : Request → ℕ → W → Reply × W
  pub stream : Stream
  pub read : Option ℕ → W → Chunk × W

abbrev pub allowed_rpc_methods : List String
allowed_rpc_methods =
    "getnetworkinfo" ∷ "getblockchaininfo" ∷ "getblockhash" ∷ "getblock" ∷ "getmempoolinfo"
    ∷ "getpeerinfo" ∷ []

abbrev default_rpc_host : String
default_rpc_host = "bitcoin-core"

abbrev default_rpc_port : ℕ
default_rpc_port = 18443

abbrev default_cookie_path : String
default_cookie_path = "/data/rpc/.cookie"

module _ {W : Type 0} (env : Environment W) where
  -- `resp.read(65536)` after `_apply_response_timeout`
  abbrev pub timed_read : ℕ → W → Chunk × W
  timed_read timeout w = env.read (apply_response_timeout env.stream timeout) w

  -- the `try` around `opener.open`, by what it does
  unfoldable pub on_reply : String → ℕ → Reply → M W Value
  on_reply req_id deadline response =
      read_and_parse_envelope env.clock timed_read env.decoder req_id deadline
  on_reply req_id deadline (http_error code) =
      if code == 401 || code == 403
      then raise rpc_authentication
      else if code == 500
      then read_and_parse_envelope env.clock timed_read env.decoder req_id deadline
        >> raise rpc_protocol
      else raise rpc_unavailable
  on_reply req_id deadline redirected = raise rpc_unavailable
  on_reply req_id deadline timed_out = raise rpc_timeout
  on_reply req_id deadline unreachable = raise rpc_unavailable
  on_reply req_id deadline no_http = raise http_exception

  -- `_send_request`
  unfoldable pub send_request : String → List Value → String → ℕ → M W Value
  send_request method params req_id deadline = do
    lift (require (contains allowed_rpc_methods method) rpc_error)
    t ← now env.clock
    if leb deadline t then raise rpc_timeout else do
      auth_header ← read_cookie_header env.cookie env.decoder.decode env.base64
      t' ← now env.clock
      if leb deadline t' then raise rpc_timeout else do
        let req : Request = record {
          authorization = auth_header;
          id = req_id;
          method = method;
          params = params;
        }
        lift (require (env.serialisable req) rpc_malformed_response)
        reply ← ask (env.post req (deadline - t'))
        on_reply req_id deadline reply

  unfoldable pub get_node_overview : Value → M W NodeOverview
  get_node_overview timeout = do
    float_timeout ← lift (command_deadline timeout)
    t ← now env.clock
    net_info ← send_request "getnetworkinfo" [] "bitheim-req-1" (t + float_timeout)
    net ← lift (parse_network_info net_info)
    chain_info ← send_request "getblockchaininfo" [] "bitheim-req-2" (t + float_timeout)
    lift (parse_chain_info net chain_info)

  -- the hash that a block is asked for with, which a height is first resolved to
  unfoldable pub resolve_hash : Option String → Value → ℕ → M W String
  resolve_hash (some block_hash) height deadline = pure block_hash
  resolve_hash none height deadline = do
    valid_height ← lift (or_raise (nonneg height) rpc_error)
    hash_res ← send_request "getblockhash" (height ∷ []) "bitheim-req-hash" deadline
    lift (or_raise (as_text hash_res) rpc_malformed_response)

  abbrev is_none : Option String → Bool
  is_none none = Bool.true
  is_none (some s) = Bool.false

  unfoldable pub get_block : Option String → Value → Value → M W BlockSummary
  get_block block_hash height timeout = do
    float_timeout ← lift (command_deadline timeout)
    lift (require (either_one (is_none block_hash) (is_null height)) rpc_error)
    t ← now env.clock
    resolved_hash ← resolve_hash block_hash height (t + float_timeout)
    lift (require (hex_64 resolved_hash) rpc_malformed_response)
    block_data ←
        send_request "getblock" (str resolved_hash ∷ int (pos 1) ∷ []) "bitheim-req-block"
          (t + float_timeout)
    members ← lift (or_raise (as_obj block_data) rpc_malformed_response)
    summary ← lift (parse_block members)
    lift (require (summary.hash == resolved_hash) rpc_malformed_response)
    pure summary

  unfoldable pub get_mempool : Value → M W MempoolSummary
  get_mempool timeout = do
    float_timeout ← lift (command_deadline timeout)
    t ← now env.clock
    mempool_data ← send_request "getmempoolinfo" [] "bitheim-req-mempool" (t + float_timeout)
    members ← lift (or_raise (as_obj mempool_data) rpc_malformed_response)
    lift (parse_mempool env.decimals members)

  unfoldable pub get_peers : Value → M W (List PeerSummary)
  get_peers timeout = do
    float_timeout ← lift (command_deadline timeout)
    t ← now env.clock
    peers_data ← send_request "getpeerinfo" [] "bitheim-req-peers" (t + float_timeout)
    lift (parse_peers env.decimals peers_data)

  -- the client as the adapter of the observation service
  abbrev pub observation : NodeObservationPort W
  observation = record {
    get_node_overview = get_node_overview;
    get_block = get_block;
    get_mempool = get_mempool;
    get_peers = get_peers;
  }

  -- `__init__`, with the texts of its arguments
  unfoldable pub bitcoin_rpc_client : String → ℕ → String → Result (NodeObservationPort W)
  bitcoin_rpc_client rpc_host rpc_port cookie_path =
      if not (rpc_host == default_rpc_host)
      then err rpc_error
      else if not (rpc_port == default_rpc_port)
      then err rpc_error
      else if not (cookie_path == default_cookie_path)
      then err rpc_error
      else ok observation
