-- ===== src/Domain/Peer.antt =====
-- domain/node.py: `PeerSummary`.
pub mod Laws
use bitheim.Prelude.{ℕ, String, Bool, Option, none, some}
use bitheim.Prelude.Int.{ℤ, pos, negsuc}
use bitheim.Errors.{Result, ok, value_error, or_raise, ◌>>=◌}
use bitheim.Value.{
  Value, int, str, bool, float, Float, finite, Fields, end, field, nonneg, text_where, as_bool,
  optional, value_or_null,
}
use bitheim.Domain.Overview.{short_printable}

pub record PeerSummary : Type 0 where
  pub peer_id : ℕ
  pub endpoint : String
  pub network : String
  pub inbound : Bool
  pub connection_type : String
  pub protocol_version : ℕ
  pub subversion : String
  pub synced_headers : Option ℕ
  pub synced_blocks : Option ℕ
  pub ping_time_seconds : Option Float

-- the arguments of the constructor, whose types are not checked before `__post_init__` runs
pub record PeerArgs : Type 0 where
  pub peer_id : Value
  pub endpoint : Value
  pub network : Value
  pub inbound : Value
  pub connection_type : Value
  pub protocol_version : Value
  pub subversion : Value
  pub synced_headers : Value
  pub synced_blocks : Value
  pub ping_time_seconds : Value

-- `type(v) is float and math.isfinite(v) and v >= 0`
abbrev pub duration : Value → Option Float
duration (float (finite (pos n))) = some (finite (pos n))
duration _ = none

pub record Texts : Type 0 where
  pub endpoint : String
  pub network : String
  pub connection_type : String
  pub subversion : String

-- the loop over the four text fields
unfoldable pub peer_texts : PeerArgs → Result Texts
peer_texts a = do
  endpoint ← or_raise (text_where short_printable a.endpoint) value_error
  network ← or_raise (text_where short_printable a.network) value_error
  connection_type ← or_raise (text_where short_printable a.connection_type) value_error
  subversion ← or_raise (text_where short_printable a.subversion) value_error
  ok (record {
    endpoint = endpoint;
    network = network;
    connection_type = connection_type;
    subversion = subversion;
  })

unfoldable pub peer_summary : PeerArgs → Result PeerSummary
peer_summary a = do
  peer_id ← or_raise (nonneg a.peer_id) value_error
  texts ← peer_texts a
  inbound ← or_raise (as_bool a.inbound) value_error
  protocol_version ← or_raise (nonneg a.protocol_version) value_error
  synced_headers ← or_raise (optional nonneg a.synced_headers) value_error
  synced_blocks ← or_raise (optional nonneg a.synced_blocks) value_error
  ping ← or_raise (optional duration a.ping_time_seconds) value_error
  ok (record {
    peer_id = peer_id;
    endpoint = texts.endpoint;
    network = texts.network;
    inbound = inbound;
    connection_type = texts.connection_type;
    protocol_version = protocol_version;
    subversion = texts.subversion;
    synced_headers = synced_headers;
    synced_blocks = synced_blocks;
    ping_time_seconds = ping;
  })

abbrev pub count_value : ℕ → Value
count_value n = int (pos n)

-- `PeerSummary.to_dict`
unfoldable pub to_dict : PeerSummary → Fields
to_dict p = field "connection_type" (str p.connection_type) (
    field "endpoint" (str p.endpoint) (
      field "inbound" (bool p.inbound) (
        field "network" (str p.network) (
          field "peer_id" (int (pos p.peer_id)) (
            field "ping_time_seconds" (value_or_null float p.ping_time_seconds) (
              field "protocol_version" (int (pos p.protocol_version)) (
                field "subversion" (str p.subversion) (
                  field "synced_blocks" (value_or_null count_value p.synced_blocks) (
                    field "synced_headers" (value_or_null count_value p.synced_headers) end)))))))))
