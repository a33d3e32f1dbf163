-- ===== src/Bitcoin/Envelope.antt =====
-- infrastructure/bitcoin/rpc_client.py: `_read_and_parse_envelope`.
pub mod Laws
pub mod Reading
use bitheim.Prelude.{
  ℕ, zero, suc, ◌+◌, ◌-◌, String, Bool, List, [], ◌∷◌, ◌++◌, Option, none, some, false, not, leb,
  ◌==◌, string_eq, length, if◌then◌else◌,
}
use bitheim.Prelude.Int.{ℤ, negsuc, int_eq}
use bitheim.Errors.{
  Exc, Result, ok, err, rpc_malformed_response, rpc_resource_not_found, rpc_protocol, value_error,
  or_raise, require, on_value_error, ◌>>=◌, ◌>>◌,
}
use bitheim.Value.{Value, str, Fields, find, get, as_obj, as_int, as_text, is_null}
use bitheim.Value.Depth.{check_json_depth}

-- an `error` member that is not None
unfoldable pub error_member : Value → Value → Result Value
error_member error result = do
  require (is_null result) rpc_malformed_response
  members ← or_raise (as_obj error) rpc_malformed_response
  number ← or_raise (as_int (get "code" members)) rpc_malformed_response
  if number == negsuc 4 then err rpc_resource_not_found else err rpc_protocol

-- `v == s` for a text `s`
abbrev pub same_text : Value → String → Bool
same_text (str t) s = t == s
same_text _ s = false

-- the envelope's checks on what `json.loads` returns
unfoldable pub envelope : String → Value → Result Value
envelope req_id v = do
  members ← or_raise (as_obj v) rpc_malformed_response
  check_json_depth 1 v
  id ← or_raise (find "id" members) rpc_malformed_response
  result ← or_raise (find "result" members) rpc_malformed_response
  error ← or_raise (find "error" members) rpc_malformed_response
  require (same_text id req_id) rpc_malformed_response
  if is_null error
      then require (not (is_null result)) rpc_malformed_response >> ok result
      else error_member error result
