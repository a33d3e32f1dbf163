-- ===== src/Cli/Output.antt =====
-- interfaces/cli.py: what the commands and `main` write.
use bitheim.Prelude.{ℕ, String, Bool, Option, List, string_eq}
use bitheim.Prelude.Int.{pos}
use bitheim.Errors.{
  Exc, rpc_authentication, rpc_incompatible_node, rpc_timeout, rpc_unavailable,
  rpc_malformed_response, rpc_protocol, rpc_response_size_exceeded, rpc_resource_not_found,
  configuration_error,
}
use bitheim.Value.{Value, int, str, obj, Fields, field, end, value_or_null}
use bitheim.Domain.Node.{state_text, Status}

-- what a command writes to the standard output: the value of `json.dumps`, the lines for a reader, or the report of
-- `doctor`, which is not modelled
pub data Printed : Type 0 where
  json : Value → Printed
  lines : List String → Printed
  report : Printed

-- how the program ends: the exit code, the output, the JSON object on the standard error, and whether the message there
-- is the one of the exception
pub record Finished : Type 0 where
  pub code : ℕ
  pub output : Option Printed
  pub delegated : Option Fields
  pub own_message : Bool

-- `_map_error_category`
unfoldable pub map_error_category : Exc → String
map_error_category rpc_authentication = "authentication"
map_error_category rpc_incompatible_node = "incompatible"
map_error_category rpc_timeout = "timeout"
map_error_category rpc_unavailable = "unavailable"
map_error_category rpc_malformed_response = "malformed_response"
map_error_category rpc_protocol = "malformed_response"
map_error_category rpc_response_size_exceeded = "malformed_response"
map_error_category rpc_resource_not_found = "not_found"
map_error_category configuration_error = "configuration"
map_error_category _ = "unexpected"

-- the object that `main` writes for a host that delegates
unfoldable pub error_object : Exc → Fields
error_object e =
    field "schema" (str "bitheim.delegated-error")
      (field "version" (int (pos 1)) (field "category" (str (map_error_category e)) end))

-- the object that `handle_status` writes
unfoldable pub status_object : Status → Fields
status_object s = field "node_id" (str s.node_id) (
    field "state" (str (state_text s.state)) (
      field "health"
        (obj (
          field "state" (str (state_text s.health.state)) (
            field "chain" (value_or_null str s.health.chain) (
              field "version" (value_or_null int s.health.version) (
                field "blocks" (value_or_null int s.health.blocks) (
                  field "headers" (value_or_null int s.health.headers)
                    (field "details" (value_or_null str s.health.details) end)))))))
        end))
