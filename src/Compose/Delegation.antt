-- ===== src/Compose/Delegation.antt =====
-- infrastructure/compose/adapter.py: `_run_delegated_inspection`, from what the process printed on.
pub mod Snapshots
pub mod RoundTrip
use bitheim.Prelude.{
  ℕ, String, Bool, true, Option, none, some, List, [], ◌∷◌, not, leb, ◌&&◌, ◌||◌, ◌==◌, string_eq,
  if◌then◌else◌,
}
use bitheim.Prelude.Int.{pos, int_eq}
use bitheim.Prelude.Text.{strip, is_empty, is_prefix, utf8_len}
use bitheim.Prelude.Lines.{splitlines, is_suffix}
use bitheim.Errors.{
  Exc, value_error, rpc_authentication, rpc_incompatible_node, rpc_timeout, rpc_malformed_response,
  rpc_resource_not_found, rpc_unavailable, rpc_response_size_exceeded, Result, ok, err,
  on_value_error, or_raise, require, ◌>>=◌, ◌>>◌,
}
use bitheim.Value.{Value, null, obj, Fields, end, field, get, as_obj, is_text, equals}
use bitheim.Value.Depth.{check_json_depth}
use bitheim.Value.Keys.{has, build}
use bitheim.Compose.Docker.{Completed, Loaded, loaded}

-- both failures of `json.loads` are `ValueError`s
abbrev pairs_of : Loaded → Result Value
pairs_of (loaded v) = ok v
pairs_of _ = err value_error

-- `json.loads` with `_reject_duplicate_keys` as its hook
unfoldable pub loads_unique : (String → Loaded) → String → Result Value
loads_unique loads s = pairs_of (loads s) >>= build

abbrev is_key : String → Bool
is_key k = k == "schema" || k == "version" || k == "category"

abbrev only_keys : Fields → Bool
only_keys end = true
only_keys (field k v m) = is_key k && only_keys m

-- `set(err_info.keys()) == {"schema", "version", "category"}`
abbrev exact_keys : Fields → Bool
exact_keys m = has "schema" m && has "version" m && has "category" m && only_keys m

-- `err_type`
unfoldable pub error_type : Fields → Value
unfolding has
error_type m =
    if is_text (get "schema" m) "bitheim.delegated-error"
      && equals (get "version" m) (pos 1)
      && exact_keys m
    then get "category" m
    else null

-- the exception for a category: the last one for a category that the code does not know
unfoldable pub category_error : Value → Exc
category_error err_type =
    if is_text err_type "authentication"
    then rpc_authentication
    else if is_text err_type "incompatible"
    then rpc_incompatible_node
    else if is_text err_type "timeout"
    then rpc_timeout
    else if is_text err_type "malformed_response"
    then rpc_malformed_response
    else if is_text err_type "not_found"
    then rpc_resource_not_found
    else rpc_unavailable

abbrev pub parsed_error : Result Value → Exc
parsed_error (ok (obj m)) = category_error (error_type m)
parsed_error _ = rpc_unavailable

-- the first line, if the lines are one, or two of which the second is the message of the command line
unfoldable pub error_line : List String → Option String
error_line (l ∷ []) = some (strip l)
error_line (l ∷ k ∷ []) = if is_prefix "bitheim: error:" k then some (strip l) else none
error_line _ = none

unfoldable pub line_error : (String → Loaded) → Option String → Exc
line_error loads none = rpc_unavailable
line_error loads (some err_str) =
    if is_prefix "{" err_str && is_suffix "}" err_str
    then parsed_error (loads_unique loads err_str)
    else rpc_unavailable

abbrev pub max_error_size : ℕ
max_error_size = 16384

-- the exception that the output of a failed inspection stands for
unfoldable pub delegated_error : (String → Loaded) → String → Exc
delegated_error loads stderr =
    if not (is_empty stderr) && leb (utf8_len stderr) max_error_size
    then line_error loads (error_line (splitlines (strip stderr)))
    else rpc_unavailable

abbrev pub max_output_size : ℕ
max_output_size = 65536

-- the object that a successful inspection printed
unfoldable pub delegated_output : (String → Loaded) → String → Result Fields
delegated_output loads stdout = do
  require (leb (utf8_len stdout) max_output_size) rpc_response_size_exceeded
  parsed ← on_value_error (loads_unique loads (strip stdout)) rpc_malformed_response
  fields ← or_raise (as_obj parsed) rpc_malformed_response
  check_json_depth 1 parsed
  ok fields

unfoldable pub delegated_result : (String → Loaded) → Completed → Result Fields
delegated_result loads c =
    if c.returncode == pos 0
    then delegated_output loads c.stdout
    else err (delegated_error loads c.stderr)
