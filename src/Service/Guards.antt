-- ===== src/Service/Guards.antt =====
-- The argument checks at the boundary of the services, and the pieces of them that other layers repeat.
pub mod Laws
use Prim.Native.Char.{code}
use Prim.Native.String.{[], ◌∷◌}
use bitheim.Prelude.{
  ℕ, ◌*◌, String, Bool, true, false, Option, none, some, ◌&&◌, ◌||◌, not, leb, ◌==◌, nat_eq,
  if◌then◌else◌,
}
use bitheim.Prelude.Int.{pos}
use bitheim.Prelude.Text.{is_alphanumeric, strip, is_empty, all_chars}
use bitheim.Errors.{
  Result, ok, lifecycle_error, rpc_error, overflow_error, or_raise, require, ◌>>=◌, ◌>>◌,
}
use bitheim.Value.{Value, Float, finite, as_number, is_too_large, as_text, second}

-- `[a-zA-Z0-9_-]`
abbrev pub is_id_char : ℕ → Bool
is_id_char c = is_alphanumeric c || c == b'_' || c == b'-'

-- the rest of a text that the pattern's `[a-zA-Z0-9_-]*$` matches: `$` also matches before one newline at the end
abbrev pub id_rest : String → Bool
id_rest [] = true
id_rest (c ∷ s) = (is_id_char (code c) && id_rest s) || (code c == 0x0a && is_empty s)

-- `_VALID_NODE_ID_REGEX.match(s)`
unfoldable pub node_id_match : String → Bool
node_id_match [] = false
node_id_match (c ∷ s) = is_alphanumeric (code c) && id_rest s

-- `_validate_service_node_id`
unfoldable pub validate_service_node_id : Value → Result String
validate_service_node_id v = do
  node_id ← or_raise (as_text v) lifecycle_error
  require (not (is_empty (strip node_id))) lifecycle_error
  let trimmed = strip node_id
  require (node_id_match trimmed) lifecycle_error
  ok trimmed

-- a positive finite float, in microseconds
abbrev pub positive : Float → Option ℕ
positive (finite (pos n)) = if n == 0 then none else some n
positive _ = none

-- `_validate_service_timeout`
unfoldable pub validate_service_timeout : Value → Result ℕ
validate_service_timeout v = do
  number ← or_raise (as_number v) lifecycle_error
  float_val ← require (not (is_too_large v)) overflow_error >> ok number
  or_raise (positive float_val) lifecycle_error

abbrev pub max_deadline : ℕ
max_deadline = 60 * second

abbrev at_most : ℕ → Option ℕ → Option ℕ
at_most bound none = none
at_most bound (some n) = if leb n bound then some n else none

-- The deadline check that every observation method begins with, here and in the RPC client and the Compose adapter:
-- a number, positive, finite and at most 60 seconds.
unfoldable pub command_deadline : Value → Result ℕ
command_deadline v = do
  number ← or_raise (as_number v) rpc_error
  float_timeout ← require (not (is_too_large v)) overflow_error >> ok number
  or_raise (at_most max_deadline (positive float_timeout)) rpc_error
