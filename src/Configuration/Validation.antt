-- ===== src/Configuration/Validation.antt =====
-- bootstrap/configuration.py: the validators.
use bitheim.Prelude.{ℕ, String, Option, not, string_eq, if◌then◌else◌}
use bitheim.Prelude.Int.{pos}
use bitheim.Prelude.Text.{strip, is_empty}
use bitheim.Errors.{
  Result, ok, err, overflow_error, configuration_error, or_raise, require, ◌>>=◌, ◌>>◌,
}
use bitheim.Value.{Value, bool, int, float, str, Float, float_of_int, is_too_large, as_text}
use bitheim.Service.Guards.{node_id_match, positive}
use bitheim.Network.{Networks}

-- `_validate_node_id`
unfoldable pub validate_node_id : Value → Result String
validate_node_id v = do
  node_id ← or_raise (as_text v) configuration_error
  require (not (is_empty (strip node_id))) configuration_error
  let trimmed = strip node_id
  require (node_id_match trimmed) configuration_error
  ok trimmed

-- `_validate_compose_subnet`
unfoldable pub validate_compose_subnet : Networks → Value → Result String
validate_compose_subnet n v = do
  subnet_str ← or_raise (as_text v) configuration_error
  require (not (is_empty (strip subnet_str))) configuration_error
  network ← or_raise (n.ip_network (strip subnet_str)) configuration_error
  require (n.is_ipv4 network) configuration_error
  require (n.is_private network) configuration_error
  ok (n.text network)

-- the number that `_validate_timeout` tests: a bool counts as an int
unfoldable pub float_value : (String → Option Float) → Value → Result Float
float_value float_of_text (int n) =
    if is_too_large (int n) then err overflow_error else ok (float_of_int n)
float_value float_of_text (bool b) = ok (float_of_int (pos (if b then 1 else 0)))
float_value float_of_text (float x) = ok x
float_value float_of_text (str s) =
    if is_empty (strip s)
    then err configuration_error
    else or_raise (float_of_text (strip s)) configuration_error
float_value float_of_text _ = err configuration_error

-- `_validate_timeout`, in microseconds
unfoldable pub validate_timeout : (String → Option Float) → Value → Result ℕ
validate_timeout float_of_text val = do
  float_val ← float_value float_of_text val
  or_raise (positive float_val) configuration_error
