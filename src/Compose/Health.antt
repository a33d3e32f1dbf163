-- ===== src/Compose/Health.antt =====
-- infrastructure/compose/adapter.py: what the delegated health probe prints, and what the adapter makes of it.
use bitheim.Prelude.{
  String, Bool, Option, none, some, not, ◌&&◌, ◌||◌, ◌==◌, string_eq, if◌then◌else◌,
}
use bitheim.Prelude.Int.{pos, int_eq}
use bitheim.Prelude.Text.{strip, is_empty, has_text}
use bitheim.Prelude.Lines.{lower}
use bitheim.Errors.{Result, ok, err, value_error, overflow_error}
use bitheim.Value.{
  Value, null, obj, str, Fields, end, find, get, as_text, int_or_bool, is_text, is_null, equals,
}
use bitheim.Domain.Node.{
  State, healthy, unhealthy, incompatible, unknown, state_of_text, same_state, Health, health,
}
use bitheim.Compose.Docker.{
  Completion, completed, timed_out, file_not_found, os_error, undecodable, overlong, Loaded, loaded,
  not_json, too_long, shown,
}

-- `health_data.get("state", "unknown")`
abbrev state_member : Option Value → Value
state_member none = str "unknown"
state_member (some v) = v

abbrev or_unknown : Option State → State
or_unknown none = unknown
or_unknown (some s) = s

-- `chain != EXPECTED_CHAIN or version != EXPECTED_BITCOIN_VERSION`
abbrev mismatch : Fields → Bool
mismatch m = not (is_text (get "chain" m) "regtest") || not (equals (get "version" m) (pos 310100))

-- `str(details) if details is not None else None`
abbrev pub shown_details : (Value → String) → Value → Option String
shown_details show null = none
shown_details show v = some (shown show v)

abbrev facts : (Value → String) → State → Fields → Value → Health
facts show state m details = record {
  state = state;
  chain = as_text (get "chain" m);
  version = int_or_bool (get "version" m);
  protocol_version = none;
  blocks = int_or_bool (get "blocks" m);
  headers = int_or_bool (get "headers" m);
  details = shown_details show details;
}

-- the members of `health`, with the state that they claim
unfoldable pub enforce : (Value → String) → Fields → State → Health
enforce show m claimed =
    if same_state claimed healthy && mismatch m
    then facts show incompatible m (
        if is_null (get "details" m) || is_text (get "details" m) "ready"
        then str "delegated_contract_mismatch"
        else get "details" m)
    else facts show claimed m (get "details" m)

unfoldable pub check_members : (Value → String) → Fields → Health
check_members show m =
    enforce show m (or_unknown (state_of_text (lower (shown show (state_member (find "state" m))))))

-- `probe_data.get("health", {})`
abbrev health_member : Option Value → Value
health_member none = obj end
health_member (some v) = v

unfoldable pub check_health : (Value → String) → Value → Health
check_health show (obj m) = check_members show m
check_health show _ = health unknown "malformed_probe_response"

unfoldable pub check_probe : (Value → String) → Value → Health
check_probe show (obj m) = check_health show (health_member (find "health" m))
check_probe show _ = health unknown "malformed_probe_response"

unfoldable pub check_loaded : (Value → String) → Loaded → Result Health
check_loaded show (loaded v) = ok (check_probe show v)
check_loaded show not_json = ok (health unknown "malformed_probe_response")
check_loaded show too_long = err value_error

-- `_parse_delegated_health`
unfoldable pub parse_delegated_health :
    (Value → String) → (String → Loaded) → String → Result Health
parse_delegated_health show loads stdout =
    if is_empty (strip stdout)
    then ok (health unknown "empty_probe_response")
    else check_loaded show (loads (strip stdout))

-- the output of a probe that failed
unfoldable pub failed_probe : String → Health
failed_probe stderr =
    if has_text "no such service" (lower stderr) || has_text "not found" (lower stderr)
    then health unhealthy "bitheim_service_unavailable"
    else health unhealthy "delegated_probe_failed"

-- the `try` at the end of `probe_health`, by what the process does
unfoldable pub probe_result : (Value → String) → (String → Loaded) → Completion → Result Health
probe_result show loads (completed c) =
    if c.returncode == pos 0
    then parse_delegated_health show loads c.stdout
    else ok (failed_probe c.stderr)
probe_result show loads timed_out = ok (health unknown "probe_failed")
probe_result show loads file_not_found = ok (health unknown "probe_failed")
probe_result show loads os_error = ok (health unknown "probe_failed")
probe_result show loads undecodable = err value_error
probe_result show loads overlong = err overflow_error
