-- ===== src/Bitcoin/Probe.antt =====
-- infrastructure/bitcoin/rpc_probe.py: the health probe that runs inside the container.
pub mod Laws
use Prim.Native.String.{◌++◌}
use bitheim.Prelude.{
  ℕ, String, Bool, true, false, List, Option, none, some, ◌&&◌, ◌||◌, not, ◌==◌, nat_eq, string_eq,
  if◌then◌else◌,
}
use bitheim.Prelude.Int.{ℤ, pos, negsuc, int_eq, scale}
use bitheim.Prelude.Text.{strip, is_empty}
use bitheim.Errors.{Result, ok, err, http_exception}
use bitheim.Value.{
  Value, equals, Fields, obj, str, null, get, as_obj, int_or_bool, as_text, is_null, float, finite,
  second,
}
use bitheim.Effect.{M, pure, lift, ask, ◌>>=◌}
use bitheim.Domain.Node.{State, starting, healthy, unhealthy, incompatible, unknown, Health, health}

-- the dict that `_send_rpc_call` returns, by its `error_type`
pub data CallResult : Type 0 where
  success : Value → CallResult
  rpc_error : Value → CallResult
  malformed_response unauthorized warming_up http_error connection_failed : CallResult

-- what `urlopen` and reading the body do: a body; an `HTTPError` with its code and its body, none if it cannot be
-- read; another `OSError`; or an `HTTPException` that is none, such as `BadStatusLine`
pub data Answer : Type 0 where
  body : List ℕ → Answer
  error_body : ℕ → Option (List ℕ) → Answer
  failed : Answer
  no_http : Answer

-- `bytes.decode("utf-8")` and `json.loads`
pub record Text : Type 0 where
  pub decode : List ℕ → Option String
  pub loads : String → Option Value

abbrev loaded : Text → Option String → Option Value
loaded t none = none
loaded t (some s) = t.loads s

abbrev json : Text → Option (List ℕ) → Option Value
json t none = none
json t (some b) = loaded t (t.decode b)

abbrev code_of : Value → Value
code_of (obj m) = get "code" m
code_of _ = null

-- `isinstance(v, int) and v == n`
abbrev pub is_int : Value → ℤ → Bool
is_int v n = elim (int_or_bool v) [ none ↦ false | some k ↦ k == n ]

-- a body of a response
unfoldable pub read_result : Option Value → CallResult
read_result (some (obj m)) =
    if is_null (get "error" m)
    then success (get "result" m)
    else rpc_error (code_of (get "error" m))
read_result _ = malformed_response

-- a body of an HTTP 500
unfoldable pub read_error : Option Value → CallResult
read_error (some (obj m)) =
    if equals (code_of (get "error" m)) (negsuc 27) then warming_up else http_error
read_error _ = http_error

-- `_send_rpc_call`, from the answer on
unfoldable pub call_result : Text → Answer → Result CallResult
call_result t (body b) = ok (read_result (json t (some b)))
call_result t (error_body code b) = ok (
    if code == 401 then unauthorized else if code == 500 then read_error (json t b) else http_error)
call_result t failed = ok connection_failed
call_result t no_http = err http_exception

-- `_categorize_rpc_failure`
unfoldable pub categorize_rpc_failure : CallResult → Health
categorize_rpc_failure warming_up = health starting "warming_up"
categorize_rpc_failure (rpc_error code) =
    if equals code (negsuc 27) then health starting "warming_up" else health unhealthy "rpc_error"
categorize_rpc_failure unauthorized = health unhealthy "authentication_failed"
categorize_rpc_failure connection_failed = health starting "rpc_unreachable"
categorize_rpc_failure malformed_response = health unhealthy "malformed_rpc_response"
categorize_rpc_failure _ = health unhealthy "rpc_error"

abbrev facts : State → Option String → Option ℤ → Fields → String → Health
facts state chain version m text = record {
  state = state;
  chain = chain;
  version = version;
  protocol_version = none;
  blocks = int_or_bool (get "blocks" m);
  headers = int_or_bool (get "headers" m);
  details = some text;
}

-- the second half of the probe, with the members of the blockchain information
unfoldable pub check_version : String → Fields → CallResult → Health
check_version chain m (success (obj net)) =
    if is_int (get "version" net) (pos 310100)
    then facts healthy (some chain) (int_or_bool (get "version" net)) m "ready"
    else facts incompatible (some chain) (int_or_bool (get "version" net)) m "incompatible_version"
check_version chain m (success _) = health unhealthy "malformed_network_info"
check_version chain m r = categorize_rpc_failure r

-- the environment of the probe: the text of the cookie file, none if it cannot be read; Python's `str` of a value;
-- and a POST of a method with an authorization header
pub record ProbeEnvironment (W : Type 0) : Type 0 where
  pub text : Text
  pub show : Value → String
  pub cookie : W → Option String × W
  pub base64 : String → String
  pub post : String → Option String → W → Answer × W

-- `_read_cookie_auth_header`, from the text of the file on
abbrev pub read_cookie_auth_header : (String → String) → Option String → Option String
read_cookie_auth_header base64 none = none
read_cookie_auth_header base64 (some s) =
    if is_empty (strip s) then none else some ("Basic " ++ base64 (strip s))

abbrev text_or_none : (Value → String) → Value → Option String
text_or_none show null = none
text_or_none show v = some (show v)

module _ {W : Type 0} (env : ProbeEnvironment W) where
  -- `_send_rpc_call`
  unfoldable pub send_rpc_call : String → Option String → M W CallResult
  send_rpc_call method auth_header = do
    answer ← ask (env.post method auth_header)
    lift (call_result env.text answer)

  -- the rest of the probe, by the value of `chain`
  unfoldable pub check_chain_value : Option String → Fields → Value → M W Health
  check_chain_value auth_header m (str chain) =
      if chain == "regtest"
      then (do
        net_result ← send_rpc_call "getnetworkinfo" auth_header
        pure (check_version chain m net_result))
      else pure (facts incompatible (some chain) none m "incompatible_chain")
  check_chain_value auth_header m v =
      pure (facts incompatible (text_or_none env.show v) none m "incompatible_chain")

  -- the probe from the reply to `getblockchaininfo` on
  unfoldable pub check_chain : Option String → CallResult → M W Health
  check_chain auth_header (success (obj m)) = check_chain_value auth_header m (get "chain" m)
  check_chain auth_header (success _) = pure (health unhealthy "malformed_blockchain_info")
  check_chain auth_header r = pure (categorize_rpc_failure r)

  unfoldable pub probe_chain : Option String → M W Health
  probe_chain auth_header = do
    chain_result ← send_rpc_call "getblockchaininfo" auth_header
    check_chain auth_header chain_result

  unfoldable pub with_header : Option String → M W Health
  with_header none = pure (health starting "cookie_file_unavailable")
  with_header (some auth_header) = probe_chain (some auth_header)

  -- `probe_rpc_http`, by whether there is a cookie path and whether the timeout is positive
  unfoldable pub probe_rpc_http : Bool → Bool → M W Health
  probe_rpc_http has_cookie_path positive_timeout =
      if not positive_timeout
      then pure (health unknown "timeout_expired")
      else if has_cookie_path
      then (do cookie ← ask env.cookie; with_header (read_cookie_auth_header env.base64 cookie))
      else probe_chain none
