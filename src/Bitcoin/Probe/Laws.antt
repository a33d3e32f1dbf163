-- ===== src/Bitcoin/Probe/Laws.antt =====
-- What a healthy probe means.
use bitheim.Prelude.{
  String, Bool, true, false, Option, none, some, ◌≡◌, refl, arith, ◌==◌, string_eq, Option-cases,
  inl, inr, sym, eq_of_beq,
}
use mathlib.Core.Path.{subst}
use bitheim.Prelude.Int.{ℤ, pos, int_eq}
use bitheim.Domain.Node.{healthy, Health}
use bitheim.Value.{Value, Fields, obj, str, get, int_or_bool}
use bitheim.Effect.{returns}
use bitheim.Effect.Results.{Returns, Returns-at, Returns-bind, Returns-if, Returns-pure}
use bitheim.Bitcoin.Probe.{
  ProbeEnvironment, CallResult, success, rpc_error, malformed_response, unauthorized, warming_up,
  http_error, connection_failed, categorize_rpc_failure, check_version, is_int,
  read_cookie_auth_header, with_header, check_chain_value, check_chain, probe_chain, probe_rpc_http,
}

-- what every probe reports
abbrev pub IsSound : Health → Type 0
IsSound h =
    (h.protocol_version ≡ none)
    × (h.state ≡ healthy → (h.chain ≡ some "regtest") × (h.version ≡ some (pos 310100)))

failure-IsSound : (r : CallResult) → IsSound (categorize_rpc_failure r)
unfolding categorize_rpc_failure
failure-IsSound (success v) = (refl, λ h. cc)
failure-IsSound (rpc_error code) = (ground arith, ground arith)
failure-IsSound malformed_response = (refl, λ h. cc)
failure-IsSound unauthorized = (refl, λ h. cc)
failure-IsSound warming_up = (refl, λ h. cc)
failure-IsSound http_error = (refl, λ h. cc)
failure-IsSound connection_failed = (refl, λ h. cc)

is_int-some : (v : Value) (n : ℤ) → is_int v n ≡ true → int_or_bool v ≡ some n
is_int-some v n h = elim (Option-cases (int_or_bool v)) [
  | inl e ↦ ground arith
  | inr (k, e) ↦ ground (arith, int_eq.same_iff k n)
]

version-IsSound : (m : Fields) (r : CallResult) → IsSound (check_version "regtest" m r)
unfolding check_version
version-IsSound m (success (obj net)) =
    (ground arith, λ h. ground (arith, is_int-some (get "version" net) (pos 310100)))
version-IsSound m (success v) = (refl, λ h. cc)
version-IsSound m (rpc_error code) = failure-IsSound (rpc_error code)
version-IsSound m r = failure-IsSound r

module _ {W : Type 0} (env : ProbeEnvironment W) where
  chain_value-IsSound :
      (auth : Option String) (m : Fields) (v : Value)
      → Returns IsSound (check_chain_value env auth m v)
  unfolding check_chain_value
  chain_value-IsSound auth m (str chain) =
      Returns-if (chain == "regtest") _ _
        (λ same. Returns-bind _ _ (λ r. Returns-pure _ (
          subst (λ s. IsSound (check_version s m r)) (sym (eq_of_beq chain "regtest" same))
            (version-IsSound m r))))
        (λ _. Returns-pure _ (refl, λ h. cc))
  chain_value-IsSound auth m v = Returns-pure _ (refl, λ h. cc)

  chain-IsSound : (auth : Option String) (r : CallResult) → Returns IsSound (check_chain env auth r)
  unfolding check_chain
  chain-IsSound auth (success (obj m)) = chain_value-IsSound auth m (get "chain" m)
  chain-IsSound auth (success v) = Returns-pure _ (refl, λ h. cc)
  chain-IsSound auth r = Returns-pure _ (failure-IsSound r)

  probe_chain-IsSound : (auth : Option String) → Returns IsSound (probe_chain env auth)
  unfolding probe_chain
  probe_chain-IsSound auth = Returns-bind _ _ (chain-IsSound auth)

  header-IsSound : (auth : Option String) → Returns IsSound (with_header env auth)
  unfolding with_header
  header-IsSound none = Returns-pure _ (refl, λ h. cc)
  header-IsSound (some s) = probe_chain-IsSound (some s)

  probe_rpc_http-Returns :
      (has_cookie positive_timeout : Bool)
      → Returns IsSound (probe_rpc_http env has_cookie positive_timeout)
  unfolding probe_rpc_http
  probe_rpc_http-Returns has_cookie false = Returns-pure _ (refl, λ h. cc)
  probe_rpc_http-Returns false true = probe_chain-IsSound none
  probe_rpc_http-Returns true true =
      Returns-bind _ _ (λ cookie. header-IsSound (read_cookie_auth_header env.base64 cookie))

  -- a probe is sound
  pub probe_rpc_http-IsSound :
      (has_cookie positive_timeout : Bool) (w w' : W) (h : Health)
      → probe_rpc_http env has_cookie positive_timeout w ≡ returns h w'
      → IsSound h
  probe_rpc_http-IsSound has_cookie positive_timeout w w' h e =
      Returns-at (probe_rpc_http-Returns has_cookie positive_timeout) w w' h e

  -- A probe that reports the state healthy reports the chain regtest and the version 310100 with it.
  pub probe_rpc_http-healthy :
      (has_cookie positive_timeout : Bool) (w w' : W) (h : Health)
      → probe_rpc_http env has_cookie positive_timeout w ≡ returns h w'
      → h.state ≡ healthy
      → (h.chain ≡ some "regtest") × (h.version ≡ some (pos 310100))
  probe_rpc_http-healthy has_cookie positive_timeout w w' h e up =
      (probe_rpc_http-IsSound has_cookie positive_timeout w w' h e).1 up
