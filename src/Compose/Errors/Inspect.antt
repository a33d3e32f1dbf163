-- ===== src/Compose/Errors/Inspect.antt =====
-- Which exceptions the inspections of the adapter raise.
use bitheim.Prelude.{
  ℕ, String, Bool, true, false, Option, some, none, List, [], ◌≡◌, refl, arith, ◌==◌, not,
  Bool-cases, inl, inr,
}
use bitheim.Prelude.Int.{pos, int_eq}
use bitheim.Prelude.Text.{strip}
use bitheim.Prelude.Lines.{splitlines}
use bitheim.Errors.{
  Exc, Result, ok, err, value_error, is_rpc_error, rpc_malformed_response,
  rpc_response_size_exceeded, on_value_error, or_raise, require, or_raise_errors, require_errors,
  >>=-errors,
}
use bitheim.Value.{Value, obj, as_obj, is_overlong}
use bitheim.Value.Depth.{check_json_depth, check_json_depth_errors}
use bitheim.Value.Keys.{build, build_errors}
use bitheim.Effect.{lift}
use bitheim.Effect.Clock.{RaisesOnly-now}
use bitheim.Effect.Errors.{
  runtime, observation, in_class, RaisesOnly, RaisesOnly-raise, RaisesOnly-lift,
  RaisesOnly-or_raise, RaisesOnly-require, RaisesOnly-passed, RaisesOnly-bind,
  RaisesOnly-handle_with,
}
use bitheim.Domain.Node.{stopped, same_state}
use bitheim.Service.Guards.{command_deadline}
use bitheim.Compose.Docker.{
  Settings, Docker, Completed, Loaded, loaded, not_json, too_long, run_inspect,
}
use bitheim.Compose.Delegation.{
  loads_unique, category_error, parsed_error, error_type, error_line, line_error, delegated_error,
  delegated_output, delegated_result,
}
use bitheim.Compose.Parse.Escape.{
  caught, parse_block_summary_errors, parse_mempool_summary_errors, parse_peers_errors,
}
use bitheim.Compose.Inspect.{
  run_delegated_inspection, require_runtime, delegate, inspect_block, inspect_mempool,
  inspect_peers,
}
use bitheim.Compose.Errors.{
  Decodable, budget-RaisesOnly, build_env-RaisesOnly, run-RaisesOnly, check_runtime-RaisesOnly,
  state-RaisesOnly, RaisesOnly-observation,
}

abbrev IsRpc : Exc → Type 0
IsRpc e = is_rpc_error e ≡ true

category_error-IsRpc : (v : Value) → IsRpc (category_error v)
unfolding category_error
category_error-IsRpc v = ground arith

parsed_error-IsRpc : (r : Result Value) → IsRpc (parsed_error r)
parsed_error-IsRpc (ok (obj m)) = category_error-IsRpc (error_type m)
parsed_error-IsRpc _ = refl

module _ (loads : String → Loaded) where
  line_error-IsRpc : (l : Option String) → IsRpc (line_error loads l)
  unfolding line_error
  line_error-IsRpc none = refl
  line_error-IsRpc (some l) = ground (arith, parsed_error-IsRpc (loads_unique loads l))

  delegated_error-IsRpc : (stderr : String) → IsRpc (delegated_error loads stderr)
  unfolding delegated_error
  delegated_error-IsRpc stderr =
      ground (arith, line_error-IsRpc (error_line (splitlines (strip stderr))))

  loads_unique_errors : (s : String) (e : Exc) → loads_unique loads s ≡ err e → e ≡ value_error
  unfolding loads_unique
  loads_unique_errors s =
      >>=-errors (λ e. e ≡ value_error) _ build (pairs_errors (loads s)) build_errors
    where
      pairs_errors :
          (l : Loaded) (e : Exc)
          → elim l [ loaded v ↦ ok v | not_json ↦ err value_error | too_long ↦ err value_error ]
            ≡ err e
          → e ≡ value_error
      pairs_errors l e h = ground arith

  malformed-IsRpc : (e : Exc) → e ≡ rpc_malformed_response → IsRpc e
  malformed-IsRpc e h = rw h refl

  exceeded-IsRpc : (e : Exc) → e ≡ rpc_response_size_exceeded → IsRpc e
  exceeded-IsRpc e h = rw h refl

  delegated_output_errors : (out : String) (e : Exc) → delegated_output loads out ≡ err e → IsRpc e
  unfolding delegated_output
  delegated_output_errors out =
      >>=-errors IsRpc (require _ _) _ (λ e h. exceeded-IsRpc e (require_errors _ _ e h))
        (λ _.
          >>=-errors IsRpc (on_value_error (loads_unique loads (strip out)) _) _
            (λ e h. malformed-IsRpc e (caught _ e (loads_unique_errors (strip out)) h))
            (λ parsed.
              >>=-errors IsRpc (or_raise (as_obj parsed) _) _
                (λ e h. malformed-IsRpc e (or_raise_errors _ _ e h))
                (λ m.
                  >>=-errors IsRpc (check_json_depth 1 parsed) _
                    (λ e h. malformed-IsRpc e (check_json_depth_errors 1 parsed e h))
                    (λ _ e h. absurd (cc h)))))

  within : (e : Exc) → IsRpc e → in_class observation e ≡ true
  within e h = ground (arith, h)

  delegated_result_errors :
      (c : Completed) (e : Exc) → delegated_result loads c ≡ err e → in_class observation e ≡ true
  unfolding delegated_result
  delegated_result_errors c e h = within e (elim (Bool-cases (c.returncode == pos 0)) [
    | inl q ↦ delegated_output_errors c.stdout e (ground (arith, q, h))
    | inr q ↦ ground (arith, q, h, delegated_error-IsRpc c.stderr)
  ])

module _ {W : Type 0} (d : Docker W) (s : Settings) (doc : Decodable d) where
  delegation-RaisesOnly :
      (node_id : String) (deadline : ℕ) (kind : String) (args : List String)
      → RaisesOnly observation (run_delegated_inspection d s node_id deadline kind args)
  unfolding run_delegated_inspection
  delegation-RaisesOnly node_id deadline kind args =
      RaisesOnly-bind _ _ (budget-RaisesOnly d s doc observation deadline _ refl) (λ r.
        RaisesOnly-bind _ _ (build_env-RaisesOnly d s doc observation node_id) (λ env.
          RaisesOnly-bind _ _
            (run-RaisesOnly d s doc observation (run_inspect node_id kind args) _ r _ _ refl refl
              refl)
            (λ res. RaisesOnly-lift _ (delegated_result_errors d.loads res))))

  require_runtime-RaisesOnly :
      (deadline : ℕ) → RaisesOnly observation (require_runtime d s deadline)
  unfolding require_runtime
  require_runtime-RaisesOnly deadline =
      RaisesOnly-handle_with runtime _ _ (check_runtime-RaisesOnly d s doc deadline)
        (λ e h. RaisesOnly-raise _ (ground (arith, h)))

  delegate-RaisesOnly :
      (node_id : String) (t : ℕ) (kind : String) (printable : Bool) (args : List String)
      → printable ≡ true
      → RaisesOnly observation (delegate d s node_id t kind printable args)
  unfolding delegate
  delegate-RaisesOnly node_id t kind printable args fits =
      RaisesOnly-bind _ _ (RaisesOnly-now d.clock) (λ n.
        RaisesOnly-bind _ _ (require_runtime-RaisesOnly _) (λ _.
          RaisesOnly-bind _ _ (RaisesOnly-observation (state-RaisesOnly d s doc node_id _)) (λ st.
            RaisesOnly-bind _ _ (RaisesOnly-require (not (same_state st stopped)) _ refl) (λ _.
              RaisesOnly-bind _ _ (RaisesOnly-passed printable _ fits)
                (λ _. delegation-RaisesOnly node_id _ kind args)))))

  deadline_errors : (v : Value) → RaisesOnly {W = W} observation (lift (command_deadline v))
  unfolding command_deadline
  deadline_errors v = RaisesOnly-lift _ (λ e h. ground arith)

  malformed : (e : Exc) → e ≡ rpc_malformed_response → in_class observation e ≡ true
  malformed e h = rw h refl

  inspect_block-RaisesOnly :
      (node_id : String) (block_hash height t : Value)
      → is_overlong height ≡ false
      → RaisesOnly observation (inspect_block d s node_id block_hash height t)
  unfolding inspect_block
  inspect_block-RaisesOnly node_id block_hash height t short =
      RaisesOnly-bind _ _ (deadline_errors t) (λ n.
        RaisesOnly-bind _ _ (RaisesOnly-require _ _ refl) (λ _.
          RaisesOnly-bind _ _ (RaisesOnly-or_raise _ _ refl) (λ hash.
            RaisesOnly-bind _ _ (RaisesOnly-or_raise _ _ refl) (λ valid.
              RaisesOnly-bind _ _ (delegate-RaisesOnly node_id n "block" _ _ (rw short refl))
                (λ m. RaisesOnly-lift _ (λ e h. malformed e (parse_block_summary_errors m e h)))))))

  inspect_mempool-RaisesOnly :
      (node_id : String) (t : Value) → RaisesOnly observation (inspect_mempool d s node_id t)
  unfolding inspect_mempool
  inspect_mempool-RaisesOnly node_id t = RaisesOnly-bind _ _ (deadline_errors t) (λ n.
      RaisesOnly-bind _ _ (delegate-RaisesOnly node_id n "mempool" _ [] refl)
        (λ m. RaisesOnly-lift _ (λ e h. malformed e (parse_mempool_summary_errors m e h))))

  inspect_peers-RaisesOnly :
      (node_id : String) (t : Value) → RaisesOnly observation (inspect_peers d s node_id t)
  unfolding inspect_peers
  inspect_peers-RaisesOnly node_id t = RaisesOnly-bind _ _ (deadline_errors t) (λ n.
      RaisesOnly-bind _ _ (delegate-RaisesOnly node_id n "peers" _ [] refl)
        (λ m. RaisesOnly-lift _ (λ e h. malformed e (parse_peers_errors m e h))))

  -- Whatever the container prints, the inspections of a block, of the mempool and of the peers raise `RpcError`s,
  -- `RuntimeUnavailableError` when the state of the containers cannot be looked up, or the `OverflowError` of a timeout
  -- that `float` or the system refuses, if the height is no int of more than 4300 digits, the output of Docker is text and
  -- has no integer that Python refuses to convert, and no argument of a process has a NUL.
  pub inspections-RaisesOnly :
      (node_id : String) (block_hash height t : Value)
      → is_overlong height ≡ false
      → RaisesOnly observation (inspect_block d s node_id block_hash height t)
        × RaisesOnly observation (inspect_mempool d s node_id t)
        × RaisesOnly observation (inspect_peers d s node_id t)
  inspections-RaisesOnly node_id block_hash height t short = (
    inspect_block-RaisesOnly node_id block_hash height t short,
    inspect_mempool-RaisesOnly node_id t,
    inspect_peers-RaisesOnly node_id t,
  )
