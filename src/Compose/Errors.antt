-- ===== src/Compose/Errors.antt =====
-- Which exceptions the parts raise that the operations of the adapter share.
pub mod Preflight
pub mod Lifecycle
pub mod Inspect
use bitheim.Prelude.{
  ℕ, ◌+◌, String, Bool, true, Option, some, none, List, [], ◌∷◌, ◌≡◌, refl, arith, ltb, ◌==◌,
  nat_eq,
}
use bitheim.Prelude.Int.{pos, int_eq}
use bitheim.Errors.{
  Exc, err, is_runtime_unavailable, is_lifecycle_error, is_overflow_error, runtime_unavailable,
  lifecycle_error, overflow_error, Result,
}
use bitheim.Value.{Value}
use bitheim.Effect.{M, lift, ask, ◌>>=◌}
use bitheim.Effect.Clock.{now, RaisesOnly-now}
use bitheim.Effect.Errors.{
  Class, runtime, lifecycle, observation, in_class, RaisesOnly, RaisesOnly-pure, RaisesOnly-raise,
  RaisesOnly-ask, RaisesOnly-lift, RaisesOnly-or_raise, RaisesOnly-require, RaisesOnly-if,
  RaisesOnly-bind, RaisesOnly-handle_with, RaisesOnly-widen, RaisesOnly-ask_with,
}
use bitheim.Compose.Docker.{
  Settings, Docker, Command, Completion, completed, timed_out, file_not_found, os_error,
  undecodable, overlong, IsText, Completed, too_long, argv, info, ps, budget, remaining, build_env,
  run, result_of,
}
use bitheim.Compose.Runtime.{check_docker_runtime_available}
use bitheim.Compose.Containers.{state_of_output, get_lifecycle_state_deadline}
use bitheim.Compose.Containers.Laws.{state_of_output_ok}

-- What is assumed of Docker and of `json.loads`: the output of a process is text in the encoding of the locale, no
-- argument of a process has a NUL, and no integer in the output has more digits than Python converts.
pub record Decodable {W : Type 0} (d : Docker W) : Type 0 where
  pub process :
      (args : List String) (env : Option (List (String × String))) (t : ℕ) (w : W)
      → IsText (d.process args env t w).0
  pub loads : (s : String) → ¬ (d.loads s ≡ too_long)

module _ {W : Type 0} (d : Docker W) (s : Settings) (doc : Decodable d) where
  module _ (k : Class) where
    pub budget-RaisesOnly :
        (deadline : ℕ) (e : Exc) → in_class k e ≡ true → RaisesOnly k (budget d deadline e)
    unfolding budget remaining
    budget-RaisesOnly deadline e h =
        RaisesOnly-bind _ _ (RaisesOnly-bind _ _ (RaisesOnly-now d.clock) (λ t. RaisesOnly-pure _))
          (λ r. RaisesOnly-bind _ _ (RaisesOnly-require (ltb 0 r) e h) (λ _. RaisesOnly-pure r))

    pub build_env-RaisesOnly : (node_id : String) → RaisesOnly k (build_env d s node_id)
    unfolding build_env
    build_env-RaisesOnly node_id = RaisesOnly-bind _ _ (RaisesOnly-ask _) (λ path.
        RaisesOnly-bind _ _ (RaisesOnly-ask _)
          (λ home. RaisesOnly-bind _ _ (RaisesOnly-ask _) (λ host. RaisesOnly-pure _)))

    result-RaisesOnly :
        (late broken : Exc) (c : Completion)
        → in_class k late ≡ true
        → in_class k broken ≡ true
        → in_class k overflow_error ≡ true
        → IsText c
        → RaisesOnly {W = W} k (lift (result_of late broken c))
    result-RaisesOnly late broken c l b o n = RaisesOnly-lift _ (result_class c n)
      where
        result_class :
            (c : Completion)
            → IsText c
            → (e : Exc) → result_of late broken c ≡ err e
            → in_class k e ≡ true
        result_class (completed r) n e h = absurd (cc h)
        result_class timed_out n e h = ground (arith, l)
        result_class file_not_found n e h = ground (arith, b)
        result_class os_error n e h = ground (arith, b)
        result_class undecodable n e h = absurd n
        result_class overlong n e h = ground (arith, o)

    pub run-RaisesOnly :
        (cmd : Command) (env : Option (List (String × String))) (r : ℕ) (late broken : Exc)
        → in_class k late ≡ true
        → in_class k broken ≡ true
        → in_class k overflow_error ≡ true
        → RaisesOnly k (run d s cmd env r late broken)
    unfolding run
    run-RaisesOnly cmd env r late broken l b o =
        RaisesOnly-ask_with IsText _ _ (doc.process (argv s cmd) env r)
          (λ c n. result-RaisesOnly late broken c l b o n)

  pub check_runtime-RaisesOnly :
      (deadline : ℕ) → RaisesOnly runtime (check_docker_runtime_available d s deadline)
  unfolding check_docker_runtime_available
  check_runtime-RaisesOnly deadline = RaisesOnly-bind _ _ (RaisesOnly-ask _) (λ found.
      RaisesOnly-bind _ _ (RaisesOnly-require found _ refl) (λ _.
        RaisesOnly-bind _ _ (budget-RaisesOnly runtime deadline _ refl) (λ r.
          RaisesOnly-bind _ _ (run-RaisesOnly runtime info none r _ _ refl refl refl)
            (λ res. RaisesOnly-require (res.returncode == pos 0) _ refl))))

  state_errors :
      (k : Class) (stdout : String) (e : Exc)
      → state_of_output d.show d.loads stdout ≡ err e
      → in_class k e ≡ true
  state_errors k stdout e h = absurd (state_of_output_ok d.show d.loads doc.loads stdout e h)

  pub state-RaisesOnly :
      (node_id : String) (deadline : ℕ)
      → RaisesOnly runtime (get_lifecycle_state_deadline d s node_id deadline)
  unfolding get_lifecycle_state_deadline
  state-RaisesOnly node_id deadline = RaisesOnly-bind _ _ (check_runtime-RaisesOnly deadline) (λ _.
      RaisesOnly-bind _ _ (build_env-RaisesOnly runtime node_id) (λ env.
        RaisesOnly-bind _ _ (budget-RaisesOnly runtime deadline _ refl) (λ r.
          RaisesOnly-bind _ _ (run-RaisesOnly runtime (ps node_id) _ r _ _ refl refl refl) (λ res.
            RaisesOnly-bind _ _ (RaisesOnly-require (res.returncode == pos 0) _ refl)
              (λ _. RaisesOnly-lift _ (state_errors runtime res.stdout))))))

within_lifecycle : (e : Exc) → in_class runtime e ≡ true → in_class lifecycle e ≡ true
within_lifecycle e h = ground arith

within_observation : (e : Exc) → in_class runtime e ≡ true → in_class observation e ≡ true
within_observation e h = ground arith

module _ {W A : Type 0} {m : M W A} where
  pub RaisesOnly-lifecycle : RaisesOnly runtime m → RaisesOnly lifecycle m
  RaisesOnly-lifecycle r = RaisesOnly-widen runtime lifecycle m within_lifecycle r

  pub RaisesOnly-observation : RaisesOnly runtime m → RaisesOnly observation m
  RaisesOnly-observation r = RaisesOnly-widen runtime observation m within_observation r
