-- ===== src/Compose/Errors/Lifecycle.antt =====
-- Which exceptions the lifecycle operations of the adapter raise, alone and under the service.
use bitheim.Prelude.{ℕ, String, true, false, ◌≡◌, refl, arith, ◌==◌, nat_eq, string_eq}
use bitheim.Prelude.Int.{pos, int_eq}
use bitheim.Prelude.Text.{strip}
use bitheim.Errors.{Exc, err, is_runtime_unavailable}
use bitheim.Value.{Value}
use bitheim.Effect.Clock.{RaisesOnly-now}
use bitheim.Effect.Errors.{
  runtime, lifecycle, in_class, RaisesOnly, RaisesOnly-pure, RaisesOnly-raise, RaisesOnly-ask,
  RaisesOnly-lift, RaisesOnly-require, RaisesOnly-if, RaisesOnly-bind, RaisesOnly-handle_with,
  RaisesOnly-ask_with,
}
use bitheim.Domain.Node.{stopped, same_state}
use bitheim.Service.Lifecycle.Safety.{RaisesLifecycle}
use bitheim.Compose.Docker.{
  Settings, Docker, Completion, completed, timed_out, file_not_found, os_error, undecodable,
  overlong, IsText, Loaded, loaded, not_json, too_long, up, stop_services, remaining,
}
use bitheim.Compose.Runtime.{locate_bitheim_build_context}
use bitheim.Compose.Health.{parse_delegated_health, check_loaded, probe_result}
use bitheim.Compose.Lifecycle.{
  compose_up, start, stop_project, stop, get_lifecycle_state, runtime_available, run_probe,
  probe_running, probe_health, get_status, lifecycle_port,
}
use bitheim.Compose.Errors.Preflight.{
  resource_dir-RaisesOnly, collision-RaisesOnly, image-RaisesOnly,
}
use bitheim.Compose.Errors.{
  Decodable, budget-RaisesOnly, build_env-RaisesOnly, run-RaisesOnly, check_runtime-RaisesOnly,
  state-RaisesOnly, RaisesOnly-lifecycle,
}

module _ (show : Value → String) (loads : String → Loaded)
    (short : (s : String) → ¬ (loads s ≡ too_long)) where
  check_loaded_ok : (l : Loaded) (e : Exc) → ¬ (l ≡ too_long) → ¬ (check_loaded show l ≡ err e)
  unfolding check_loaded
  check_loaded_ok (loaded v) e n h = cc h
  check_loaded_ok not_json e n h = cc h
  check_loaded_ok too_long e n h = n refl

  parse_health_ok :
      (stdout : String) (e : Exc) → ¬ (parse_delegated_health show loads stdout ≡ err e)
  unfolding parse_delegated_health
  parse_health_ok stdout e h =
      ground (arith, check_loaded_ok (loads (strip stdout)) e (short (strip stdout)))

  probe_result_errors :
      (c : Completion) (e : Exc)
      → IsText c
      → probe_result show loads c ≡ err e
      → in_class runtime e ≡ true
  unfolding probe_result
  probe_result_errors (completed c) e n h = absurd (parse_health_ok c.stdout e (ground arith))
  probe_result_errors timed_out e n h = absurd (cc h)
  probe_result_errors file_not_found e n h = absurd (cc h)
  probe_result_errors os_error e n h = absurd (cc h)
  probe_result_errors undecodable e n h = absurd n
  probe_result_errors overlong e n h = ground arith

module _ {W : Type 0} (d : Docker W) (s : Settings) (doc : Decodable d) where
  up-RaisesOnly :
      (node_id : String) (deadline : ℕ) → RaisesOnly lifecycle (compose_up d s node_id deadline)
  unfolding compose_up
  up-RaisesOnly node_id deadline =
      RaisesOnly-bind _ _ (build_env-RaisesOnly d s doc lifecycle node_id) (λ env.
        RaisesOnly-bind _ _ (budget-RaisesOnly d s doc lifecycle deadline _ refl) (λ r.
          RaisesOnly-bind _ _ (run-RaisesOnly d s doc lifecycle (up node_id) _ r _ _ refl refl refl)
            (λ res. RaisesOnly-require (res.returncode == pos 0) _ refl)))

  start-RaisesOnly :
      (node_id : String) (timeout : ℕ) → RaisesOnly lifecycle (start d s node_id timeout)
  unfolding start locate_bitheim_build_context
  start-RaisesOnly node_id timeout = RaisesOnly-bind _ _ (RaisesOnly-now d.clock) (λ t.
      RaisesOnly-bind _ _ (RaisesOnly-lifecycle (check_runtime-RaisesOnly d s doc _)) (λ _.
        RaisesOnly-bind _ _ (collision-RaisesOnly d s doc node_id _) (λ _.
          RaisesOnly-bind _ _ (RaisesOnly-lifecycle (resource_dir-RaisesOnly d s doc)) (λ dir.
            RaisesOnly-bind _ _ (RaisesOnly-lifecycle (image-RaisesOnly d s doc _ _ _)) (λ _.
              RaisesOnly-bind _ _
                (RaisesOnly-bind _ _ (RaisesOnly-ask _) (λ found. RaisesOnly-pure _))
                (λ context.
                  RaisesOnly-bind _ _ (RaisesOnly-lifecycle (image-RaisesOnly d s doc _ _ _))
                    (λ _. up-RaisesOnly node_id _)))))))

  stop_project-RaisesOnly :
      (node_id : String) (deadline grace : ℕ)
      → RaisesOnly lifecycle (stop_project d s node_id deadline grace)
  unfolding stop_project
  stop_project-RaisesOnly node_id deadline grace =
      RaisesOnly-bind _ _ (build_env-RaisesOnly d s doc lifecycle node_id) (λ env.
        RaisesOnly-bind _ _ (budget-RaisesOnly d s doc lifecycle deadline _ refl) (λ r.
          RaisesOnly-bind _ _
            (run-RaisesOnly d s doc lifecycle (stop_services node_id grace) _ r _ _ refl refl refl)
            (λ res. RaisesOnly-bind _ _ (RaisesOnly-require (res.returncode == pos 0) _ refl) (λ _.
              RaisesOnly-bind _ _ (RaisesOnly-lifecycle (state-RaisesOnly d s doc node_id deadline))
                (λ st. RaisesOnly-require (same_state st stopped) _ refl)))))

  stop-RaisesOnly :
      (node_id : String) (timeout : ℕ) → RaisesOnly lifecycle (stop d s node_id timeout)
  unfolding stop
  stop-RaisesOnly node_id timeout = RaisesOnly-bind _ _ (RaisesOnly-now d.clock) (λ t.
      RaisesOnly-bind _ _ (RaisesOnly-lifecycle (check_runtime-RaisesOnly d s doc _)) (λ _.
        RaisesOnly-bind _ _ (RaisesOnly-lifecycle (state-RaisesOnly d s doc node_id _)) (λ st.
          RaisesOnly-if (same_state st stopped) _ _ (λ _. RaisesOnly-pure tt)
            (λ _.
              RaisesOnly-bind _ _ (budget-RaisesOnly d s doc lifecycle _ _ refl)
                (λ r. stop_project-RaisesOnly node_id _ _)))))

  available-RaisesOnly : (deadline : ℕ) → RaisesOnly runtime (runtime_available d s deadline)
  unfolding runtime_available
  available-RaisesOnly deadline =
      RaisesOnly-handle_with runtime _ _
        (RaisesOnly-bind _ _ (check_runtime-RaisesOnly d s doc deadline)
          (λ _. RaisesOnly-pure true))
        (λ e h.
          RaisesOnly-if (is_runtime_unavailable e) _ _ (λ _. RaisesOnly-pure false)
            (λ _. RaisesOnly-raise e h))

  run_probe-RaisesOnly : (node_id : String) (r : ℕ) → RaisesOnly runtime (run_probe d s node_id r)
  unfolding run_probe
  run_probe-RaisesOnly node_id r =
      RaisesOnly-bind _ _ (build_env-RaisesOnly d s doc runtime node_id) (λ env.
        RaisesOnly-ask_with IsText _ _ (doc.process _ _ r)
          (λ c n. RaisesOnly-lift _ (λ e h. probe_result_errors d.show d.loads doc.loads c e n h)))

  running-RaisesOnly :
      (node_id : String) (deadline : ℕ) → RaisesOnly runtime (probe_running d s node_id deadline)
  unfolding probe_running remaining
  running-RaisesOnly node_id deadline =
      RaisesOnly-bind _ _ (state-RaisesOnly d s doc node_id deadline) (λ st.
        RaisesOnly-if (same_state st stopped) _ _ (λ _. RaisesOnly-pure _)
          (λ _.
            RaisesOnly-bind _ _
              (RaisesOnly-bind _ _ (RaisesOnly-now d.clock) (λ t. RaisesOnly-pure _))
              (λ r.
                RaisesOnly-if (r == 0) _ _ (λ _. RaisesOnly-pure _)
                  (λ _. run_probe-RaisesOnly node_id r))))

  probe_health-RaisesOnly :
      (node_id : String) (timeout : ℕ) → RaisesOnly runtime (probe_health d s node_id timeout)
  unfolding probe_health
  probe_health-RaisesOnly node_id timeout =
      RaisesOnly-if (timeout == 0) _ _ (λ _. RaisesOnly-pure _)
        (λ _. RaisesOnly-bind _ _ (RaisesOnly-now d.clock) (λ t.
          RaisesOnly-bind _ _ (available-RaisesOnly _) (λ available.
            RaisesOnly-if available _ _ (λ _. running-RaisesOnly node_id _)
              (λ _. RaisesOnly-pure _))))

  get_lifecycle_state-RaisesOnly :
      (node_id : String) → RaisesOnly runtime (get_lifecycle_state d s node_id)
  unfolding get_lifecycle_state
  get_lifecycle_state-RaisesOnly node_id =
      RaisesOnly-bind _ _ (RaisesOnly-now d.clock) (λ t. state-RaisesOnly d s doc node_id _)

  get_status-RaisesOnly : (node_id : String) → RaisesOnly runtime (get_status d s node_id)
  unfolding get_status
  get_status-RaisesOnly node_id =
      RaisesOnly-bind _ _ (get_lifecycle_state-RaisesOnly node_id) (λ st.
        RaisesOnly-if (same_state st stopped) _ _ (λ _. RaisesOnly-pure _)
          (λ _. RaisesOnly-bind _ _ (probe_health-RaisesOnly node_id _) (λ h. RaisesOnly-pure _)))

  -- All operations of the adapter raise `LifecycleError`s, or the `OverflowError` of a timeout that is too long for the
  -- system, as the service expects of its port, if the output of Docker is text and has no integer that Python refuses to
  -- convert, and no argument of a process has a NUL.
  pub lifecycle_port-RaisesLifecycle : RaisesLifecycle (lifecycle_port d s)
  lifecycle_port-RaisesLifecycle = record {
    start = start-RaisesOnly;
    stop = stop-RaisesOnly;
    probe_health = λ id t. RaisesOnly-lifecycle (probe_health-RaisesOnly id t);
    get_status = λ id. RaisesOnly-lifecycle (get_status-RaisesOnly id);
    get_lifecycle_state = λ id. RaisesOnly-lifecycle (get_lifecycle_state-RaisesOnly id);
  }
