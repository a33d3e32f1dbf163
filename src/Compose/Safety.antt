-- ===== src/Compose/Safety.antt =====
-- What the lifecycle operations of the adapter return.
use mathlib.Core.Path.{subst}
use bitheim.Prelude.{
  ℕ, String, true, some, none, ◌≡◌, refl, arith, ◌⊎◌, inl, inr, ◌==◌, nat_eq, Bool-cases, ap,
  eq_of_beq, string_eq,
}
use bitheim.Prelude.Int.{ℤ, pos, int_eq}
use bitheim.Prelude.Text.{strip, is_empty}
use bitheim.Errors.{ok, ok-injective}
use bitheim.Value.{
  lone_surrogate, Value, null, bool, int, float, decimal, str, arr, obj, Fields, get, is_text,
  as_text, equals, int_or_bool,
}
use bitheim.Effect.{returns}
use bitheim.Effect.Results.{
  Returns, Returns-pure, Returns-if, Returns-bind, Returns-bind_with, Returns-lift, Returns-at,
}
use bitheim.Domain.Node.{State, healthy, stopped, same_state, Health, Status}
use bitheim.Service.Lifecycle.{start_node}
use bitheim.Service.Lifecycle.Verified.{Reports, start_node-Shows}
use bitheim.Compose.Docker.{
  Settings, Docker, Completion, completed, timed_out, file_not_found, os_error, undecodable,
  overlong, Loaded, loaded, not_json, too_long,
}
use bitheim.Compose.Health.{
  enforce, check_members, check_health, check_probe, check_loaded, parse_delegated_health,
  failed_probe, probe_result,
}
use bitheim.Compose.Lifecycle.{
  run_probe, probe_running, probe_health, get_status, lifecycle_port, combined,
}

-- The chain is regtest and the version is the expected one, or is missing, as it is when it was printed as a float.
abbrev pub IsVerified : Health → Type 0
IsVerified h = (h.chain ≡ some "regtest") × ((h.version ≡ some (pos 310100)) ⊎ (h.version ≡ none))

abbrev Honest : Health → Type 0
Honest h = h.state ≡ healthy → IsVerified h

is_text-as_text : (v : Value) (s : String) → is_text v s ≡ true → as_text v ≡ some s
is_text-as_text (str t) s h = ap some (eq_of_beq t s h)
is_text-as_text lone_surrogate s h = absurd (cc h)
is_text-as_text null s h = absurd (cc h)
is_text-as_text (bool b) s h = absurd (cc h)
is_text-as_text (int n) s h = absurd (cc h)
is_text-as_text (float x) s h = absurd (cc h)
is_text-as_text (decimal x) s h = absurd (cc h)
is_text-as_text (arr vs) s h = absurd (cc h)
is_text-as_text (obj m) s h = absurd (cc h)

equals-int_or_bool :
    (v : Value) (n : ℤ) → equals v n ≡ true → (int_or_bool v ≡ some n) ⊎ (int_or_bool v ≡ none)
equals-int_or_bool (int k) n h = inl (ap some (eq_of_beq k n h))
equals-int_or_bool (bool b) n h = inl (ap some (eq_of_beq _ n h))
equals-int_or_bool _ n h = inr refl

module _ (show : Value → String) where
  enforce-Honest : (m : Fields) (st : State) → Honest (enforce show m st)
  unfolding enforce
  enforce-Honest m st h = ground (
    arith,
    is_text-as_text (get "chain" m) "regtest",
    equals-int_or_bool (get "version" m) (pos 310100),
  )

  check_health-Honest : (v : Value) → Honest (check_health show v)
  unfolding check_health check_members
  check_health-Honest (obj m) = enforce-Honest m _
  check_health-Honest _ = λ h. absurd (cc h)

  check_probe-Honest : (v : Value) → Honest (check_probe show v)
  unfolding check_probe
  check_probe-Honest (obj m) = check_health-Honest _
  check_probe-Honest _ = λ h. absurd (cc h)

  module _ (loads : String → Loaded) where
    check_loaded-Honest : (l : Loaded) (h : Health) → check_loaded show l ≡ ok h → Honest h
    unfolding check_loaded
    check_loaded-Honest (loaded v) h e q = subst Honest (ok-injective e) (check_probe-Honest v) q
    check_loaded-Honest not_json h e q = ground (arith, ok-injective e)
    check_loaded-Honest too_long h e q = absurd (cc e)

    -- A delegated health report that the adapter accepts as healthy names the chain regtest and the version 310100,
    -- except that the version is missing from it when it was printed as the float 310100.0.
    pub parse_delegated_health-IsVerified :
        (stdout : String) (h : Health)
        → parse_delegated_health show loads stdout ≡ ok h
        → h.state ≡ healthy
        → IsVerified h
    unfolding parse_delegated_health
    parse_delegated_health-IsVerified stdout h e q = elim (Bool-cases (is_empty (strip stdout))) [
      | inl b ↦ ground (arith, b, e)
      | inr b ↦ check_loaded-Honest (loads (strip stdout)) h (ground (arith, b, e)) q
    ]

    probe_result-Honest :
        (c : Completion) (h : Health) → probe_result show loads c ≡ ok h → Honest h
    unfolding probe_result failed_probe
    probe_result-Honest (completed c) h e q = elim (Bool-cases (c.returncode == pos 0)) [
      | inl b ↦ parse_delegated_health-IsVerified c.stdout h (ground (arith, b, e)) q
      | inr b ↦ ground (arith, b, e)
    ]
    probe_result-Honest timed_out h e q = ground arith
    probe_result-Honest file_not_found h e q = ground arith
    probe_result-Honest os_error h e q = ground arith
    probe_result-Honest undecodable h e q = absurd (cc e)
    probe_result-Honest overlong h e q = absurd (cc e)

module _ {W : Type 0} (d : Docker W) (s : Settings) where
  run_probe-Honest : (node_id : String) (r : ℕ) → Returns Honest (run_probe d s node_id r)
  unfolding run_probe
  run_probe-Honest node_id r =
      Returns-bind _ _
        (λ env. Returns-bind _ _ (λ c. Returns-lift _ (probe_result-Honest d.show d.loads c)))

  running-Honest :
      (node_id : String) (deadline : ℕ) → Returns Honest (probe_running d s node_id deadline)
  unfolding probe_running
  running-Honest node_id deadline = Returns-bind _ _ (λ st.
      Returns-if (same_state st stopped) _ _ (λ _. Returns-pure _ (λ h. absurd (cc h)))
        (λ _. Returns-bind _ _ (λ r.
          Returns-if (r == 0) _ _ (λ _. Returns-pure _ (λ h. absurd (cc h)))
            (λ _. run_probe-Honest node_id r))))

  probe_health-Honest : (node_id : String) (t : ℕ) → Returns Honest (probe_health d s node_id t)
  unfolding probe_health
  probe_health-Honest node_id t =
      Returns-if (t == 0) _ _ (λ _. Returns-pure _ (λ h. absurd (cc h)))
        (λ _. Returns-bind _ _ (λ n. Returns-bind _ _ (λ available.
          Returns-if available _ _ (λ _. running-Honest node_id _)
            (λ _. Returns-pure _ (λ h. absurd (cc h))))))

  combined-Honest :
      (node_id : String) (st : State) (h : Health)
      → Honest h
      → (combined d s node_id st h).state ≡ healthy
      → IsVerified h
  combined-Honest node_id st h p e = ground (arith, p)

  get_status-Honest :
      (node_id : String)
      → Returns (λ st. st.state ≡ healthy → IsVerified st.health) (get_status d s node_id)
  unfolding get_status
  get_status-Honest node_id = Returns-bind _ _ (λ st.
      Returns-if (same_state st stopped) _ _ (λ _. Returns-pure _ (λ h. absurd (cc h)))
        (λ _.
          Returns-bind_with _ _ (probe_health-Honest node_id _)
            (λ h p. Returns-pure _ (combined-Honest node_id st h p))))

  reports : Reports IsVerified (lifecycle_port d s)
  reports = record { probe_health = probe_health-Honest; get_status = get_status-Honest }

  -- A start that returns, over Docker, has been shown a node on the chain regtest, whatever Docker and the container
  -- answer: the health in its status names that chain, and the version 310100 unless the version is missing.
  pub started-IsVerified :
      (node_id timeout : Value) (w w' : W) (st : Status)
      → start_node d.clock (lifecycle_port d s) node_id timeout w ≡ returns st w'
      → IsVerified st.health
  started-IsVerified node_id timeout w w' st h =
      Returns-at (start_node-Shows d.clock (lifecycle_port d s) IsVerified reports node_id timeout)
        w w' st h
