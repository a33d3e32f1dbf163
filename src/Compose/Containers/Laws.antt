-- ===== src/Compose/Containers/Laws.antt =====
-- What state the output of `docker compose ps` can stand for.
use bitheim.Prelude.{
  String, some, none, List, [], ◌∷◌, ◌≡◌, refl, arith, ◌⊎◌, inl, inr, Bool-cases, string_eq,
}
use bitheim.Prelude.Text.{strip, is_empty, is_prefix}
use bitheim.Prelude.Lines.{splitlines}
use bitheim.Errors.{Exc, ok, err}
use bitheim.Value.{Value, Fields}
use bitheim.Domain.Node.{State, stopped, starting, unhealthy, unknown}
use bitheim.Compose.Docker.{Loaded, loaded, not_json, too_long}
use bitheim.Compose.Containers.{
  Listing, from_array, from_lines, containers, service_state, find_service, listed_state,
  state_of_output,
}

-- a state that is seen from outside the node
abbrev pub IsContainerState : State → Type 0
IsContainerState st = (st ≡ stopped) ⊎ (st ≡ starting) ⊎ (st ≡ unhealthy) ⊎ (st ≡ unknown)

module _ (show : Value → String) where
  service_state-IsContainerState : (c : Fields) → IsContainerState (service_state show c)
  unfolding service_state
  service_state-IsContainerState c = ground arith

  find_service-IsContainerState : (cs : List Fields) → IsContainerState (find_service show cs)
  unfolding find_service
  find_service-IsContainerState [] = inr (inr (inr refl))
  find_service-IsContainerState (c ∷ cs) =
      ground (arith, service_state-IsContainerState c, find_service-IsContainerState cs)

  listed_state-IsContainerState :
      (l : Listing) (st : State) → listed_state show l ≡ ok st → IsContainerState st
  unfolding listed_state
  listed_state-IsContainerState (err e) st h = absurd (cc h)
  listed_state-IsContainerState (ok none) st h = inr (inr (inr (cc h)))
  listed_state-IsContainerState (ok (some [])) st h = inl (cc h)
  listed_state-IsContainerState (ok (some (c ∷ cs))) st h =
      ground (arith, find_service-IsContainerState (c ∷ cs))

  module _ (loads : String → Loaded) where
    -- Whatever `docker compose ps` prints, the state is stopped, starting, unhealthy or unknown: the containers alone
    -- never make a node healthy or incompatible.
    pub state_of_output-IsContainerState :
        (stdout : String) (st : State)
        → state_of_output show loads stdout ≡ ok st
        → IsContainerState st
    unfolding state_of_output
    state_of_output-IsContainerState stdout st h = elim (Bool-cases (is_empty (strip stdout))) [
      | inl e ↦ ground (arith, e)
      | inr e ↦
          listed_state-IsContainerState (containers loads (strip stdout)) st (ground (arith, e))
    ]

    module _ (short : (s : String) → ¬ (loads s ≡ too_long)) where
      from_array_ok : (l : Loaded) (e : Exc) → ¬ (l ≡ too_long) → ¬ (from_array l ≡ err e)
      unfolding from_array
      from_array_ok (loaded v) e n h = cc h
      from_array_ok not_json e n h = cc h
      from_array_ok too_long e n h = n refl

      from_lines_ok : (lines : List String) (e : Exc) → ¬ (from_lines loads lines ≡ err e)
      unfolding from_lines
      from_lines_ok [] e h = cc h
      from_lines_ok (line ∷ lines) e h = ground (arith, from_lines_ok lines e, short (strip line))

      containers_ok : (stdout : String) (e : Exc) → ¬ (containers loads stdout ≡ err e)
      unfolding containers
      containers_ok stdout e = elim (Bool-cases (is_prefix "[" stdout)) [
        | inl q ↦ rw q (from_array_ok (loads stdout) e (short stdout))
        | inr q ↦ rw q (from_lines_ok (splitlines stdout) e)
      ]

      listed_ok : (l : Listing) (e : Exc) → ¬ (l ≡ err e) → ¬ (listed_state show l ≡ err e)
      unfolding listed_state
      listed_ok (ok none) e n h = cc h
      listed_ok (ok (some cs)) e n h = cc h
      listed_ok (err x) e n h = n (cc h)

      -- Without an integer that is too long, reading the output raises nothing.
      pub state_of_output_ok :
          (stdout : String) (e : Exc) → ¬ (state_of_output show loads stdout ≡ err e)
      unfolding state_of_output
      state_of_output_ok stdout e = elim (Bool-cases (is_empty (strip stdout))) [
        | inl q ↦ rw q (λ h. cc h)
        | inr q ↦ rw q (listed_ok _ e (containers_ok (strip stdout) e))
      ]
