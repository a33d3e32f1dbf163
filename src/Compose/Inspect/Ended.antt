-- ===== src/Compose/Inspect/Ended.antt =====
-- What Docker has done when an inspection on a host has got an output.
use bitheim.Prelude.{ℕ, Bool, String, Option, List, ◌≡◌, refl, ◌∙◌, ap, sym, arith}
use mathlib.Core.Path.{subst}
use bitheim.Prelude.Int.{pos, int_eq}
use bitheim.Errors.{Exc, ok, ok-injective, ◌>>=◌ as bind}
use bitheim.Value.{Fields}
use bitheim.Effect.{ask}
use bitheim.Effect.Results.{Returns, Returns-bind, Returns-bind_with, Returns-lift}
use bitheim.Compose.Docker.{
  Docker, Settings, Command, run_inspect, Completion, completed, timed_out, file_not_found,
  os_error, undecodable, overlong, Completed, Loaded, argv, result_of, run,
}
use bitheim.Compose.Delegation.{delegated_result}
use bitheim.Compose.Delegation.Snapshots.{Snapshot}
use bitheim.Compose.Delegation.RoundTrip.{ReadBack, parse_like}
use bitheim.Compose.Inspect.{run_delegated_inspection, delegate}

completed_eq :
    (late broken : Exc) (c : Completion) (x : Completed)
    → result_of late broken c ≡ ok x
    → c ≡ completed x
completed_eq late broken (completed y) x e = ap completed (ok-injective e)
completed_eq late broken timed_out x e = absurd (cc e)
completed_eq late broken file_not_found x e = absurd (cc e)
completed_eq late broken os_error x e = absurd (cc e)
completed_eq late broken undecodable x e = absurd (cc e)
completed_eq late broken overlong x e = absurd (cc e)

module _ {V : Type 0} (d : Docker V) (s : Settings) where
  -- Docker has run the command, which has ended so.
  abbrev pub Ended : Command → Completed → Type 0
  Ended cmd c =
      (env : Option (List (String × String))) × (t : ℕ) × (u : V) × ((d.process (argv s cmd) env t
          u).0
        ≡ completed c)

  -- a run of the command has given the completion
  abbrev Asked : Command → Option (List (String × String)) → ℕ → Completion → Type 0
  Asked cmd env t c = (u : V) × ((d.process (argv s cmd) env t u).0 ≡ c)

  process-Asked :
      (cmd : Command) (env : Option (List (String × String))) (t : ℕ)
      → Returns (Asked cmd env t) (ask (d.process (argv s cmd) env t))
  unfolding ask
  process-Asked cmd env t = record { at = λ w. (w, refl) }

  run-Ended :
      (cmd : Command) (env : Option (List (String × String))) (t : ℕ) (late broken : Exc)
      → Returns (Ended cmd) (run d s cmd env t late broken)
  unfolding run argv
  run-Ended cmd env t late broken =
      Returns-bind_with _ _ (process-Asked cmd env t)
        (λ c (u, e). Returns-lift _ (λ x h. (env, t, u, e ∙ completed_eq late broken c x h)))

  -- The fields are what the host has read of the output of the command.
  abbrev pub IsOutput : Command → Fields → Type 0
  IsOutput cmd m = (c : Completed) × Ended cmd c × (delegated_result d.loads c ≡ ok m)

  pub delegate-IsOutput :
      (id kind : String) (t : ℕ) (printable : Bool) (extra : List String)
      → Returns (IsOutput (run_inspect id kind extra)) (delegate d s id t kind printable extra)
  unfolding delegate run_delegated_inspection
  delegate-IsOutput id kind t printable extra = Returns-bind _ _ (λ now. Returns-bind _ _ (λ _.
      Returns-bind _ _ (λ _. Returns-bind _ _ (λ state. Returns-bind _ _ (λ _.
        Returns-bind _ _ (λ r. Returns-bind _ _ (λ env.
          Returns-bind_with _ _ (run-Ended _ _ _ _ _)
            (λ c ended. Returns-lift _ (λ m e. (c, ended, e))))))))))

-- an inspection that has ended well has ended with the code 0
pub ended_well :
    (loads : String → Loaded) (c : Completed) (m : Fields)
    → delegated_result loads c ≡ ok m
    → c.returncode ≡ pos 0
unfolding delegated_result
ended_well loads c m e = ground arith

pub same_snapshot :
    (loads : String → Loaded) (c : Completed) (m : Fields) (x y : Snapshot)
    → delegated_result loads c ≡ ok m
    → ReadBack loads c x
    → parse_like x m ≡ ok y
    → x ≡ y
same_snapshot loads c m x y e read parsed =
    ok-injective (sym (subst (λ o. bind o (parse_like x) ≡ ok x) e read) ∙ parsed)
