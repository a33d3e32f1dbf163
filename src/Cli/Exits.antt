-- ===== src/Cli/Exits.antt =====
-- How `main` ends, when a handler raises among others, and the client in a container.
use bitheim.Prelude.{false, none, some, ◌≡◌, ◌∙◌, refl, sym, arith}
use bitheim.Errors.{Exc}
use bitheim.Effect.{
  Outcome, M, returns, raises, stuck, pure, lift, handle, ◌>>=◌, returned_then, >>=-eq-returns,
}
use bitheim.Service.Observation.{NodeObservationPort}
use bitheim.Bitcoin.Client.{observation, bitcoin_rpc_client}
use bitheim.Cli.{Host, container_client, Printed, Finished, failed, main}

module _ {W A B : Type 0} where
  -- a bind after a run that raises
  pub raised_then :
      (m : M W A) {e : Exc} {w w' : W} (f : A → M W B)
      → m w ≡ raises e w'
      → (m >>= f) w ≡ raises e w'
  unfolding ◌>>=◌
  raised_then m f h = rw (◌>>=◌, h) refl

  -- a bind after a run that is stuck
  stuck_then : (m : M W A) {w w' : W} (f : A → M W B) → m w ≡ stuck w' → (m >>= f) w ≡ stuck w'
  unfolding ◌>>=◌
  stuck_then m f h = rw (◌>>=◌, h) refl

handle_raised :
    {W A : Type 0} (m : M W A) {e : Exc} {w w' : W} (f : Exc → M W A)
    → m w ≡ raises e w'
    → handle m f w ≡ f e w'
unfolding handle
handle_raised m f h = rw (handle, h) refl

handle_returned :
    {W A : Type 0} (m : M W A) {a : A} {w w' : W} (f : Exc → M W A)
    → m w ≡ returns a w'
    → handle m f w ≡ returns a w'
unfolding handle
handle_returned m f h = rw (handle, h) refl

handle_stuck :
    {W A : Type 0} (m : M W A) {w w' : W} (f : Exc → M W A)
    → m w ≡ stuck w'
    → handle m f w ≡ stuck w'
unfolding handle
handle_stuck m f h = rw (handle, h) refl

-- how `main` ends after a handler that has printed something
abbrev pub succeeded : Printed → Finished
succeeded p = record { code = 0; output = some p; delegated = none; own_message = false }

module _ {W : Type 0} (h : Host W) where
  pub main_returned :
      (handler : M W Printed) (p : Printed) (w w₁ : W)
      → handler w ≡ returns p w₁
      → main h handler w ≡ returns (succeeded p) w₁
  unfolding main pure
  main_returned handler p w w₁ r = handle_returned _ (failed h) (returned_then handler _ r)

  main_stuck :
      (handler : M W Printed) (w w₁ : W) → handler w ≡ stuck w₁ → main h handler w ≡ stuck w₁
  unfolding main
  main_stuck handler w w₁ r = handle_stuck _ (failed h) (stuck_then handler _ r)

  -- a handler that raises leaves the exit code to `failed`
  pub main_raised :
      (handler : M W Printed) (e : Exc) (w w₁ : W)
      → handler w ≡ raises e w₁
      → main h handler w ≡ failed h e w₁
  unfolding main
  main_raised handler e w w₁ r = handle_raised _ (failed h) (raised_then handler _ r)

  failed_code : (e : Exc) (w w' : W) (f : Finished) → failed h e w ≡ returns f w' → f.code ≡ 1
  unfolding failed pure
  failed_code e w w' f r = let (_, _, _, r₁) = >>=-eq-returns _ _ r in cc r₁

  -- `main` exits with the code 0 only after a handler that has returned
  pub main_ok :
      (handler : M W Printed) (w w' : W) (f : Finished)
      → main h handler w ≡ returns f w'
      → f.code ≡ 0
      → (p : Printed) × (handler w ≡ returns p w') × (f ≡ succeeded p)
  main_ok handler w w' f r z = ended (handler w) refl
    where
      ended :
          (o : Outcome W Printed)
          → handler w ≡ o
          → (p : Printed) × (handler w ≡ returns p w') × (f ≡ succeeded p)
      ended (returns p u) e =
          (p, cc (e, r, main_returned handler p w u e), cc (r, main_returned handler p w u e))
      ended (raises x u) e =
          absurd (omega (arith, z, failed_code x u w' f (sym (main_raised handler x w u e) ∙ r)))
      ended (stuck u) e = absurd (cc (r, main_stuck handler w u e))

-- in a container the constructor of the client accepts its arguments
pub client_made :
    {W A : Type 0} (h : Host W) (f : NodeObservationPort W → M W A) (w w' : W) (a : A)
    → (container_client h >>= f) w ≡ returns a w'
    → f (observation h.client) w ≡ returns a w'
unfolding container_client bitcoin_rpc_client lift ◌>>=◌
client_made h f w w' a e = e
