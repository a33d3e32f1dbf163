-- ===== src/Effect/Ends.antt =====
-- Which actions end without using up the fuel of a loop, one rule for each way to build an action.
use bitheim.Prelude.{◌≡◌, refl, Bool, true, false, if◌then◌else◌}
use bitheim.Errors.{Exc, Result, ok, err}
use bitheim.Effect.{Outcome, returns, raises, stuck, M, IsStuck, pure, raise, lift, ask, ◌>>=◌}

-- No run of `m` is stuck.
pub record Ends {W A : Type 0} (m : M W A) : Type 0 where
  pub at : (w : W) → ¬ IsStuck (m w)

module _ {W A : Type 0} where
  pub Ends-pure : (a : A) → Ends {W = W} (pure a)
  unfolding pure
  Ends-pure a = record { at = λ w s. s }

  pub Ends-raise : (e : Exc) → Ends {W = W} {A = A} (raise e)
  unfolding raise
  Ends-raise e = record { at = λ w s. s }

  pub Ends-ask : (f : W → A × W) → Ends (ask f)
  unfolding ask
  Ends-ask f = record { at = λ w s. s }

  pub Ends-lift : (r : Result A) → Ends {W = W} (lift r)
  unfolding lift
  Ends-lift (ok a) = record { at = λ w s. s }
  Ends-lift (err e) = record { at = λ w s. s }

  pub Ends-if :
      (b : Bool) (m n : M W A)
      → (b ≡ true → Ends m)
      → (b ≡ false → Ends n)
      → Ends (if b then m else n)
  Ends-if true m n km kn = km refl
  Ends-if false m n km kn = kn refl

module _ {W A B : Type 0} where
  ended :
      (o : Outcome W A) (f : A → M W B)
      → ¬ IsStuck o
      → ((a : A) → Ends (f a))
      → ¬ IsStuck (elim o [ returns a w ↦ f a w | raises e w ↦ raises e w | stuck w ↦ stuck w ])
  ended (returns a w) f p h = (h a).at w
  ended (raises e w) f p h = p
  ended (stuck w) f p h = p

  pub Ends-bind : (m : M W A) (f : A → M W B) → Ends m → ((a : A) → Ends (f a)) → Ends (m >>= f)
  unfolding ◌>>=◌
  Ends-bind m f km kf = record { at = λ w. ended (m w) f (km.at w) kf }
