-- ===== src/Effect/Keeps.antt =====
-- Which actions keep a property of the world on every path, one rule for each way to build an action.
use bitheim.Prelude.{◌≡◌, refl, Bool, true, false, if◌then◌else◌}
use bitheim.Errors.{Exc, Result, ok, err}
use bitheim.Effect.{
  Outcome, returns, raises, stuck, M, final, pure, raise, lift, handle, ask, ◌>>=◌,
}

-- However `m` ends, the property holds of the world that it leaves if it held before.
pub record Keeps {W A : Type 0} (I : W → Type 0) (m : M W A) : Type 0 where
  pub at : (w : W) → I w → I (final (m w))

module _ {W A : Type 0} {I : W → Type 0} where
  pub Keeps-pure : (a : A) → Keeps I (pure a)
  unfolding pure
  Keeps-pure a = record { at = λ w h. h }

  pub Keeps-raise : (e : Exc) → Keeps {A = A} I (raise e)
  unfolding raise
  Keeps-raise e = record { at = λ w h. h }

  pub Keeps-lift : (r : Result A) → Keeps I (lift r)
  unfolding lift
  Keeps-lift (ok a) = record { at = λ w h. h }
  Keeps-lift (err e) = record { at = λ w h. h }

  pub Keeps-ask : (f : W → A × W) → ((w : W) → I w → I (f w).1) → Keeps I (ask f)
  unfolding ask
  Keeps-ask f k = record { at = k }

  pub Keeps-if :
      (b : Bool) (m n : M W A)
      → (b ≡ true → Keeps I m)
      → (b ≡ false → Keeps I n)
      → Keeps I (if b then m else n)
  Keeps-if true m n km kn = km refl
  Keeps-if false m n km kn = kn refl

  handled :
      (o : Outcome W A) (f : Exc → M W A)
      → I (final o)
      → ((e : Exc) → Keeps I (f e))
      → I (final (elim o [ returns a w ↦ returns a w | raises e w ↦ f e w | stuck w ↦ stuck w ]))
  handled (returns a w) f h k = h
  handled (raises e w) f h k = (k e).at w h
  handled (stuck w) f h k = h

  pub Keeps-handle :
      (m : M W A) (f : Exc → M W A) → Keeps I m → ((e : Exc) → Keeps I (f e)) → Keeps I (handle m f)
  unfolding handle
  Keeps-handle m f km kf = record { at = λ w h. handled (m w) f (km.at w h) kf }

module _ {W A B : Type 0} {I : W → Type 0} where
  bound :
      (o : Outcome W A) (f : A → M W B)
      → I (final o)
      → ((a : A) → Keeps I (f a))
      → I (final (elim o [ returns a w ↦ f a w | raises e w ↦ raises e w | stuck w ↦ stuck w ]))
  bound (returns a w) f h k = (k a).at w h
  bound (raises e w) f h k = h
  bound (stuck w) f h k = h

  pub Keeps-bind :
      (m : M W A) (f : A → M W B) → Keeps I m → ((a : A) → Keeps I (f a)) → Keeps I (m >>= f)
  unfolding ◌>>=◌
  Keeps-bind m f km kf = record { at = λ w h. bound (m w) f (km.at w h) kf }

pub ruleset keeps_rules = (Keeps-pure, Keeps-raise, Keeps-lift, Keeps-if, Keeps-bind, Keeps-handle)
