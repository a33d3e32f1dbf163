-- ===== src/Effect/Results.antt =====
-- What an action returns, one rule for each way to build an action.
use mathlib.Core.Path.{subst}
use bitheim.Prelude.{◌≡◌, refl, Bool, true, false, if◌then◌else◌}
use bitheim.Errors.{Exc, Result, ok, err, require}
use bitheim.Effect.{Outcome, returns, raises, stuck, M, pure, raise, lift, ◌>>=◌}

abbrev pub Gives : {W A : Type 0} → (A → Type 0) → Outcome W A → Type 0
Gives P (returns a w) = P a
Gives P (raises e w) = Unit
Gives P (stuck w) = Unit

-- Whatever `m` returns satisfies `P`.
pub record Returns {W A : Type 0} (P : A → Type 0) (m : M W A) : Type 0 where
  pub at : (w : W) → Gives P (m w)

module _ {W A : Type 0} {P : A → Type 0} where
  pub Returns-pure : (a : A) → P a → Returns {W = W} P (pure a)
  unfolding pure
  Returns-pure a h = record { at = λ w. h }

  pub Returns-raise : (e : Exc) → Returns {W = W} P (raise e)
  unfolding raise
  Returns-raise e = record { at = λ w. tt }

  pub Returns-stuck : Returns {W = W} {A = A} P stuck
  Returns-stuck = record { at = λ w. tt }

  pub Returns-lift : (r : Result A) → ((a : A) → r ≡ ok a → P a) → Returns {W = W} P (lift r)
  unfolding lift
  Returns-lift (ok a) h = record { at = λ w. h a refl }
  Returns-lift (err e) h = record { at = λ w. tt }

  pub Returns-if :
      (b : Bool) (m n : M W A)
      → (b ≡ true → Returns P m)
      → (b ≡ false → Returns P n)
      → Returns P (if b then m else n)
  Returns-if true m n km kn = km refl
  Returns-if false m n km kn = kn refl

  -- A property of what is returned, read off at one run.
  pub Returns-at : {m : M W A} → Returns P m → (w w' : W) (a : A) → m w ≡ returns a w' → P a
  Returns-at r w w' a e = subst (Gives P) e (r.at w)

-- Some run of the action has returned the value.
abbrev pub Reached : {W A : Type 0} → M W A → A → Type 0
Reached {W = W} m a = (u : W) × (v : W) × (m u ≡ returns a v)

module _ {W A : Type 0} (m : M W A) where
  reached : (w : W) (o : Outcome W A) → m w ≡ o → Gives (Reached m) o
  reached w (returns a v) e = (w, v, e)
  reached w (raises x v) e = tt
  reached w (stuck v) e = tt

  pub Returns-Reached : Returns (Reached m) m
  Returns-Reached = record { at = λ w. reached w (m w) refl }

module _ {W A : Type 0} {P Q : A → Type 0} (f : (a : A) → P a → Q a) where
  widened : (o : Outcome W A) → Gives P o → Gives Q o
  widened (returns a w) p = f a p
  widened (raises e w) p = tt
  widened (stuck w) p = tt

  pub Returns-widen : {m : M W A} → Returns P m → Returns Q m
  Returns-widen {m = m} r = record { at = λ w. widened (m w) (r.at w) }

any : {W A : Type 0} (o : Outcome W A) → Gives (λ _. Unit {0}) o
any (returns a w) = tt
any (raises e w) = tt
any (stuck w) = tt

module _ {W A B : Type 0} {P : B → Type 0} where
  given :
      {Q : A → Type 0} (o : Outcome W A) (f : A → M W B)
      → Gives Q o
      → ((a : A) → Q a → Returns P (f a))
      → Gives P (elim o [ returns a w ↦ f a w | raises e w ↦ raises e w | stuck w ↦ stuck w ])
  given (returns a w) f q h = (h a q).at w
  given (raises e w) f q h = tt
  given (stuck w) f q h = tt

  -- with what the first part returns
  pub Returns-bind_with :
      {Q : A → Type 0} (m : M W A) (f : A → M W B)
      → Returns Q m
      → ((a : A) → Q a → Returns P (f a))
      → Returns P (m >>= f)
  unfolding ◌>>=◌
  Returns-bind_with m f km kf = record { at = λ w. given (m w) f (km.at w) kf }

  pub Returns-bind : (m : M W A) (f : A → M W B) → ((a : A) → Returns P (f a)) → Returns P (m >>= f)
  unfolding ◌>>=◌
  Returns-bind m f kf = record { at = λ w. given (m w) f (any (m w)) (λ a _. kf a) }

module _ {W B : Type 0} {P : B → Type 0} where
  -- with the guard that has passed
  pub Returns-require :
      (b : Bool) (e : Exc) (f : Unit {0} → M W B)
      → (b ≡ true → Returns P (f tt))
      → Returns P (lift {W = W} (require b e) >>= f)
  unfolding ◌>>=◌ lift
  Returns-require true e f k = record { at = λ w. (k refl).at w }
  Returns-require false e f k = record { at = λ w. tt }

pub ruleset returns_rules = (Returns-pure, Returns-raise, Returns-if, Returns-bind)
