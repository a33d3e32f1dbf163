-- ===== src/Effect.antt =====
-- Methods that act on the world and may raise. What was done before a raise stays done, so the world comes back
-- beside an exception too. A loop takes fuel, and `stuck` says that the fuel ran out.
pub mod Clock
pub mod Ends
pub mod Errors
pub mod Keeps
pub mod Results
use bitheim.Prelude.{ℕ, Bool, true, false, ◌≡◌, refl}
use bitheim.Errors.{Exc, Result, ok, err}

pub data Outcome (W A : Type 0) : Type 0 where
  returns : A → W → Outcome W A
  raises : Exc → W → Outcome W A
  stuck : W → Outcome W A

abbrev pub M : Type 0 → Type 0 → Type 0
M W A = W → Outcome W A

module _ {W A : Type 0} where
  unfoldable pub pure : A → M W A
  pure a w = returns a w

  unfoldable pub raise : Exc → M W A
  raise e w = raises e w

  unfoldable pub lift : Result A → M W A
  lift (ok a) w = returns a w
  lift (err e) w = raises e w

  -- the world that a run leaves
  abbrev pub final : Outcome W A → W
  final (returns a w) = w
  final (raises e w) = w
  final (stuck w) = w

  abbrev pub IsStuck : Outcome W A → Type 0
  IsStuck (stuck w) = Unit
  IsStuck _ = ⊥

  -- `try: m except e: handler e`
  unfoldable pub handle : M W A → (Exc → M W A) → M W A
  handle m handler w = elim (m w) [
    | returns a w' ↦ returns a w'
    | raises e w' ↦ handler e w'
    | stuck w' ↦ stuck w'
  ]

  -- `try: m finally: cleanup`
  unfoldable pub finally : M W A → (W → W) → M W A
  finally m cleanup w = elim (m w) [
    | returns a w' ↦ returns a (cleanup w')
    | raises e w' ↦ raises e (cleanup w')
    | stuck w' ↦ stuck (cleanup w')
  ]

  cleaned_world :
      (o : Outcome W A) (f : W → W)
      → final (elim o [
        | returns a w ↦ returns a (f w)
        | raises e w ↦ raises e (f w)
        | stuck w ↦ stuck (f w)
      ])
        ≡ f (final o)
  cleaned_world (returns a w) f = refl
  cleaned_world (raises e w) f = refl
  cleaned_world (stuck w) f = refl

  -- the cleanup runs whatever the body does
  pub final-finally : (m : M W A) (f : W → W) (w : W) → final (finally m f w) ≡ f (final (m w))
  unfolding finally
  final-finally m f w = cleaned_world (m w) f

  -- an operation of the world that always answers
  unfoldable pub ask : (W → A × W) → M W A
  ask f w = let (a, w') = f w in returns a w'

module _ {W : Type 0} where
  -- an operation that changes the world and always succeeds
  unfoldable pub act : (W → W) → M W (Unit {0})
  act f w = returns tt (f w)

module _ {W A B : Type 0} where
  -- opening this opens the actions above too
  infixl 5 ◌>>=◌ ◌>>◌
  unfoldable pub ◌>>=◌ : M W A → (A → M W B) → M W B
  unfolding pure raise lift ask act
  ◌>>=◌ m f w = elim (m w) [
    | returns a w' ↦ f a w'
    | raises e w' ↦ raises e w'
    | stuck w' ↦ stuck w'
  ]

  abbrev pub ◌>>◌ : M W A → M W B → M W B
  m >> k = m >>= λ _. k

  -- a bind after a run that returns
  pub returned_then :
      (m : M W A) {a : A} {w w' : W} (f : A → M W B) → m w ≡ returns a w' → (m >>= f) w ≡ f a w'
  unfolding ◌>>=◌
  returned_then m f h = rw (◌>>=◌, h) refl

  bound_returns :
      (o : Outcome W A) (f : A → M W B) {b : B} {w' : W}
      → elim o [ returns a w ↦ f a w | raises e w ↦ raises e w | stuck w ↦ stuck w ] ≡ returns b w'
      → (a : A) × (w : W) × (o ≡ returns a w) × (f a w ≡ returns b w')
  bound_returns (returns a w) f h = (a, w, refl, h)
  bound_returns (raises e w) f h = absurd (cc h)
  bound_returns (stuck w) f h = absurd (cc h)

  -- Inversion of a bind that returns.
  pub >>=-eq-returns :
      (m : M W A) (f : A → M W B) {w : W} {b : B} {w' : W}
      → (m >>= f) w ≡ returns b w'
      → (a : A) × (u : W) × (m w ≡ returns a u) × (f a u ≡ returns b w')
  unfolding ◌>>=◌
  >>=-eq-returns m f {w = w} h = bound_returns (m w) f h
