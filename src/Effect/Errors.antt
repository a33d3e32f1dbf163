-- ===== src/Effect/Errors.antt =====
-- Which exceptions an action can raise, one rule for each way to build an action.
use mathlib.Core.Path.{subst}
use bitheim.Prelude.{
  ◌≡◌, ◌⊎◌, inl, inr, refl, Bool, true, false, Option, none, some, ◌||◌, if◌then◌else◌, arith,
}
use bitheim.Errors.{
  Exc, rpc_authentication, rpc_malformed_response, unicode_encode_error, is_lifecycle_error,
  is_rpc_error, is_runtime_unavailable, is_overflow_error, overflow_error, Result, ok, err,
  or_raise, require,
}
use bitheim.Effect.{
  Outcome, returns, raises, stuck, M, pure, raise, lift, handle, finally, ask, act, ◌>>=◌,
}

-- What is said of the exceptions of an action: `LifecycleError`s, `RuntimeUnavailableError`s, or `RpcError`s and
-- `RuntimeUnavailableError`s, each with the `OverflowError` of a timeout that `float` or the system refuses; `RpcError`s,
-- `RpcAuthenticationError`s or `RpcMalformedResponseError`s only; or `RpcError`s and `UnicodeEncodeError`s.
pub data Class : Type 0 where
  lifecycle rpc authentication malformed runtime observation encoded : Class

abbrev pub in_class : Class → Exc → Bool
in_class lifecycle e = is_lifecycle_error e || is_overflow_error e
in_class rpc e = is_rpc_error e
in_class authentication rpc_authentication = true
in_class authentication _ = false
in_class malformed rpc_malformed_response = true
in_class malformed _ = false
in_class runtime e = is_runtime_unavailable e || is_overflow_error e
in_class observation e = is_rpc_error e || is_runtime_unavailable e || is_overflow_error e
in_class encoded unicode_encode_error = true
in_class encoded e = is_rpc_error e

abbrev pub Within : {W A : Type 0} → Class → Outcome W A → Type 0
Within k (returns a w) = Unit
Within k (raises e w) = in_class k e ≡ true
Within k (stuck w) = Unit

-- Whatever `m` raises belongs to the class.
pub record RaisesOnly {W A : Type 0} (k : Class) (m : M W A) : Type 0 where
  pub at : (w : W) → Within k (m w)

module _ {W A : Type 0} where
  cleaned :
      (k : Class) (o : Outcome W A) (f : W → W)
      → Within k o
      → Within k (elim o [
        | returns a w ↦ returns a (f w)
        | raises e w ↦ raises e (f w)
        | stuck w ↦ stuck (f w)
      ])
  cleaned k (returns a w) f h = tt
  cleaned k (raises e w) f h = h
  cleaned k (stuck w) f h = tt

module _ {W A : Type 0} {k : Class} where
  pub RaisesOnly-pure : (a : A) → RaisesOnly {W = W} k (pure a)
  unfolding pure
  RaisesOnly-pure a = record { at = λ w. tt }

  pub RaisesOnly-raise : (e : Exc) → in_class k e ≡ true → RaisesOnly {W = W} {A = A} k (raise e)
  unfolding raise
  RaisesOnly-raise e h = record { at = λ w. h }

  pub RaisesOnly-stuck : RaisesOnly {W = W} {A = A} k stuck
  RaisesOnly-stuck = record { at = λ w. tt }

  pub RaisesOnly-ask : (f : W → A × W) → RaisesOnly k (ask f)
  unfolding ask
  RaisesOnly-ask f = record { at = λ w. tt }

  pub RaisesOnly-or_raise :
      (o : Option A) (e : Exc) → in_class k e ≡ true → RaisesOnly {W = W} k (lift (or_raise o e))
  unfolding lift
  RaisesOnly-or_raise none e h = record { at = λ w. h }
  RaisesOnly-or_raise (some a) e h = record { at = λ w. tt }

  pub RaisesOnly-if :
      (b : Bool) (m n : M W A)
      → (b ≡ true → RaisesOnly k m)
      → (b ≡ false → RaisesOnly k n)
      → RaisesOnly k (if b then m else n)
  RaisesOnly-if true m n km kn = km refl
  RaisesOnly-if false m n km kn = kn refl

  pub RaisesOnly-lift :
      (r : Result A) → ((e : Exc) → r ≡ err e → in_class k e ≡ true) → RaisesOnly {W = W} k (lift r)
  unfolding lift
  RaisesOnly-lift (ok a) h = record { at = λ w. tt }
  RaisesOnly-lift (err e) h = record { at = λ w. h e refl }

  -- The class of what is raised, read off at one run.
  pub RaisesOnly-at :
      {m : M W A} → RaisesOnly k m → (w w' : W) (e : Exc) → m w ≡ raises e w' → in_class k e ≡ true
  RaisesOnly-at r w w' e h = subst (Within k) h (r.at w)

  handled :
      (o : Outcome W A) (f : Exc → M W A)
      → ((e : Exc) → RaisesOnly k (f e))
      → Within k (elim o [ returns a w ↦ returns a w | raises e w ↦ f e w | stuck w ↦ stuck w ])
  handled (returns a w) f h = tt
  handled (raises e w) f h = (h e).at w
  handled (stuck w) f h = tt

  pub RaisesOnly-handle :
      (m : M W A) (f : Exc → M W A) → ((e : Exc) → RaisesOnly k (f e)) → RaisesOnly k (handle m f)
  unfolding handle
  RaisesOnly-handle m f h = record { at = λ w. handled (m w) f h }

  caught :
      (k' : Class) (o : Outcome W A) (f : Exc → M W A)
      → Within k' o
      → ((e : Exc) → in_class k' e ≡ true → RaisesOnly k (f e))
      → Within k (elim o [ returns a w ↦ returns a w | raises e w ↦ f e w | stuck w ↦ stuck w ])
  caught k' (returns a w) f p h = tt
  caught k' (raises e w) f p h = (h e p).at w
  caught k' (stuck w) f p h = tt

  -- with the class of what is caught
  pub RaisesOnly-handle_with :
      (k' : Class) (m : M W A) (f : Exc → M W A)
      → RaisesOnly k' m
      → ((e : Exc) → in_class k' e ≡ true → RaisesOnly k (f e))
      → RaisesOnly k (handle m f)
  unfolding handle
  RaisesOnly-handle_with k' m f km h = record { at = λ w. caught k' (m w) f (km.at w) h }

  pub RaisesOnly-finally : (m : M W A) (f : W → W) → RaisesOnly k m → RaisesOnly k (finally m f)
  unfolding finally
  RaisesOnly-finally m f h = record { at = λ w. cleaned k (m w) f (h.at w) }

module _ {W A : Type 0} where
  transferred :
      (j k : Class) (o : Outcome W A)
      → ((e : Exc) → in_class j e ≡ true → in_class k e ≡ true)
      → Within j o
      → Within k o
  transferred j k (returns a w) f h = tt
  transferred j k (raises e w) f h = f e h
  transferred j k (stuck w) f h = tt

  -- a class within another
  pub RaisesOnly-widen :
      (j k : Class) (m : M W A)
      → ((e : Exc) → in_class j e ≡ true → in_class k e ≡ true)
      → RaisesOnly j m
      → RaisesOnly k m
  RaisesOnly-widen j k m f h = record { at = λ w. transferred j k (m w) f (h.at w) }

within_rpc : (e : Exc) → in_class authentication e ≡ true → in_class rpc e ≡ true
within_rpc e h = ground arith

pub RaisesOnly-authentication :
    {W A : Type 0} {m : M W A} → RaisesOnly authentication m → RaisesOnly rpc m
RaisesOnly-authentication {m = m} r = RaisesOnly-widen authentication rpc m within_rpc r

widened : (e : Exc) → in_class rpc e ≡ true → in_class encoded e ≡ true
widened e h = ground arith

pub RaisesOnly-encoded : {W A : Type 0} {m : M W A} → RaisesOnly rpc m → RaisesOnly encoded m
RaisesOnly-encoded {m = m} r = RaisesOnly-widen rpc encoded m widened r

pub encoded_errors :
    (e : Exc) → in_class encoded e ≡ true → (is_rpc_error e ≡ true) ⊎ (e ≡ unicode_encode_error)
encoded_errors e h = ground arith

pub lifecycle_errors :
    (e : Exc) → in_class lifecycle e ≡ true → (is_lifecycle_error e ≡ true) ⊎ (e ≡ overflow_error)
lifecycle_errors e h = ground arith

module _ {W : Type 0} {k : Class} where
  pub RaisesOnly-require :
      (b : Bool) (e : Exc) → in_class k e ≡ true → RaisesOnly {W = W} k (lift (require b e))
  unfolding lift
  RaisesOnly-require true e h = record { at = λ w. tt }
  RaisesOnly-require false e h = record { at = λ w. h }

  pub RaisesOnly-passed :
      (b : Bool) (e : Exc) → b ≡ true → RaisesOnly {W = W} k (lift (require b e))
  unfolding lift
  RaisesOnly-passed true e h = record { at = λ w. tt }
  RaisesOnly-passed false e h = absurd (cc h)

  pub RaisesOnly-act : (f : W → W) → RaisesOnly k (act f)
  unfolding act
  RaisesOnly-act f = record { at = λ w. tt }

module _ {W A B : Type 0} {k : Class} where
  bound :
      (o : Outcome W A) (f : A → M W B)
      → Within k o
      → ((a : A) → RaisesOnly k (f a))
      → Within k (elim o [ returns a w ↦ f a w | raises e w ↦ raises e w | stuck w ↦ stuck w ])
  bound (returns a w) f p h = (h a).at w
  bound (raises e w) f p h = p
  bound (stuck w) f p h = tt

  pub RaisesOnly-bind :
      (m : M W A) (f : A → M W B)
      → RaisesOnly k m
      → ((a : A) → RaisesOnly k (f a))
      → RaisesOnly k (m >>= f)
  unfolding ◌>>=◌
  RaisesOnly-bind m f km kf = record { at = λ w. bound (m w) f (km.at w) kf }

  -- with what is known of the answers of the world
  pub RaisesOnly-ask_with :
      (P : A → Type 0) (f : W → A × W) (g : A → M W B)
      → ((w : W) → P (f w).0)
      → ((a : A) → P a → RaisesOnly k (g a))
      → RaisesOnly k (ask f >>= g)
  unfolding ◌>>=◌ ask
  RaisesOnly-ask_with P f g p h = record { at = λ w. (h (f w).0 (p w)).at (f w).1 }

pub ruleset raises_rules = (
  RaisesOnly-pure, RaisesOnly-ask, RaisesOnly-act, RaisesOnly-or_raise, RaisesOnly-require,
  RaisesOnly-if, RaisesOnly-bind, RaisesOnly-handle, RaisesOnly-raise, refl,
)
