-- ===== src/Errors.antt =====
-- The exception classes of src/bitheim/domain/errors.py, the built-in ones that the program raises or catches, and
-- fallible functions. An exception is its class: message texts are not modelled.
use bitheim.Prelude.{Bool, true, false, Option, none, some, ◌≡◌, refl, ◌⊎◌, inl, inr}

pub data Exc : Type 0 where
  lifecycle_error runtime_unavailable startup_timeout shutdown_timeout : Exc
  node_incompatible execution_context : Exc
  rpc_error rpc_unavailable rpc_timeout rpc_authentication rpc_incompatible_node : Exc
  rpc_malformed_response rpc_response_size_exceeded rpc_resource_not_found : Exc
  rpc_protocol rpc_execution_context : Exc
  configuration_error value_error decimal_exception http_exception : Exc
  overflow_error runtime_error unicode_encode_error : Exc

-- `isinstance(err, RpcError)`
abbrev pub is_rpc_error : Exc → Bool
is_rpc_error rpc_error = true
is_rpc_error rpc_unavailable = true
is_rpc_error rpc_timeout = true
is_rpc_error rpc_authentication = true
is_rpc_error rpc_incompatible_node = true
is_rpc_error rpc_malformed_response = true
is_rpc_error rpc_response_size_exceeded = true
is_rpc_error rpc_resource_not_found = true
is_rpc_error rpc_protocol = true
is_rpc_error rpc_execution_context = true
is_rpc_error _ = false

-- `isinstance(err, RuntimeUnavailableError)`
abbrev pub is_runtime_unavailable : Exc → Bool
is_runtime_unavailable runtime_unavailable = true
is_runtime_unavailable _ = false

-- `isinstance(err, OverflowError)`
abbrev pub is_overflow_error : Exc → Bool
is_overflow_error overflow_error = true
is_overflow_error _ = false

-- `isinstance(err, LifecycleError)`
abbrev pub is_lifecycle_error : Exc → Bool
is_lifecycle_error lifecycle_error = true
is_lifecycle_error runtime_unavailable = true
is_lifecycle_error startup_timeout = true
is_lifecycle_error shutdown_timeout = true
is_lifecycle_error node_incompatible = true
is_lifecycle_error execution_context = true
is_lifecycle_error _ = false

-- `isinstance(err, BitheimError)`
abbrev pub is_bitheim_error : Exc → Bool
is_bitheim_error configuration_error = false
is_bitheim_error value_error = false
is_bitheim_error decimal_exception = false
is_bitheim_error http_exception = false
is_bitheim_error overflow_error = false
is_bitheim_error runtime_error = false
is_bitheim_error unicode_encode_error = false
is_bitheim_error _ = true

pub data Result {ℓ} (A : Type ℓ) : Type ℓ where
  ok : A → Result A
  err : Exc → Result A

infixl 5 ◌>>=◌ ◌>>◌
abbrev pub ◌>>=◌ {κ μ} : {A : Type κ} {B : Type μ} → Result A → (A → Result B) → Result B
err x >>= next = err x
ok value >>= next = next value

abbrev pub ◌>>◌ {κ μ} : {A : Type κ} {B : Type μ} → Result A → Result B → Result B
first >> second = first >>= λ _. second

-- `if not b: raise e`
abbrev pub require : Bool → Exc → Result (Unit {0})
require true e = ok tt
require false e = err e

abbrev pub or_raise {ℓ} : {A : Type ℓ} → Option A → Exc → Result A
or_raise (some a) e = ok a
or_raise none e = err e

-- `try: r except ValueError: raise e`
abbrev pub on_value_error {ℓ} : {A : Type ℓ} → Result A → Exc → Result A
on_value_error (err value_error) e = err e
on_value_error (err x) e = err x
on_value_error (ok a) e = ok a

-- Inversion of a successful bind.
pub >>=-eq-ok {κ μ} :
    {A : Type κ} {B : Type μ} (first : Result A) (next : A → Result B) {y : B}
    → (first >>= next) ≡ ok y
    → (x : A) × (first ≡ ok x) × (next x ≡ ok y)
>>=-eq-ok (err e) next h = cc
>>=-eq-ok (ok x) next h = (x, refl, h)

-- Inversion of a bind that raises.
pub >>=-eq-err {ℓ κ} :
    {A : Type ℓ} {B : Type κ} (m : Result A) (f : A → Result B) {e : Exc}
    → (m >>= f) ≡ err e
    → (m ≡ err e) ⊎ ((a : A) × (m ≡ ok a) × (f a ≡ err e))
>>=-eq-err (ok a) f h = inr (a, refl, h)
>>=-eq-err (err x) f h = inl (cc h)

pub Result-cases {ℓ} :
    {A : Type ℓ} (m : Result A) → ((a : A) × (m ≡ ok a)) ⊎ ((e : Exc) × (m ≡ err e))
Result-cases (err x) = inr (x, refl)
Result-cases (ok a) = inl (a, refl)

pub ok-injective {ℓ} : {A : Type ℓ} {a b : A} → ok a ≡ ok b → a ≡ b
ok-injective h = cc

-- A bind raises what its parts raise.
pub >>=-errors {ℓ κ} :
    {A : Type ℓ} {B : Type κ} (P : Exc → Type 0) (m : Result A) (f : A → Result B)
    → ((e : Exc) → m ≡ err e → P e)
    → ((a : A) (e : Exc) → f a ≡ err e → P e)
    → (e : Exc) → (m >>= f) ≡ err e
    → P e
>>=-errors P (ok a) f km kf e h = kf a e h
>>=-errors P (err x) f km kf e h = km e (cc h)

-- What a guard raises.
pub or_raise_errors {ℓ} : {A : Type ℓ} (o : Option A) (x e : Exc) → or_raise o x ≡ err e → e ≡ x
or_raise_errors (some a) x e h = cc
or_raise_errors none x e h = cc

pub require_ok : (b : Bool) (e : Exc) (u : Unit {0}) → require b e ≡ ok u → b ≡ true
require_ok true e u h = refl
require_ok false e u h = absurd (cc h)

pub require_errors : (b : Bool) (x e : Exc) → require b x ≡ err e → e ≡ x
require_errors true x e h = cc
require_errors false x e h = cc
