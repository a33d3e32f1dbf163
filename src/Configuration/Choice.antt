-- ===== src/Configuration/Choice.antt =====
-- The choice among layers, and what validating a second time does.
use mathlib.Core.Path.{subst}
use bitheim.Prelude.{
  ℕ, ◌*◌, String, Option, none, some, ◌≡◌, refl, arith, sym, ◌∙◌, ◌↔◌, ◌<◌, nat_eq,
}
use bitheim.Prelude.Int.{pos}
use bitheim.Errors.{Result, ok, ok-injective}
use bitheim.Value.{Value, Float, str, float, finite, second}
use bitheim.Service.Guards.{validate_service_node_id, validate_service_timeout}
use bitheim.Service.Guards.Laws.{
  IsNodeId, validate_service_node_id-IsNodeId, validate_service_node_id_id,
}
use bitheim.Configuration.{validate_node_id, validate_timeout, float_value, override}

-- the value of the highest layer that has one: the command line, the environment, the file
abbrev pub pick : Option Value → Option Value → Option Value → Option Value
pick (some v) env file = some v
pick none (some v) file = some v
pick none none file = file

module _ {ℓ} {A : Type ℓ} (f : Value → Result A) where
  -- `x` is what the validator makes of the highest layer that has a value, or the default.
  abbrev pub Chosen : Option Value → Option Value → Option Value → A → A → Type ℓ
  Chosen cli env file d x = override f (pick cli env file) d ≡ ok x

  pub layered :
      (cli env file : Option Value) (d x y z : A)
      → override f file d ≡ ok x
      → override f env x ≡ ok y
      → override f cli y ≡ ok z
      → Chosen cli env file d z
  layered (some v) env file d x y z a b c = c
  layered none (some v) file d x y z a b c = b ∙ c
  layered none none file d x y z a b c = a ∙ b ∙ c

  chosen_has :
      (P : A → Type 0) (cli env file : Option Value) (d x : A)
      → Chosen cli env file d x
      → P d
      → ((v : Value) (a : A) → f v ≡ ok a → P a)
      → P x
  chosen_has P (some v) env file d x c p k = k v x c
  chosen_has P none (some v) file d x c p k = k v x c
  chosen_has P none none (some v) d x c p k = k v x c
  chosen_has P none none none d x c p k = subst P (ok-injective c) p

-- The two validators of identifiers accept the same values and give the same identifiers.
same_identifier :
    (v : Value) (s : String) → (validate_node_id v ≡ ok s) ↔ (validate_service_node_id v ≡ ok s)
unfolding validate_node_id validate_service_node_id
same_identifier v s = (λ h. ground arith, λ h. ground arith)

validate_node_id-IsNodeId : (v : Value) (s : String) → validate_node_id v ≡ ok s → IsNodeId s
validate_node_id-IsNodeId v s h = validate_service_node_id-IsNodeId v s ((same_identifier v s).0 h)

-- an identifier is accepted as it is
pub node_id_again : (s t : String) → IsNodeId s → validate_node_id (str s) ≡ ok t → t ≡ s
node_id_again s t i h =
    ok-injective (sym h ∙ (same_identifier (str s) s).1 (validate_service_node_id_id s i))

pub timeout_again :
    (parse : String → Option Float) (n m : ℕ)
    → validate_timeout parse (float (finite (pos n))) ≡ ok m
    → m ≡ n
unfolding validate_timeout float_value
timeout_again parse n m h = ground arith

default-IsNodeId : IsNodeId "regtest-node-1"
default-IsNodeId = (refl, refl)

pub Chosen-IsNodeId :
    (cli env file : Option Value) (x : String)
    → Chosen validate_node_id cli env file "regtest-node-1" x
    → IsNodeId x
Chosen-IsNodeId cli env file x c =
    chosen_has validate_node_id IsNodeId cli env file "regtest-node-1" x c default-IsNodeId
      validate_node_id-IsNodeId

module _ (parse : String → Option Float) where
  timeout_positive : (v : Value) (n : ℕ) → validate_timeout parse v ≡ ok n → 0 < n
  unfolding validate_timeout
  timeout_positive v n h = ground arith

  pub Chosen-timeout :
      (cli env file : Option Value) (n : ℕ)
      → Chosen (validate_timeout parse) cli env file (30 * second) n
      → validate_service_timeout (float (finite (pos n))) ≡ ok n
  unfolding validate_service_timeout
  Chosen-timeout cli env file n c =
      let positive_n =
        chosen_has (validate_timeout parse) (λ n. 0 < n) cli env file (30 * second) n c
          (omega arith) timeout_positive in
      ground arith
