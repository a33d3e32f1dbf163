-- ===== src/Value.antt =====
-- Python values that the program handles without a known type: what `json.loads` returns, and the arguments
-- that its validators test. A `bool` is no `int` here; where the source accepts one for the other, the model says so.
-- A text that has a lone surrogate, as the JSON text "\ud800" gives one, is `lone_surrogate`: no test of the program accepts
-- it, and UTF-8 cannot encode it.
pub mod Depth
pub mod Keys
use bitheim.Prelude.{◌^◌, ℕ, String, Bool, true, false, Option, none, some, List, [], ◌∷◌, suc, leb}
use bitheim.Prelude.{◌==◌, string_eq, if◌then◌else◌}
use bitheim.Prelude.Int.{ℤ, pos, negsuc, scale, int_eq}

-- A float, with finite values on a grid of one microsecond (all finite ones here are durations).
pub data Float : Type 0 where
  nan inf neg_inf : Float
  finite : ℤ → Float

-- `Decimal` from a JSON number: sign (true is negative), coefficient and exponent; or a special value.
pub data Decimal : Type 0 where
  special : Decimal
  fin : Bool → ℕ → ℤ → Decimal

mutual
  pub data Value : Type 0 where
    null : Value
    bool : Bool → Value
    int : ℤ → Value
    float : Float → Value
    decimal : Decimal → Value
    str : String → Value
    lone_surrogate : Value
    arr : Items → Value
    obj : Fields → Value

  pub data Items : Type 0 where
    cons : Value → Items → Items
    nil : Items

  pub data Fields : Type 0 where
    end : Fields
    field : String → Value → Fields → Fields

abbrev pub items : Items → List Value
items nil = []
items (cons v vs) = v ∷ items vs

abbrev pub of_list : List Value → Items
of_list [] = nil
of_list (v ∷ vs) = cons v (of_list vs)

-- `k in d` and `d[k]`. A key that is repeated in JSON text has its last value.
unfoldable pub find : String → Fields → Option Value
find k end = none
find k (field j v m) = elim (find k m) [ some w ↦ some w | none ↦ if j == k then some v else none ]

abbrev or_null : Option Value → Value
or_null (some v) = v
or_null none = null

-- `d.get(k)`
abbrev pub get : String → Fields → Value
get k d = or_null (find k d)

-- `type(v) is int and v >= 0`
abbrev pub nonneg : Value → Option ℕ
nonneg (int (pos n)) = some n
nonneg _ = none

-- `type(v) is int`
abbrev pub as_int : Value → Option ℤ
as_int (int n) = some n
as_int _ = none

-- `isinstance(v, int)`, with the number that a bool counts as
abbrev pub int_or_bool : Value → Option ℤ
int_or_bool (int n) = some n
int_or_bool (bool b) = some (pos (if b then 1 else 0))
int_or_bool _ = none

-- `v.encode("utf-8")` does not raise, for a text
abbrev pub is_encodable : Value → Bool
is_encodable lone_surrogate = false
is_encodable _ = true

-- `isinstance(v, bool)`
abbrev pub as_bool : Value → Option Bool
as_bool (bool b) = some b
as_bool _ = none

-- `isinstance(v, str)` and a test of the text
abbrev pub text_where : (String → Bool) → Value → Option String
text_where p (str s) = if p s then some s else none
text_where p _ = none

abbrev pub as_text : Value → Option String
as_text (str s) = some s
as_text _ = none

-- `isinstance(v, dict)`
abbrev pub as_obj : Value → Option Fields
as_obj (obj m) = some m
as_obj _ = none

-- `isinstance(v, list)`
abbrev pub as_arr : Value → Option (List Value)
as_arr (arr vs) = some (items vs)
as_arr _ = none

abbrev map_some {ℓ} : {A : Type ℓ} → Option A → Option (Option A)
map_some none = none
map_some (some a) = some (some a)

-- `v is None or <test>`
abbrev pub optional {ℓ} : {A : Type ℓ} → (Value → Option A) → Value → Option (Option A)
optional test null = some none
optional test v = map_some (test v)

-- what a field that may be `None` is as a value
abbrev pub value_or_null {ℓ} : {A : Type ℓ} → (A → Value) → Option A → Value
value_or_null f none = null
value_or_null f (some a) = f a

abbrev pub is_null : Value → Bool
is_null null = true
is_null _ = false

abbrev pub second : ℕ
second = 1_000_000

-- `float(n)` of an int
abbrev pub float_of_int : ℤ → Float
float_of_int n = finite (scale second n)

-- `float(v)` where `type(v) in (int, float)`, and none for every other type
abbrev pub as_number : Value → Option Float
as_number (int n) = some (float_of_int n)
as_number (float x) = some x
as_number _ = none

-- the least int that `float` refuses: it lies half a unit above the largest float, 2 ^ 1024 - 2 ^ 971
unfoldable pub float_limit : ℕ
float_limit =
    179769313486231580793728971405303415079934132710037826936173778980444968292764750946649017977587207096330286416692887910946555547851940402630657488671505820681908902000708383676273854845817711531764475730270069855571366959622842914819860834936475292719074168444365510704342711559699508093042880177904174497792

-- `float(v)` of an int raises `OverflowError`
abbrev pub is_too_large : Value → Bool
is_too_large (int (pos n)) = leb float_limit n
is_too_large (int (negsuc n)) = leb float_limit (suc n)
is_too_large _ = false

-- the least int that `str` refuses, which has more than 4300 digits
unfoldable pub digit_limit : ℕ
digit_limit = 10 ^ 4300

-- `str(v)` of an int raises `ValueError`
abbrev pub is_overlong : Value → Bool
is_overlong (int (pos n)) = leb digit_limit n
is_overlong (int (negsuc n)) = leb digit_limit (suc n)
is_overlong _ = false

-- `v == n` for an int, to which a bool and a float can be equal
abbrev pub equals : Value → ℤ → Bool
equals (float (finite x)) n = x == scale second n
equals v n = elim (int_or_bool v) [ none ↦ false | some k ↦ k == n ]

-- `v == s` for a text
abbrev pub is_text : Value → String → Bool
is_text (str t) s = t == s
is_text _ s = false
