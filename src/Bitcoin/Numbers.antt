-- ===== src/Bitcoin/Numbers.antt =====
-- What infrastructure/bitcoin/rpc_client.py uses of the `decimal` module, with the default context.
use bitheim.Prelude.{Bool, true, false, ◌&&◌, not, ◌==◌, nat_eq}
use bitheim.Prelude.Int.{ℤ}
use bitheim.Errors.{Result}
use bitheim.Value.{Decimal, special, fin, Float}

pub record DecimalOps : Type 0 where
  -- `d * Decimal("100000000")`
  pub times_satoshis : Decimal → Result Decimal
  -- `d != d.to_integral_value()`
  pub has_fraction : Decimal → Result Bool
  -- `int(d)`
  pub to_int : Decimal → Result ℤ
  -- `float(d)`
  pub to_float : Decimal → Result Float

-- `d.is_finite()`
abbrev pub is_finite : Decimal → Bool
is_finite special = false
is_finite (fin sign coefficient exponent) = true

-- `d < 0`
abbrev pub is_negative : Decimal → Bool
is_negative special = false
is_negative (fin sign coefficient exponent) = sign && not (coefficient == 0)
