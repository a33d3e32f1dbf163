-- ===== src/Prelude/Lines/Numbers.antt =====
-- The text of a number begins with a digit.
use Prim.Native.Nat.{ℕ, zero, suc, ◌/◌, ◌%◌, ◌<◌}
use Prim.Native.Char.{code}
use Prim.Native.String.{String, [], ◌∷◌}
use mathlib.Core.Bool.{Bool, true, false, not}
use mathlib.Core.Path.{◌≡◌, refl}
use native.Mathlib.Omega.{arith}
use bitheim.Prelude.Tests.{nat_beq}
use bitheim.Prelude.Lines.{show_nat, digits, digit}

-- a text that does not begin with a dash, and has a first character
abbrev pub is_word : String → Bool
is_word (c ∷ s) = not (nat_beq (code c) b'-')
is_word [] = false

digit_word : (k : ℕ) (s : String) → k < 10 → is_word (digit k ∷ s) ≡ true
digit_word zero s h = refl
digit_word (suc zero) s h = refl
digit_word (suc (suc zero)) s h = refl
digit_word (suc (suc (suc zero))) s h = refl
digit_word (suc (suc (suc (suc zero)))) s h = refl
digit_word (suc (suc (suc (suc (suc zero))))) s h = refl
digit_word (suc (suc (suc (suc (suc (suc zero)))))) s h = refl
digit_word (suc (suc (suc (suc (suc (suc (suc zero))))))) s h = refl
digit_word (suc (suc (suc (suc (suc (suc (suc (suc zero)))))))) s h = refl
digit_word (suc (suc (suc (suc (suc (suc (suc (suc (suc zero))))))))) s h = refl
digit_word (suc (suc (suc (suc (suc (suc (suc (suc (suc (suc k)))))))))) s h = absurd (omega arith)

-- one more digit, and those before it
next :
    (fuel q k : ℕ) (s : String)
    → k < 10
    → ((m : ℕ) (t : String) → is_word t ≡ true → is_word (digits fuel m t) ≡ true)
    → is_word (elim q [ zero ↦ digit k ∷ s | suc m ↦ digits fuel (suc m) (digit k ∷ s) ]) ≡ true
next fuel zero k s h more = digit_word k s h
next fuel (suc m) k s h more = more (suc m) (digit k ∷ s) (digit_word k s h)

digits-is_word : (fuel n : ℕ) (s : String) → is_word s ≡ true → is_word (digits fuel n s) ≡ true
unfolding digits
digits-is_word zero n s h = h
digits-is_word (suc fuel) n s h = next fuel (n / 10) (n % 10) s (omega arith) (digits-is_word fuel)

pub show_nat-is_word : (n : ℕ) → is_word (show_nat n) ≡ true
unfolding show_nat digits
show_nat-is_word n = next n (n / 10) (n % 10) [] (omega arith) (digits-is_word n)
