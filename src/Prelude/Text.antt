-- ===== src/Prelude/Text.antt =====
-- Python's `str` as the native text: strip, `in`, and the character classes of the program's regular expressions.
use Prim.Native.Nat.{ℕ, zero, suc, ◌+◌}
use Prim.Native.Char.{code}
use Prim.Native.String.{String, [], ◌∷◌}
use mathlib.Core.Bool.{Bool, true, false, ◌&&◌, ◌||◌}
use bitheim.Prelude.Tests.{ltb, leb, nat_beq, if◌then◌else◌}

-- `len(s)`, in code points
abbrev pub count : String → ℕ
count [] = 0
count (c ∷ s) = suc (count s)

-- the bytes of one code point in UTF-8
abbrev pub utf8_width : ℕ → ℕ
utf8_width c = if ltb c 0x80 then 1 else if ltb c 0x800 then 2 else if ltb c 0x10000 then 3 else 4

-- `len(s.encode("utf-8"))`
abbrev pub utf8_len : String → ℕ
utf8_len [] = 0
utf8_len (c ∷ s) = utf8_width (code c) + utf8_len s

-- `all(p(c) for c in s)`
abbrev pub all_chars : (ℕ → Bool) → String → Bool
all_chars p [] = true
all_chars p (c ∷ s) = p (code c) && all_chars p s

-- `any(p(c) for c in s)`
abbrev pub any_char : (ℕ → Bool) → String → Bool
any_char p [] = false
any_char p (c ∷ s) = p (code c) || any_char p s

abbrev pub is_empty : String → Bool
is_empty [] = true
is_empty (c ∷ s) = false

-- `s.startswith(p)`
abbrev pub is_prefix : String → String → Bool
is_prefix [] s = true
is_prefix (c ∷ p) [] = false
is_prefix (c ∷ p) (d ∷ s) = nat_beq (code c) (code d) && is_prefix p s

-- `p in s`
abbrev pub has_text : String → String → Bool
has_text p [] = is_empty p
has_text p (c ∷ s) = is_prefix p (c ∷ s) || has_text p s

abbrev pub is_lower_hex : ℕ → Bool
is_lower_hex c = (leb b'0' c && leb c b'9') || (leb b'a' c && leb c b'f')

abbrev pub is_hex : ℕ → Bool
is_hex c = is_lower_hex c || (leb b'A' c && leb c b'F')

abbrev pub is_alphanumeric : ℕ → Bool
is_alphanumeric c =
    (leb b'a' c && leb c b'z') || (leb b'A' c && leb c b'Z') || (leb b'0' c && leb c b'9')

-- `" " <= c <= "~"`
abbrev pub is_printable : ℕ → Bool
is_printable c = leb 0x20 c && leb c 0x7e

-- `str.isspace` on one character, the set that `str.strip` removes
unfoldable pub is_space : ℕ → Bool
is_space c =
    (leb 0x09 c && leb c 0x0d)
    || (leb 0x1c c && leb c 0x20)
    || nat_beq c 0x85
    || nat_beq c 0xa0
    || nat_beq c 0x1680
    || (leb 0x2000 c && leb c 0x200a)
    || nat_beq c 0x2028
    || nat_beq c 0x2029
    || nat_beq c 0x202f
    || nat_beq c 0x205f
    || nat_beq c 0x3000

unfoldable pub lstrip : String → String
lstrip [] = []
lstrip (c ∷ s) = let rest = lstrip s in if is_space (code c) then rest else c ∷ s

unfoldable pub rstrip : String → String
rstrip [] = []
rstrip (c ∷ s) = let rest = rstrip s in if is_space (code c) && is_empty rest then [] else c ∷ rest

-- `s.strip()`
unfoldable pub strip : String → String
unfolding lstrip rstrip
strip s = rstrip (lstrip s)

-- `re.match(r"^[class]{n}$", s)`. Python's `$` also matches before one newline at the end.
abbrev pub class_run : (ℕ → Bool) → ℕ → String → Bool
class_run p zero [] = true
class_run p zero (c ∷ []) = nat_beq (code c) 0x0a
class_run p zero (c ∷ d ∷ s) = false
class_run p (suc n) [] = false
class_run p (suc n) (c ∷ s) = p (code c) && class_run p n s
