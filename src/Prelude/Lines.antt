-- ===== src/Prelude/Lines.antt =====
-- More of Python's `str`: lines, words, case and the decimal digits of a number.
pub mod Laws
pub mod Numbers
use Prim.Native.Nat.{ℕ, zero, suc, ◌/◌, ◌%◌}
use Prim.Native.Char.{Char, code}
use Prim.Native.String.{String, [], ◌∷◌, char_at}
use mathlib.Core.Bool.{Bool, true, false, ◌&&◌, ◌||◌, not}
use mathlib.Core.List.{List, ◌∷◌ as ◌▸◌, [] as empty}
use bitheim.Prelude.Tests.{leb, nat_beq, ◌==◌, string_eq, if◌then◌else◌}
use bitheim.Prelude.Text.{is_empty, is_space}

-- `s.endswith(t)`
abbrev pub is_suffix : String → String → Bool
is_suffix t [] = is_empty t
is_suffix t (c ∷ s) = c ∷ s == t || is_suffix t s

abbrev onto_first : Char → List String → List String
onto_first c empty = (c ∷ []) ▸ empty
onto_first c (l ▸ ls) = (c ∷ l) ▸ ls

-- the texts that end at a separator or at the end; none at the end of a text that ends in a separator
unfoldable pub pieces : (ℕ → Bool) → String → List String
pieces p [] = empty
pieces p (c ∷ s) = let rest = pieces p s in if p (code c) then [] ▸ rest else onto_first c rest

-- the boundaries of `str.splitlines` that are one character
abbrev pub is_line_end : ℕ → Bool
is_line_end c =
    (leb 0x0a c && leb c 0x0d)
    || (leb 0x1c c && leb c 0x1e)
    || nat_beq c 0x85
    || nat_beq c 0x2028
    || nat_beq c 0x2029

abbrev starts_with_newline : String → Bool
starts_with_newline [] = false
starts_with_newline (c ∷ s) = nat_beq (code c) 0x0a

-- each carriage return before a newline belongs to the newline
unfoldable pub join_returns : String → String
join_returns [] = []
join_returns (c ∷ s) =
    let rest = join_returns s in
    if nat_beq (code c) 0x0d && starts_with_newline s then rest else c ∷ rest

-- `s.splitlines()`
unfoldable pub splitlines : String → List String
unfolding pieces join_returns
splitlines s = pieces is_line_end (join_returns s)

-- the texts that are not empty
abbrev pub nonempty : List String → List String
nonempty empty = empty
nonempty (l ▸ ls) = if is_empty l then nonempty ls else l ▸ nonempty ls

-- `s.split()`
unfoldable pub words : String → List String
unfolding pieces
words s = nonempty (pieces is_space s)

-- the character of the second text at the place where the first has the given one
abbrev pub translate : String → String → Char → Char
translate [] t c = c
translate (a ∷ s) [] c = c
translate (a ∷ s) (b ∷ t) c = if nat_beq (code a) (code c) then b else translate s t c

abbrev map_chars : (Char → Char) → String → String
map_chars f [] = []
map_chars f (c ∷ s) = f c ∷ map_chars f s

-- `s.lower()` as far as comparing with ASCII texts can tell: besides the capital letters only the Kelvin sign becomes
-- an ASCII letter alone.
unfoldable pub lower : String → String
lower s = map_chars (translate "ABCDEFGHIJKLMNOPQRSTUVWXYZK" "abcdefghijklmnopqrstuvwxyzk") s

-- `s.upper()` as far as comparing with ASCII texts without S can tell: besides the small letters only the dotless i and
-- the long s become an ASCII letter alone, and the ligatures that become several have an S or FF, FI or FL in them.
unfoldable pub upper : String → String
upper s = map_chars (translate "abcdefghijklmnopqrstuvwxyzıſ" "ABCDEFGHIJKLMNOPQRSTUVWXYZIS") s

abbrev digit : ℕ → Char
digit n = char_at "0123456789" n

-- the digits in front of a text, with fuel for the digits
unfoldable pub digits : ℕ → ℕ → String → String
digits zero n s = s
digits (suc fuel) n s = elim (n / 10) [
  | zero ↦ digit (n % 10) ∷ s
  | suc m ↦ digits fuel (suc m) (digit (n % 10) ∷ s)
]

-- `str(n)`: a number has at most as many digits as the number after it
unfoldable pub show_nat : ℕ → String
unfolding digits
show_nat n = digits (suc n) n []
