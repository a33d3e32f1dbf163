-- ===== src/Prelude/Lines/Laws.antt =====
-- Two printable lines, printed one after the other, are read back as those two lines.
use Prim.Native.Nat.{ℕ}
use Prim.Native.Char.{Char, code}
use Prim.Native.String.{String, [], ◌∷◌, ◌++◌}
use Prim.Native.String.append.{nil, cons}
use mathlib.Core.Path.{◌≡◌, refl, sym, ap, ◌∙◌}
use mathlib.Core.Bool.{true, false, ◌&&◌}
use mathlib.Core.Logic.{inl, inr}
use mathlib.Core.List.{◌∷◌ as ◌▸◌, [] as empty}
use native.Mathlib.Omega.{arith}
use bitheim.Prelude.Tests.{nat_beq, Bool-cases, eq_of_beq, or-true, string_eq}
use bitheim.Prelude.Text.{
  all_chars, is_printable, is_empty, is_space, is_prefix, lstrip, rstrip, strip,
}
use bitheim.Prelude.Lines.{is_suffix, pieces, is_line_end, join_returns, splitlines}

abbrev pub newline : Char
newline = "\n"

-- a text of printable characters that does not end in a space
abbrev pub IsLine : String → Type 0
IsLine s = (all_chars is_printable s ≡ true) × (rstrip s ≡ s) × (is_empty s ≡ false)

printable_inside : (c : ℕ) → is_printable c ≡ true → is_line_end c ≡ false
printable_inside c h = ground arith

printable_no_return : (c : ℕ) → is_printable c ≡ true → nat_beq c 0x0d ≡ false
printable_no_return c h = ground arith

rstrip_cons : (c : Char) (s : String) → is_empty (rstrip s) ≡ false → rstrip (c ∷ s) ≡ c ∷ rstrip s
unfolding rstrip
rstrip_cons c s h = elim (Bool-cases (is_space (code c))) [
  | inl e ↦ rw (e, h) refl
  | inr e ↦ rw e refl
]

pub append_filled : (t r : String) → is_empty r ≡ false → is_empty (t ++ r) ≡ false
append_filled [] r h = ap is_empty (nil r) ∙ h
append_filled (c ∷ t) r h = ap is_empty (cons c t r)

-- what stands in front of a text that is not all white space is kept
rstrip-append : (t r : String) → is_empty (rstrip r) ≡ false → rstrip (t ++ r) ≡ t ++ rstrip r
rstrip-append [] r h = rw (nil r, nil (rstrip r)) refl
rstrip-append (c ∷ t) r h =
    let again = rstrip-append t r h in
    ap rstrip (cons c t r)
    ∙ rstrip_cons c (t ++ r) (ap is_empty again ∙ append_filled t (rstrip r) h)
    ∙ ap (λ s. c ∷ s) again
    ∙ sym (cons c t (rstrip r))

rstrip-newline : (u : String) → rstrip (u ++ "\n") ≡ rstrip u
unfolding rstrip is_space
rstrip-newline [] = refl
rstrip-newline (c ∷ u) = rw (cons c u "\n", rstrip-newline u) refl

returns-append :
    (t r : String) → all_chars is_printable t ≡ true → join_returns (t ++ r) ≡ t ++ join_returns r
unfolding join_returns
returns-append [] r h = rw (nil r, nil (join_returns r)) refl
returns-append (c ∷ t) r h =
    ap join_returns (cons c t r)
    ∙ ground (arith, returns-append t r, printable_no_return (code c))
    ∙ sym (cons c t (join_returns r))

returns_id : (t : String) → all_chars is_printable t ≡ true → join_returns t ≡ t
unfolding join_returns
returns_id [] h = refl
returns_id (c ∷ t) h = ground (arith, returns_id t, printable_no_return (code c))

pieces-append :
    (t r : String)
    → all_chars is_printable t ≡ true
    → pieces is_line_end (t ++ newline ∷ r) ≡ t ▸ pieces is_line_end r
unfolding pieces
pieces-append [] r h = ap (pieces is_line_end) (nil (newline ∷ r))
pieces-append (c ∷ t) r h =
    ap (pieces is_line_end) (cons c t (newline ∷ r))
    ∙ ground (arith, pieces-append t r, printable_inside (code c))

pieces_id :
    (c : Char) (t : String)
    → all_chars is_printable (c ∷ t) ≡ true
    → pieces is_line_end (c ∷ t) ≡ (c ∷ t) ▸ empty
unfolding pieces
pieces_id c [] h = ground (arith, printable_inside (code c))
pieces_id c (d ∷ t) h = ground (arith, pieces_id d t, printable_inside (code c))

-- a line in braces
abbrev pub IsBraced : String → Type 0
IsBraced t = (all_chars is_printable t ≡ true) × (is_prefix "{" t ≡ true) × (is_suffix "}" t ≡ true)

rstrip_brace : (s : String) → s ≡ "}" → rstrip s ≡ s
unfolding rstrip is_space
rstrip_brace s h = rw h refl

suffix_filled : (s : String) → is_suffix "}" s ≡ true → is_empty s ≡ false
suffix_filled [] h = absurd (cc h)
suffix_filled (c ∷ s) h = refl

rstrip_braced : (t : String) → is_suffix "}" t ≡ true → rstrip t ≡ t
rstrip_braced [] h = absurd (cc h)
rstrip_braced (c ∷ s) h = elim (or-true (string_eq.same (c ∷ s) "}") (is_suffix "}" s) h) [
  | inl e ↦ rstrip_brace (c ∷ s) (eq_of_beq (c ∷ s) "}" e)
  | inr e ↦
      let again = rstrip_braced s e in
      rstrip_cons c s (ap is_empty again ∙ suffix_filled s e) ∙ ap (λ r. c ∷ r) again
]

brace_not_space : (c : ℕ) → (nat_beq 0x7b c && true) ≡ true → is_space c ≡ false
unfolding is_space
brace_not_space c h = ground arith

lstrip_brace : (c : Char) (s : String) → is_prefix "{" (c ∷ s) ≡ true → lstrip (c ∷ s) ≡ c ∷ s
unfolding lstrip
lstrip_brace c s h = rw (brace_not_space (code c) h) refl

lstrip_braced : (t r : String) → is_prefix "{" t ≡ true → lstrip (t ++ r) ≡ t ++ r
lstrip_braced [] r h = absurd (cc h)
lstrip_braced (c ∷ t) r h = ap lstrip (cons c t r) ∙ lstrip_brace c (t ++ r) h ∙ sym (cons c t r)

-- a line in braces has no white space around it
pub strip_braced : (t : String) → IsBraced t → strip t ≡ t
unfolding strip
strip_braced [] (p, b, e) = refl
strip_braced (c ∷ t) (p, b, e) = ap rstrip (lstrip_brace c t b) ∙ rstrip_braced (c ∷ t) e

rstrip_second : (u : String) → IsLine u → rstrip (newline ∷ (u ++ "\n")) ≡ newline ∷ u
rstrip_second u (q, r, f) =
    let same = rstrip-newline u ∙ r in
    rstrip_cons newline (u ++ "\n") (ap is_empty same ∙ f) ∙ ap (λ s. newline ∷ s) same

strip-two :
    (t u : String) → IsBraced t → IsLine u → strip (t ++ newline ∷ (u ++ "\n")) ≡ t ++ newline ∷ u
unfolding strip
strip-two t u (p, b, e) l =
    let second = rstrip_second u l in
    ap rstrip (lstrip_braced t _ b)
    ∙ rstrip-append t _ (ap is_empty second)
    ∙ ap (λ s. t ++ s) second

returns-newline : (u : String) → join_returns (newline ∷ u) ≡ newline ∷ join_returns u
unfolding join_returns
returns-newline u = refl

pieces_line : (u : String) → IsLine u → pieces is_line_end u ≡ u ▸ empty
pieces_line [] (q, r, f) = absurd (cc f)
pieces_line (c ∷ u) (q, r, f) = pieces_id c u q

-- Two lines, the first of them in braces, that are printed with a newline after each, are what `strip` and `splitlines`
-- give.
pub splitlines-two :
    (t u : String)
    → IsBraced t
    → IsLine u
    → splitlines (strip (t ++ newline ∷ (u ++ "\n"))) ≡ t ▸ u ▸ empty
unfolding splitlines
splitlines-two t u (p, b, e) (q, r, f) =
    ap (λ s. pieces is_line_end (join_returns s)) (strip-two t u (p, b, e) (q, r, f))
    ∙ ap (pieces is_line_end) (
        returns-append t (newline ∷ u) p
        ∙ ap (λ s. t ++ s) (returns-newline u ∙ ap (λ s. newline ∷ s) (returns_id u q)))
    ∙ pieces-append t u p
    ∙ ap (λ ls. t ▸ ls) (pieces_line u (q, r, f))
