-- ===== src/Cli/Parser/Kept.antt =====
-- Attributes that the reading of a command line keeps.
use bitheim.Prelude.{
  String, Bool, true, false, Option, none, some, List, [], ◌∷◌, ◌++◌, ◌≡◌, refl, ap, ◌||◌, ◌==◌,
  string_eq, Bool-cases, inl, inr, arith, if◌then◌else◌,
}
use bitheim.Prelude.Int.{ℤ}
use bitheim.Prelude.Lines.Numbers.{is_word}
use bitheim.Value.{Value, bool, Float}
use bitheim.Cli.Argparse.{
  Argument, Level, Namespace, Parsed, Parser, parser, no_parsers, attribute, find_argument,
  is_switch, set, converted, parse_known,
}

abbrev pub has_key : String → Namespace → Bool
has_key k [] = false
has_key k ((j, v) ∷ ns) = j == k || has_key k ns

-- what a namespace has, it shows before all that follows it
pub attribute-append :
    (k : String) (ns ms ms' : Namespace)
    → has_key k ns ≡ true
    → attribute k (ns ++ ms) ≡ attribute k (ns ++ ms')
attribute-append k [] ms ms' h = absurd (cc h)
attribute-append k ((j, v) ∷ ns) ms ms' h = elim (Bool-cases (j == k)) [
  | inl e ↦ rw e refl
  | inr e ↦ rw e (attribute-append k ns ms ms' (ground (arith, e)))
]

pub attribute-append_eq :
    (k : String) (ns ms ms' : Namespace)
    → attribute k ms ≡ attribute k ms'
    → attribute k (ns ++ ms) ≡ attribute k (ns ++ ms')
attribute-append_eq k [] ms ms' e = e
attribute-append_eq k ((j, v) ∷ ns) ms ms' e =
    ap (λ (x : Value). if j == k then v else x) (attribute-append_eq k ns ms ms' e)

set-has_key :
    (l : Level) (k : String) (ns ns' : Namespace) (a : Argument) (b : Bool) (v : Option Value)
    → has_key k ns ≡ true
    → (if b then set (parser l no_parsers) a v ns else none) ≡ some ns'
    → has_key k ns' ≡ true
set-has_key l k ns ns' a true (some v) h e = ground arith
set-has_key l k ns ns' a true none h e = absurd (cc e)
set-has_key l k ns ns' a false v h e = absurd (cc e)

switch_key :
    (k : String) (p : String × Value) (ns : Namespace)
    → has_key k ns ≡ true
    → has_key k (p ∷ ns) ≡ true
switch_key k (j, v) ns h = ground arith

module _ (float_of_text : String → Option Float) (int_of_text : String → Option ℤ) where
  -- the rest of a command line keeps an attribute
  abbrev pub Holds : Parser → String → List String → Type 0
  Holds p k rest =
      (ns : Namespace) (o : Option Argument) (r : Parsed)
      → has_key k ns ≡ true
      → parse_known float_of_text int_of_text p ns o rest ≡ some r
      → has_key k r.attributes ≡ true

  valued :
      (l : Level) (k : String) (rest : List String) (o : Option Namespace) (r : Parsed)
      → Holds (parser l no_parsers) k rest
      → ((ns : Namespace) → o ≡ some ns → has_key k ns ≡ true)
      → elim o [
        | none ↦ none
        | some ns ↦ parse_known float_of_text int_of_text (parser l no_parsers) ns none rest
      ]
        ≡ some r
      → has_key k r.attributes ≡ true
  valued l k rest none r ih new e = absurd (cc e)
  valued l k rest (some ns) r ih new e = ih ns none r (new ns refl) e

  switched :
      (l : Level) (k : String) (rest : List String) (a : Argument) (ns : Namespace) (b : Bool)
      (r : Parsed)
      → Holds (parser l no_parsers) k rest
      → has_key k ns ≡ true
      → elim b [
        | true ↦
            parse_known float_of_text int_of_text
              (parser l no_parsers)
              ((a.dest, bool true) ∷ ns)
              none
              rest
        | false ↦ parse_known float_of_text int_of_text (parser l no_parsers) ns (some a) rest
      ]
        ≡ some r
      → has_key k r.attributes ≡ true
  switched l k rest a ns true r ih h e = ih _ none r (switch_key k (a.dest, bool true) ns h) e
  switched l k rest a ns false r ih h e = ih ns (some a) r h e

  recognised :
      (l : Level) (k : String) (rest : List String) (ns : Namespace) (r : Parsed)
      (o : Option Argument)
      → Holds (parser l no_parsers) k rest
      → has_key k ns ≡ true
      → elim o [
        | some a ↦ elim (is_switch a.kind) [
          | true ↦
              parse_known float_of_text int_of_text
                (parser l no_parsers)
                ((a.dest, bool true) ∷ ns)
                none
                rest
          | false ↦ parse_known float_of_text int_of_text (parser l no_parsers) ns (some a) rest
        ]
        | none ↦ none
      ]
        ≡ some r
      → has_key k r.attributes ≡ true
  recognised l k rest ns r none ih h e = absurd (cc e)
  recognised l k rest ns r (some a) ih h e = switched l k rest a ns (is_switch a.kind) r ih h e

  -- a parser without subcommands keeps every attribute
  pub parse_known-Holds :
      (l : Level) (k : String) (args : List String) → Holds (parser l no_parsers) k args
  unfolding parse_known
  parse_known-Holds l k [] ns none r h e = ground arith
  parse_known-Holds l k [] ns (some a) r h e = absurd (cc e)
  parse_known-Holds l k (value ∷ rest) ns (some a) r h e =
      valued l k rest _ r (parse_known-Holds l k rest)
        (λ ns' e'.
          set-has_key l k ns ns' a (is_word value)
            (converted float_of_text int_of_text a.kind value) h e')
        e
  parse_known-Holds l k (token ∷ rest) ns none r h e =
      recognised l k rest ns r (find_argument token l.arguments) (parse_known-Holds l k rest) h e
