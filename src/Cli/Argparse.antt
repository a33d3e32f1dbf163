-- ===== src/Cli/Argparse.antt =====
-- What interfaces/cli.py uses of `argparse`: parsers with long options and subcommands, and the reading of command lines
-- that spell every option in full, apart from its value. An abbreviated option, `--option=value`, `--`, a value that
-- begins with a dash, the options for help and version and every mistake give none, of which nothing is said.
use bitheim.Prelude.{
  String, Bool, true, false, Option, none, some, List, [], ◌∷◌, ◌++◌, map, not, ◌&&◌, ◌||◌, ◌==◌,
  string_eq, if◌then◌else◌,
}
use bitheim.Prelude.Int.{ℤ}
use bitheim.Prelude.Lines.Numbers.{is_word}
use bitheim.Value.{Value, null, bool, int, str, float, Float, is_null}

-- `action="store_true"`, or a value of `type=str`, `type=Path`, `type=float` or `type=int`
pub data Kind : Type 0 where
  switch text path number integer : Kind

-- `add_argument`, without the texts for a reader
pub record Argument : Type 0 where
  pub option : String
  pub dest : String
  pub kind : Kind

-- the functions that `set_defaults` names
pub data Handler : Type 0 where
  doctor start stop status inspect_node inspect_block inspect_mempool inspect_peers : Handler

-- the attributes, the newest first
abbrev pub Namespace : Type 0
Namespace = List (String × Value)

-- a parser without its subcommands: `exclusive` has the attributes of its required mutually exclusive group, and the last
-- two fields belong to `add_subparsers`
pub record Level : Type 0 where
  pub arguments : List Argument
  pub exclusive : List String
  pub defaults : Namespace
  pub handler : Option Handler
  pub dest : String
  pub required : Bool

mutual
  pub data Parser : Type 0 where
    parser : Level → Subparsers → Parser

  pub data Subparsers : Type 0 where
    no_parsers : Subparsers
    add_parser : String → Parser → Subparsers → Subparsers

-- an attribute that is absent is null
abbrev pub attribute : String → Namespace → Value
attribute name [] = null
attribute name ((k, v) ∷ ns) = if k == name then v else attribute name ns

abbrev pub find_argument : String → List Argument → Option Argument
find_argument option [] = none
find_argument option (a ∷ as') = if a.option == option then some a else find_argument option as'

abbrev find_parser : String → Subparsers → Option Parser
find_parser name no_parsers = none
find_parser name (add_parser k p ps) = if k == name then some p else find_parser name ps

-- a namespace, and the handler in it
pub record Parsed : Type 0 where
  pub handler : Option Handler
  pub attributes : Namespace

abbrev pub is_switch : Kind → Bool
is_switch switch = true
is_switch _ = false

abbrev default : Argument → String × Value
default a = (a.dest, if is_switch a.kind then bool false else null)

-- the attributes before any argument is read
abbrev pub fresh : Parser → Namespace
fresh (parser l ps) = l.defaults ++ map default l.arguments

abbrev own_handler : Parser → Option Handler
own_handler (parser l ps) = l.handler

-- no attribute of the list is set, but for the one named
abbrev unset : String → List String → Namespace → Bool
unset name [] ns = true
unset name (k ∷ ks) ns = (k == name || is_null (attribute k ns)) && unset name ks ns

-- a mutually exclusive group allows an attribute of its own only alone
abbrev allowed : Level → String → Namespace → Bool
allowed l dest ns = unset dest l.exclusive ns

abbrev is_nil : List String → Bool
is_nil [] = true
is_nil (k ∷ ks) = false

-- a required group has an attribute that is set
abbrev satisfied : Level → Namespace → Bool
satisfied l ns = is_nil l.exclusive || not (unset "" l.exclusive ns)

abbrev has_required : Level → Subparsers → Bool
has_required l no_parsers = true
has_required l (add_parser k p ps) = not l.required

abbrev pub or_else : Option Handler → Option Handler → Option Handler
or_else none h = h
or_else (some h) _ = some h

-- the end of a command line
abbrev pub finished : Parser → Namespace → Option Parsed
finished (parser l ps) ns =
    if satisfied l ns && has_required l ps
    then some (record { handler = l.handler; attributes = ns })
    else none

-- every attribute of a subcommand is set in the namespace of its parent
abbrev pub merged : Parser → String → Namespace → Option Parsed → Option Parsed
merged p name ns none = none
merged (parser l ps) name ns (some r) =
    if satisfied l ns
    then some (record {
      handler = or_else r.handler l.handler;
      attributes = r.attributes ++ ((l.dest, str name) ∷ ns);
    })
    else none

abbrev pub set : Parser → Argument → Option Value → Namespace → Option Namespace
set p a none ns = none
set (parser l ps) a (some v) ns = if allowed l a.dest ns then some ((a.dest, v) ∷ ns) else none

abbrev pub parser_argument : Parser → String → Option Argument
parser_argument (parser l ps) token = find_argument token l.arguments

abbrev pub subparser : Parser → String → Option Parser
subparser (parser l ps) token = find_parser token ps

-- `float` and `int` on a text
module _ (float_of_text : String → Option Float) (int_of_text : String → Option ℤ) where
  abbrev pub converted : Kind → String → Option Value
  converted switch s = none
  converted text s = some (str s)
  converted path s = some (str s)
  converted number s = elim (float_of_text s) [ none ↦ none | some x ↦ some (float x) ]
  converted integer s = elim (int_of_text s) [ none ↦ none | some n ↦ some (int n) ]

  -- the arguments from here on, after an option that waits for its value or not
  unfoldable pub parse_known : Parser → Namespace → Option Argument → List String → Option Parsed
  parse_known p ns none [] = finished p ns
  parse_known p ns (some a) [] = none
  parse_known p ns (some a) (value ∷ rest) =
      elim (if is_word value then set p a (converted a.kind value) ns else none) [
        | none ↦ none
        | some ns' ↦ parse_known p ns' none rest
      ]
  parse_known p ns none (token ∷ rest) = elim (parser_argument p token) [
    | some a ↦ elim (is_switch a.kind) [
      | true ↦ parse_known p ((a.dest, bool true) ∷ ns) none rest
      | false ↦ parse_known p ns (some a) rest
    ]
    | none ↦ elim (subparser p token) [
      | some q ↦ merged p token ns (parse_known q (fresh q) none rest)
      | none ↦ none
    ]
  ]

  -- `parser.parse_args(args)`
  unfoldable pub parse_args : Parser → List String → Option Parsed
  parse_args p args = parse_known p (fresh p) none args
