-- ===== src/Cli/Parser/Lost.antt =====
-- An option that is given before the kind of an inspection.
use bitheim.Prelude.{
  String, true, false, Option, none, some, List, [], ◌∷◌, ◌++◌, ◌≡◌, refl, ◌∙◌, sym, ap, ◌==◌,
  string_eq,
}
use mathlib.Core.List.{append_assoc}
use bitheim.Prelude.Int.{ℤ}
use bitheim.Prelude.Lines.Numbers.{is_word}
use bitheim.Value.{str, Float}
use bitheim.Cli.{Args}
use bitheim.Cli.Argparse.{
  Handler, Level, Namespace, Parsed, parser, no_parsers, attribute, fresh, merged, or_else,
  parse_args, parse_known,
}
use bitheim.Cli.Parser.{build_parser, inspect_parser, args_of}
use bitheim.Cli.Parser.Kept.{has_key, attribute-append, attribute-append_eq, parse_known-Holds}

module _ (float_of_text : String → Option Float) (int_of_text : String → Option ℤ) where
  -- what `main` sees of a reading
  abbrev pub seen : Option Parsed → Option (Option Handler × Args)
  seen none = none
  seen (some r) = some (r.handler, args_of r.attributes)

  args_same :
      (ns ms ms' : Namespace)
      → has_key "config" ns ≡ true
      → ((k : String) → ("config" == k) ≡ false → attribute k ms ≡ attribute k ms')
      → args_of (ns ++ ms) ≡ args_of (ns ++ ms')
  args_same ns ms ms' h same =
      rw
        (
          attribute-append "config" ns ms ms' h,
          attribute-append_eq "data_dir" ns ms ms' (same "data_dir" refl),
          attribute-append_eq "node_id" ns ms ms' (same "node_id" refl),
          attribute-append_eq "timeout" ns ms ms' (same "timeout" refl),
          attribute-append_eq "block_hash" ns ms ms' (same "block_hash" refl),
          attribute-append_eq "height" ns ms ms' (same "height" refl),
          attribute-append_eq "json" ns ms ms' (same "json" refl),
        )
        refl

  -- what the parser of a kind gives does not depend on a path that was read before it
  lost :
      (name path : String) (o : Option Parsed)
      → ((r : Parsed) → o ≡ some r → has_key "config" r.attributes ≡ true)
      → seen (
          merged build_parser "inspect" []
            (merged inspect_parser name (("config", str path) ∷ fresh inspect_parser) o))
        ≡ seen
            (merged build_parser "inspect" [] (merged inspect_parser name (fresh inspect_parser) o))
  unfolding build_parser
  lost name path none holds = refl
  lost name path (some r) holds =
      ap (λ (a : Args). some (or_else (or_else r.handler none) none, a))
        (ap args_of (append_assoc r.attributes _ _)
          ∙ args_same r.attributes _ _ (holds r refl) (λ k e. rw e refl)
          ∙ sym (ap args_of (append_assoc r.attributes _ _)))

  one :
      (path : String) (args : List String)
      → is_word path ≡ true
      → parse_known float_of_text int_of_text inspect_parser
          (fresh inspect_parser)
          none
          ("--config" ∷ path ∷ args)
        ≡ parse_known float_of_text int_of_text inspect_parser
            (("config", str path) ∷ fresh inspect_parser)
            none
            args
  unfolding parse_known
  one path args h = rw (h, parse_known) refl

  abbrev kind_read : Level → List String → Option Parsed
  kind_read l rest =
      parse_known float_of_text int_of_text (parser l no_parsers) (fresh (parser l no_parsers)) none
        rest

  -- the same for a kind with the given parser
  same :
      (name path : String) (l : Level) (rest : List String)
      → is_word path ≡ true
      → has_key "config" (fresh (parser l no_parsers)) ≡ true
      → ((ns : Namespace)
          → parse_known float_of_text int_of_text inspect_parser ns none (name ∷ rest)
            ≡ merged inspect_parser name ns (kind_read l rest))
      → seen (
          parse_args float_of_text int_of_text build_parser
            ("inspect" ∷ "--config" ∷ path ∷ name ∷ rest))
        ≡ seen (parse_args float_of_text int_of_text build_parser ("inspect" ∷ name ∷ rest))
  unfolding parse_args parse_known build_parser
  same name path l rest h k read =
      ap (λ (o : Option Parsed). seen (merged build_parser "inspect" [] o))
        (one path (name ∷ rest) h ∙ read _)
      ∙ lost name path (kind_read l rest)
          (λ r. parse_known-Holds float_of_text int_of_text l "config" rest _ none r k)
      ∙ sym (ap (λ (o : Option Parsed). seen (merged build_parser "inspect" [] o)) (read _))

  -- If `--config` stands between `inspect` and its kind, the path is lost: the command line is read as it would be without
  -- the option, for every kind and whatever follows.
  pub config-lost :
      (path : String) (rest : List String)
      → is_word path ≡ true
      → let read = λ (args : List String).
        seen (parse_args float_of_text int_of_text build_parser ("inspect" ∷ args)) in
        (read ("--config" ∷ path ∷ "node" ∷ rest) ≡ read ("node" ∷ rest))
        × (read ("--config" ∷ path ∷ "block" ∷ rest) ≡ read ("block" ∷ rest))
        × (read ("--config" ∷ path ∷ "mempool" ∷ rest) ≡ read ("mempool" ∷ rest))
        × (read ("--config" ∷ path ∷ "peers" ∷ rest) ≡ read ("peers" ∷ rest))
  unfolding parse_args parse_known build_parser
  config-lost path rest h = (
    same "node" path _ rest h refl (λ ns. refl),
    same "block" path _ rest h refl (λ ns. refl),
    same "mempool" path _ rest h refl (λ ns. refl),
    same "peers" path _ rest h refl (λ ns. refl),
  )
