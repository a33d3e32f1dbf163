-- ===== src/Cli/Parser/Delegated.antt =====
-- What the program in a container makes of the arguments that the adapter on a host gives it.
use Prim.Native.String.{[], ◌∷◌ as char}
use bitheim.Prelude.{
  ℕ, String, true, Option, none, some, List, [] as nil, ◌∷◌, ◌++◌, ◌≡◌, refl, arith,
}
use bitheim.Prelude.Int.{ℤ, pos}
use bitheim.Prelude.Lines.{show_nat}
use bitheim.Prelude.Lines.Numbers.{is_word, show_nat-is_word}
use bitheim.Value.{Value, null, str, int, Float}
use bitheim.Domain.Block.{hex_64}
use bitheim.Compose.Docker.{Settings, Command, run_status, run_inspect, argv}
use bitheim.Compose.Inspect.{block_args}
use bitheim.Cli.{Args}
use bitheim.Cli.Argparse.{
  Handler, status, inspect_node, inspect_block, inspect_mempool, inspect_peers, Parsed, parse_args,
  parse_known,
}
use bitheim.Cli.Parser.{build_parser, args_of}

-- what a host has a container do: a probe of the health, or an inspection
pub data Request : Type 0 where
  probe node mempool peers : Request
  by_hash : String → Request
  by_height : ℕ → Request

-- the Docker command for a request
abbrev pub command_of : String → Request → Command
command_of node_id probe = run_status node_id
command_of node_id node = run_inspect node_id "node" nil
command_of node_id mempool = run_inspect node_id "mempool" nil
command_of node_id peers = run_inspect node_id "peers" nil
command_of node_id (by_hash h) = run_inspect node_id "block" (block_args (some h) none)
command_of node_id (by_height n) = run_inspect node_id "block" (block_args none (some n))

abbrev pub handler_of : Request → Handler
handler_of probe = status
handler_of node = inspect_node
handler_of mempool = inspect_mempool
handler_of peers = inspect_peers
handler_of (by_hash h) = inspect_block
handler_of (by_height n) = inspect_block

abbrev hash_of : Request → Value
hash_of (by_hash h) = str h
hash_of _ = null

abbrev height_of : Request → Value
height_of (by_height n) = int (pos n)
height_of _ = null

-- the arguments of the handler for a request: JSON, and all else left to the configuration and the defaults
abbrev pub args_for : Request → Args
args_for r = record {
  config = none;
  data_dir = none;
  node_id = none;
  timeout = none;
  block_hash = hash_of r;
  height = height_of r;
  as_json = true;
}

-- the start of a one-shot container of the service `bitheim`, whose program takes the arguments that follow
abbrev pub service_run : Settings → String → List String
service_run s node_id =
    s.docker_cmd ∷ "compose" ∷ "-f" ∷ s.compose_template ∷ "--project-name" ∷ node_id ∷ "run"
    ∷ "--rm" ∷ "--no-deps" ∷ "-T" ∷ "bitheim" ∷ nil

-- what the adapter has checked
abbrev pub IsAccepted : Request → Type 0
IsAccepted (by_hash h) = hex_64 h ≡ true
IsAccepted _ = Unit

hex-is_word : (h : String) → hex_64 h ≡ true → is_word h ≡ true
unfolding hex_64
hex-is_word [] e = absurd (cc e)
hex-is_word (char c s) e = ground arith

module _ (float_of_text : String → Option Float) (int_of_text : String → Option ℤ) where
  -- For the height of a request, `int(str(n))` is `n`.
  abbrev pub ReadsHeight : Request → Type 0
  ReadsHeight (by_height n) = int_of_text (show_nat n) ≡ some (pos n)
  ReadsHeight _ = Unit

  -- the arguments are read as those of the handler
  abbrev pub ReadsAs : List String → Handler → Args → Type 0
  ReadsAs args h a =
      (r : Parsed) × (parse_args float_of_text int_of_text build_parser args ≡ some r)
      × (r.handler ≡ some h)
      × (args_of r.attributes ≡ a)

  -- The arguments of the program in a container, for a request whose hash has been checked or whose height `int` reads
  -- back, are read as those of the handler for this request, with the same hash or height, with JSON, and with no other
  -- option set.
  pub argv-ReadsAs :
      (s : Settings) (node_id : String) (r : Request)
      → ReadsHeight r
      → IsAccepted r
      → (args : List String) × (argv s (command_of node_id r) ≡ service_run s node_id ++ args)
        × ReadsAs args (handler_of r) (args_for r)
  unfolding argv parse_args parse_known build_parser
  argv-ReadsAs s id probe i v = (_, refl, (_, refl, refl, refl))
  argv-ReadsAs s id node i v = (_, refl, (_, refl, refl, refl))
  argv-ReadsAs s id mempool i v = (_, refl, (_, refl, refl, refl))
  argv-ReadsAs s id peers i v = (_, refl, (_, refl, refl, refl))
  argv-ReadsAs s id (by_hash h) i v = (_, refl, rw (hex-is_word h v) (_, refl, refl, refl))
  argv-ReadsAs s id (by_height n) i v = (_, refl, rw (show_nat-is_word n, i) (_, refl, refl, refl))
