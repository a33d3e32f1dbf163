-- ===== src/Cli/Parser.antt =====
-- interfaces/cli.py: `build_parser`, and `main` from the read arguments on.
pub mod Answer
pub mod Delegated
pub mod Kept
pub mod Lost
use bitheim.Prelude.{
  String, Bool, true, false, Option, none, some, List, [], ◌∷◌, ◌++◌, ◌==◌, string_eq,
  if◌then◌else◌,
}
use bitheim.Value.{Value, null, bool, str}
use bitheim.Effect.{M, pure, handle, ◌>>=◌}
use bitheim.Cli.Argparse.{
  Argument, text, path, number, integer, switch, Handler, doctor, start, stop, status, inspect_node,
  inspect_block, inspect_mempool, inspect_peers, Namespace, Level, Parser, parser, Subparsers,
  no_parsers, add_parser, Parsed, attribute,
}
use bitheim.Cli.{
  Args, report, Finished, handle_start, handle_stop, handle_status, handle_inspect_node,
  handle_inspect_block, handle_inspect_mempool, handle_inspect_peers, failed, main,
}
use bitheim.Cli.Doctor.{Machine, handle_doctor}

-- `common_parser`
abbrev pub common_arguments : List Argument
common_arguments =
    record { option = "--config"; dest = "config"; kind = path }
    ∷ record { option = "--data-dir"; dest = "data_dir"; kind = text }
    ∷ []

abbrev node_id_argument : Argument
node_id_argument = record { option = "--node-id"; dest = "node_id"; kind = text }

abbrev timeout_argument : Argument
timeout_argument = record { option = "--timeout"; dest = "timeout"; kind = number }

abbrev json_argument : Argument
json_argument = record { option = "--json"; dest = "json"; kind = switch }

-- a parser with the common arguments and its own, and the function that runs it
abbrev command : List Argument → Handler → Level
command own h = record {
  arguments = common_arguments ++ own;
  exclusive = [];
  defaults = [];
  handler = some h;
  dest = "";
  required = false;
}

abbrev pub doctor_parser : Parser
doctor_parser = parser (command [] doctor) no_parsers

abbrev pub start_parser : Parser
start_parser = parser (command (node_id_argument ∷ timeout_argument ∷ []) start) no_parsers

abbrev pub stop_parser : Parser
stop_parser = parser (command (node_id_argument ∷ timeout_argument ∷ []) stop) no_parsers

abbrev pub status_parser : Parser
status_parser = parser (command (node_id_argument ∷ json_argument ∷ []) status) no_parsers

abbrev inspection : Handler → Level
inspection h = command (node_id_argument ∷ timeout_argument ∷ json_argument ∷ []) h

abbrev pub inspect_node_parser : Parser
inspect_node_parser = parser (inspection inspect_node) no_parsers

abbrev pub inspect_block_parser : Parser
inspect_block_parser =
    parser
      (record (inspection inspect_block) {
        arguments =
            (inspection inspect_block).arguments
            ++ (record { option = "--hash"; dest = "block_hash"; kind = text }
                ∷ record { option = "--height"; dest = "height"; kind = integer }
                ∷ []);
        exclusive = "block_hash" ∷ "height" ∷ [];
      })
      no_parsers

abbrev pub inspect_mempool_parser : Parser
inspect_mempool_parser =
    parser
      (record (inspection inspect_mempool) { defaults = ("inspect_command", str "mempool") ∷ [] })
      no_parsers

abbrev pub inspect_peers_parser : Parser
inspect_peers_parser =
    parser (record (inspection inspect_peers) { defaults = ("inspect_command", str "peers") ∷ [] })
      no_parsers

abbrev pub inspect_parser : Parser
inspect_parser =
    parser
      (record {
        arguments = common_arguments;
        exclusive = [];
        defaults = [];
        handler = none;
        dest = "inspect_subcommand";
        required = true;
      })
      (add_parser "node" inspect_node_parser (
        add_parser "block" inspect_block_parser (
          add_parser "mempool" inspect_mempool_parser
            (add_parser "peers" inspect_peers_parser no_parsers))))

unfoldable pub build_parser : Parser
build_parser =
    parser
      (record {
        arguments = [];
        exclusive = [];
        defaults = [];
        handler = none;
        dest = "subcommand";
        required = false;
      })
      (add_parser "doctor" doctor_parser (
        add_parser "start" start_parser (
          add_parser "stop" stop_parser
            (add_parser "status" status_parser (add_parser "inspect" inspect_parser no_parsers)))))

-- `None` or a value
abbrev given : Value → Option Value
given null = none
given v = some v

abbrev given_text : Value → Option String
given_text (str s) = some s
given_text v = none

abbrev is_true : Value → Bool
is_true (bool b) = b
is_true v = false

-- the attributes that the handlers read
abbrev pub args_of : Namespace → Args
args_of ns = record {
  config = given_text (attribute "config" ns);
  data_dir = given (attribute "data_dir" ns);
  node_id = given (attribute "node_id" ns);
  timeout = given (attribute "timeout" ns);
  block_hash = attribute "block_hash" ns;
  height = attribute "height" ns;
  as_json = is_true (attribute "json" ns);
}

module _ {W : Type 0} (m : Machine W) where
  -- `main` with `handle_doctor`, whose result is the exit code
  unfoldable pub main_doctor : Args → M W Finished
  main_doctor args =
      handle
        (handle_doctor m args >>= (λ code.
          pure
            (record { code = code; output = some report; delegated = none; own_message = false })))
        (failed m.host)

  unfoldable pub run_handler : Handler → Args → M W Finished
  run_handler doctor args = main_doctor args
  run_handler start args = main m.host (handle_start m.host args)
  run_handler stop args = main m.host (handle_stop m.host args)
  run_handler status args = main m.host (handle_status m.host args)
  run_handler inspect_node args = main m.host (handle_inspect_node m.host args)
  run_handler inspect_block args = main m.host (handle_inspect_block m.host args)
  run_handler inspect_mempool args = main m.host (handle_inspect_mempool m.host args)
  run_handler inspect_peers args = main m.host (handle_inspect_peers m.host args)

  -- `main` after `parse_args`: without a handler nothing is done
  unfoldable pub main_parsed : Parsed → M W Finished
  main_parsed r = elim r.handler [
    | none ↦ pure (record { code = 0; output = none; delegated = none; own_message = false })
    | some h ↦ run_handler h (args_of r.attributes)
  ]
