-- ===== src/Tests/Answer.antt =====
-- An inspection that a host delegates, from its command line to the overview that it reads.
use bitheim.Prelude.Text.{strip, lstrip, rstrip, is_space}
use bitheim.Value.{float_limit, Value, Float, null, bool, str, obj, find}
use bitheim.Value.Depth.{check_json_depth}
use bitheim.Value.Keys.{build, reject_duplicate_keys, reject_from, put_last, has}
use bitheim.Effect.{returns, finally, ◌>>=◌}
use bitheim.Effect.Clock.{now}
use bitheim.Domain.Overview.{node_overview, short_printable, lower_hex_64}
use bitheim.Domain.Block.{hex_64}
use bitheim.Service.Guards.{command_deadline}
use bitheim.Bitcoin.Credential.{
  credential, drop_newline, before_colon, after_colon, check_lstat, check_fstat,
}
use bitheim.Bitcoin.Cookie.{read_open, open_and_read, read_bytes, read_cookie_header}
use bitheim.Bitcoin.Envelope.{envelope}
use bitheim.Bitcoin.Envelope.Reading.{after_read, read_body, read_and_parse_envelope}
use bitheim.Bitcoin.Parse.{parse_network_info, parse_chain_info, overview_args}
use bitheim.Bitcoin.Client.{bitcoin_rpc_client, on_reply, send_request, get_node_overview}
use bitheim.Tests.{overview}
use bitheim.Prelude.{
  String, List, [], ◌∷◌, ◌++◌, true, false, Option, none, some, ◌≡◌, ◌==◌, string_eq, nat_eq, refl,
  arith, if◌then◌else◌,
}
use bitheim.Prelude.Int.{ℤ, pos}
use bitheim.Prelude.Lines.{show_nat, digits}
use bitheim.Service.Observation
use bitheim.Effect.{lift, handle, ask, pure}
use bitheim.Configuration.{
  validate_node_id, validate_compose_subnet, validate_timeout, float_value, validate_data_dir,
  environment, file_layer, apply, resolve_file, read_file, node_configuration, effective,
  load_configuration,
}
use bitheim.Service.Guards.{node_id_match}
use bitheim.Bitcoin.Probe.{ProbeEnvironment, failed}
use bitheim.Compose.Docker.{Docker, Completed, Loaded, loaded, argv, file_not_found}
use bitheim.Compose.Delegation.Snapshots.{overview_snapshot, payload}
use bitheim.Compose.Delegation.RoundTrip.{Printed}
use bitheim.Cli.{
  container_client, json, handle_inspect_node, configured, is_container_execution_context, main,
}
use bitheim.Cli.Exits.{succeeded}
use bitheim.Cli.Doctor.{Machine}
use bitheim.Cli.Argparse.{Parsed, parse_args, parse_known}
use bitheim.Cli.Parser.{build_parser, main_parsed, run_handler}
use bitheim.Cli.Parser.Delegated.{
  node, by_height, handler_of, args_for, command_of, service_run, ReadsAs, argv-ReadsAs,
}
use bitheim.Cli.Parser.Lost.{seen, config-lost}
use bitheim.Cli.Parser.Answer.{Answer, Answered, IsRead}
use bitheim.Cli.Parser.Answer.EndToEnd.{delegation-Answered}
use bitheim.Tests.Client.{World, clock, healthy_env}
use bitheim.Tests.Configuration.{around}
use bitheim.Tests.Compose.{settings}

-- `float` reads no text, and `int` reads one
abbrev pub no_float : String → Option Float
no_float s = none

abbrev pub seven : String → Option ℤ
seven s = if s == "7" then some (pos 7) else none

argv-ReadsAs_example :
    (args : List String) × (argv settings (command_of "n1" (by_height 7))
      ≡ service_run settings "n1" ++ args)
    × ReadsAs no_float seven args (handler_of (by_height 7)) (args_for (by_height 7))
unfolding show_nat digits
argv-ReadsAs_example = argv-ReadsAs no_float seven settings "n1" (by_height 7) refl tt

config-lost_example :
    let read = λ (args : List String).
      seen no_float seven (parse_args no_float seven build_parser ("inspect" ∷ args)) in
    (read ("--config" ∷ "a.toml" ∷ "node" ∷ "--json" ∷ []) ≡ read ("node" ∷ "--json" ∷ []))
    × (read ("--config" ∷ "a.toml" ∷ "block" ∷ "--json" ∷ []) ≡ read ("block" ∷ "--json" ∷ []))
    × (read ("--config" ∷ "a.toml" ∷ "mempool" ∷ "--json" ∷ []) ≡ read ("mempool" ∷ "--json" ∷ []))
    × (read ("--config" ∷ "a.toml" ∷ "peers" ∷ "--json" ∷ []) ≡ read ("peers" ∷ "--json" ∷ []))
config-lost_example = config-lost no_float seven "a.toml" ("--json" ∷ []) refl

-- a container, in which there is no Docker
abbrev no_docker : Docker World
no_docker = record {
  clock = clock;
  which = λ cmd w. (false, w);
  process = λ args env t w. (file_not_found, w);
  environ = λ name w. (if name == "BITHEIM_EXECUTION_CONTEXT" then some "container" else none, w);
  exists = λ p w. (false, w);
  is_file = λ p w. (false, w);
  is_dir = λ p w. (false, w);
  packaged = λ p w. (none, w);
  resolve = λ p. p;
  repo_root = "/repo";
  networks = around.networks;
  loads = λ s. loaded null;
  show = λ v. "x";
}

abbrev no_probe : ProbeEnvironment World
no_probe = record {
  text = record { decode = λ b. none; loads = λ s. none };
  show = λ v. "x";
  cookie = λ w. (none, w);
  base64 = λ s. s;
  post = λ m h w. (failed, w);
}

abbrev pub box : Machine World
box = record {
  host = record {
    docker = no_docker;
    surroundings = around;
    variables = λ name. none;
    client = healthy_env;
    probe = no_probe;
    is_int = λ s. true;
  };
  python_compatible = true;
  writable = λ p w. (true, w);
  parents = λ p. [];
  docker_path = λ w. (none, w);
}

pub in_container :
    (w : World) → (w' : World) × (is_container_execution_context box.host w ≡ returns true w')
unfolding is_container_execution_context ask pure ◌>>=◌
in_container w = (w, refl)

abbrev pub node_args : List String
node_args = "inspect" ∷ "node" ∷ "--json" ∷ []

abbrev pub node_parsed : Parsed
node_parsed = record {
  handler = some (handler_of node);
  attributes =
      ("json", bool true)
      ∷ ("config", null)
      ∷ ("data_dir", null)
      ∷ ("node_id", null)
      ∷ ("timeout", null)
      ∷ ("json", bool false)
      ∷ ("inspect_subcommand", str "node")
      ∷ ("config", null)
      ∷ ("data_dir", null)
      ∷ ("subcommand", str "inspect")
      ∷ [];
}

pub node_run :
    main_parsed box node_parsed (0, 0)
    ≡ returns (succeeded (json (obj (payload (overview_snapshot overview))))) (2, 1)
unfolding float_limit get_node_overview send_request read_cookie_header read_bytes open_and_read
    read_open credential check_lstat check_fstat drop_newline strip lstrip rstrip is_space
    before_colon after_colon finally now on_reply read_and_parse_envelope read_body after_read build
    reject_duplicate_keys reject_from put_last has envelope check_json_depth find command_deadline
    parse_network_info parse_chain_info overview_args node_overview short_printable lower_hex_64
    hex_64 ◌>>=◌ main_parsed run_handler main handle_inspect_node Observation.inspect_node
    configured lift pure ask handle load_configuration effective node_configuration resolve_file
    read_file apply file_layer environment validate_data_dir validate_timeout float_value
    validate_compose_subnet validate_node_id node_id_match is_container_execution_context
    container_client bitcoin_rpc_client
node_run = refl

abbrev pub node_output : Completed
node_output = record { returncode = pos 0; stdout = "OVERVIEW"; stderr = "" }

-- the output of the program as a text
abbrev output_loads : String → Loaded
output_loads s = loaded (obj (payload (overview_snapshot overview)))

node_printed :
    (v : Value)
    → (succeeded (json (obj (payload (overview_snapshot overview))))).output ≡ some (json v)
    → Printed output_loads node_output v
node_printed v e = record { ended = refl; small = omega arith; read = cc e }

delegation-Answered_example :
    (a : Answer) × Answered box node a × IsRead no_probe.show output_loads node_output a
unfolding argv parse_args parse_known build_parser strip is_space
delegation-Answered_example =
    delegation-Answered box in_container no_float seven no_probe.show output_loads settings "n1"
      node node_args node_parsed (0, 0) (2, 1)
      (succeeded (json (obj (payload (overview_snapshot overview))))) node_output tt tt refl refl
      node_run refl node_printed refl
