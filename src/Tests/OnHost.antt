-- ===== src/Tests/OnHost.antt =====
-- An inspection on a host whose Docker runs the program of Tests/Answer.
use bitheim.Prelude.{ℕ, some, ◌≡◌, refl, arith, ◌==◌, string_eq, nat_eq, if◌then◌else◌}
use mathlib.Core.Path.{subst}
use bitheim.Prelude.Int.{pos, int_eq}
use bitheim.Prelude.Text.{strip, lstrip, rstrip, is_space}
use bitheim.Prelude.Lines.{splitlines, pieces, join_returns, lower}
use bitheim.Value.{float_limit, Value, obj, int, find}
use bitheim.Value.Depth.{check_json_depth}
use bitheim.Value.Keys.{build, reject_duplicate_keys, reject_from, put_last, has}
use bitheim.Effect.{returns, handle, ◌>>=◌}
use bitheim.Effect.Clock.{now}
use bitheim.Domain.Node.{state_of_text}
use bitheim.Domain.Overview.{to_dict, node_overview, short_printable, lower_hex_64}
use bitheim.Service.Guards.{command_deadline}
use bitheim.Compose.Docker.{
  Docker, Completed, completed, loaded, argv, remaining, budget, build_env, run,
}
use bitheim.Compose.Runtime.{check_docker_runtime_available}
use bitheim.Compose.Containers.{
  dicts, from_lines, containers, service_state, find_service, listed_state, state_of_output,
  get_lifecycle_state_deadline,
}
use bitheim.Compose.Delegation.{delegated_result, delegated_output, loads_unique}
use bitheim.Compose.Delegation.Snapshots.{overview_snapshot, payload}
use bitheim.Compose.Delegation.RoundTrip.{Printed}
use bitheim.Compose.Parse.{parse_overview, any_hex_64}
use bitheim.Compose.Inspect.{run_delegated_inspection, require_runtime, delegate, inspect_node}
use bitheim.Cli.{json}
use bitheim.Cli.Exits.{succeeded}
use bitheim.Cli.Argparse.{parse_args, parse_known}
use bitheim.Cli.Parser.{build_parser}
use bitheim.Cli.Parser.Delegated.{node}
use bitheim.Cli.Parser.Answer.{Answered, inspected}
use bitheim.Cli.Parser.Answer.Ran.{Ran, Runs}
use bitheim.Cli.Parser.Answer.OnHost.{node_returned, inspection-Answered}
use bitheim.Tests.{overview}
use bitheim.Tests.Compose.{docker, settings, subcommand, container}
use bitheim.Tests.Answer.{
  no_float, seven, box, in_container, node_args, node_parsed, node_run, node_output,
}

abbrev host : Docker ℕ
host = record docker {
  process = λ args env t w. (
    completed (record node_output {
      stdout =
          if subcommand args == "ps"
          then "PS"
          else if subcommand args == "run"
          then "OVERVIEW"
          else "";
    }),
    w,
  );
  loads = λ s. loaded (if s == "PS" then container else obj (payload (overview_snapshot overview)));
}

host_run : inspect_node host settings "n1" (int (pos 10)) 0 ≡ returns overview 0
unfolding float_limit inspect_node delegate require_runtime run_delegated_inspection
    command_deadline now check_docker_runtime_available get_lifecycle_state_deadline dicts
    from_lines containers service_state find_service listed_state state_of_output splitlines pieces
    join_returns lower state_of_text remaining budget build_env run argv strip lstrip rstrip
    is_space find handle delegated_result delegated_output loads_unique build reject_duplicate_keys
    reject_from put_last has check_json_depth parse_overview any_hex_64 node_overview
    short_printable lower_hex_64 to_dict ◌>>=◌
host_run = refl

printed :
    (v : Value)
    → (succeeded (json (obj (payload (overview_snapshot overview))))).output ≡ some (json v)
    → Printed host.loads node_output v
unfolding strip lstrip rstrip is_space
printed v e = record { ended = refl; small = omega arith; read = cc e }

ran : Ran host settings box no_float seven "n1" node node_output
unfolding argv parse_args parse_known build_parser strip lstrip rstrip is_space
ran = record {
  args = node_args;
  parsed = node_parsed;
  before = (0, 0);
  after = (2, 1);
  finished = succeeded (json (obj (payload (overview_snapshot overview))));
  command = refl;
  read = refl;
  run = node_run;
  code = refl;
  printed = printed;
  written = refl;
}

runs : Runs host settings box no_float seven "n1" node
unfolding argv
runs c (env, t, u, e) code =
    let same : node_output ≡ c = cc e in
    subst (λ (c : Completed). Ran host settings box no_float seven "n1" node c) same ran

inspection-Answered_example : Answered box node (inspected (overview_snapshot overview))
inspection-Answered_example =
    inspection-Answered host settings box no_float seven in_container "n1" (int (pos 10)) 0 0 node
      (overview_snapshot overview) runs tt (node_returned overview host_run)
