-- ===== src/Tests/Compose.antt =====
-- The theorems on the Compose adapter, at concrete runs. The world is a clock that a started node sets ahead: from 1000
-- on the node is up.
use bitheim.Prelude.{
  ℕ, ◌+◌, String, true, false, Option, some, none, List, ◌∷◌, ◌≡◌, refl, leb, ◌==◌, string_eq,
  if◌then◌else◌,
}
use bitheim.Prelude.Int.{pos}
use bitheim.Prelude.Text.{strip, lstrip, rstrip, is_space}
use bitheim.Prelude.Lines.{splitlines, pieces, join_returns, lower}
use bitheim.Errors.{ok}
use bitheim.Value.{float_limit, Value, null, str, int, arr, nil, obj, field, end, find, second}
use bitheim.Effect.{returns, handle, ◌>>=◌}
use bitheim.Effect.Clock.{now}
use bitheim.Effect.Keeps.{Keeps}
use bitheim.Effect.Errors.{observation, RaisesOnly}
use bitheim.Domain.Node.{starting, healthy, Health, Status, state_of_text}
use bitheim.Service.Lifecycle.{start_node, poll, after_probe}
use bitheim.Service.Lifecycle.Safety.{RaisesLifecycle}
use bitheim.Service.Guards.{validate_service_node_id, validate_service_timeout, node_id_match}
use bitheim.Compose.Docker.{
  Settings, Docker, Command, info, ps, run_status, run_inspect, completed, loaded, argv, remaining,
  budget, build_env, run,
}
use bitheim.Compose.Resources.{
  resolved_or, search_package, search_checkout, has_dockerfile, get_bitcoin_core_resource_dir,
}
use bitheim.Compose.Runtime.{
  network_names, check_docker_runtime_available, check_networks, check_subnet_collision,
  ensure_image_available, locate_bitheim_build_context,
}
use bitheim.Compose.Containers.{
  dicts, from_lines, containers, service_state, find_service, listed_state, state_of_output,
  get_lifecycle_state_deadline,
}
use bitheim.Compose.Health.{
  enforce, check_members, check_health, check_probe, check_loaded, parse_delegated_health,
  probe_result,
}
use bitheim.Compose.Lifecycle.{
  compose_up, start, stop_project, stop, get_lifecycle_state, runtime_available, run_probe,
  probe_running, probe_health, get_status, lifecycle_port,
}
use bitheim.Compose.Inspect.{inspect_node, inspect_block, inspect_mempool, inspect_peers}
use bitheim.Compose.ReadOnly.{Harmless, is_read_only, read_only-Keeps}
use bitheim.Compose.Errors.{Decodable}
use bitheim.Compose.Errors.Lifecycle.{lifecycle_port-RaisesLifecycle}
use bitheim.Compose.Errors.Inspect.{inspections-RaisesOnly}
use bitheim.Compose.Safety.{IsVerified, started-IsVerified}
use bitheim.Compose.Stopping.{Observed, stop-Observed}
use bitheim.Tests.{hash}

-- the command of `docker compose`
abbrev pub subcommand : List String → String
subcommand (a ∷ b ∷ c ∷ d ∷ e ∷ f ∷ g ∷ rest) = g
subcommand _ = ""

abbrev effect : String → ℕ → ℕ
effect cmd w = if cmd == "up" then w + 1000 else if cmd == "stop" then 0 else w

abbrev output : String → ℕ → String
output cmd w =
    if cmd == "ps" then (if leb 1000 w then "PS" else "") else if cmd == "run" then "STATUS" else ""

abbrev pub container : Value
container = obj (field "Service" (str "bitcoin-core") (field "State" (str "running") end))

abbrev report : Value
report = obj (
    field "health"
      (obj (
        field "state" (str "healthy")
          (field "chain" (str "regtest") (field "version" (int (pos 310100)) end))))
      (field "peers" (arr nil) end))

abbrev pub docker : Docker ℕ
docker = record {
  clock = record { time = λ w. w; monotonic = λ w. (w, w); sleep = λ d w. w + d };
  which = λ cmd w. (true, w);
  process = λ args env t w. (
    completed (record { returncode = pos 0; stdout = output (subcommand args) w; stderr = "" }),
    effect (subcommand args) w,
  );
  environ = λ name w. (none, w);
  exists = λ p w. (true, w);
  is_file = λ p w. (true, w);
  is_dir = λ p w. (true, w);
  packaged = λ p w. (some p, w);
  resolve = λ p. p;
  repo_root = "/repo";
  networks = record {
    Net = ℕ;
    ip_network = λ s. some 0;
    overlaps = λ a b. false;
    is_ipv4 = λ a. true;
    is_private = λ a. true;
    text = λ a. "172.28.0.0/16";
  };
  loads = λ s. loaded (if s == "PS" then container else report);
  show = λ v. "x";
}

abbrev pub settings : Settings
settings = record {
  compose_template = "compose.yml";
  compose_subnet = "172.28.0.0/16";
  bitcoin_core_image = "core";
  bitheim_image = "bitheim";
  docker_cmd = "docker";
}

abbrev pub IsUp : ℕ → Type 0
IsUp w = leb 1000 w ≡ true

pub only_looks :
    (s : Settings) (cmd : Command) (env : Option (List (String × String))) (t w : ℕ)
    → is_read_only cmd ≡ true
    → IsUp w
    → IsUp (docker.process (argv s cmd) env t w).1
unfolding argv
only_looks s info env t w r h = h
only_looks s (ps id) env t w r h = h
only_looks s (run_status id) env t w r h = h
only_looks s (run_inspect id kind args) env t w r h = h
only_looks s _ env t w r h = absurd (cc r)

harmless : Harmless docker settings IsUp
harmless = record {
  clock = λ w h. h;
  which = λ cmd w h. h;
  environ = λ name w h. h;
  process = only_looks settings;
}

decodable : Decodable docker
decodable = record { process = λ args env t w. tt; loads = λ s h. cc }

read_only-Keeps_example :
    Keeps IsUp (get_lifecycle_state docker settings "n1")
    × Keeps IsUp (probe_health docker settings "n1" second)
    × Keeps IsUp (get_status docker settings "n1")
    × Keeps IsUp (inspect_node docker settings "n1" (int (pos 10)))
    × Keeps IsUp (inspect_block docker settings "n1" (str hash) null (int (pos 10)))
    × Keeps IsUp (inspect_mempool docker settings "n1" (int (pos 10)))
    × Keeps IsUp (inspect_peers docker settings "n1" (int (pos 10)))
read_only-Keeps_example =
    read_only-Keeps docker settings IsUp harmless "n1" second (str hash) null (int (pos 10))

lifecycle_port-RaisesLifecycle_example : RaisesLifecycle (lifecycle_port docker settings)
lifecycle_port-RaisesLifecycle_example = lifecycle_port-RaisesLifecycle docker settings decodable

inspections-RaisesOnly_example :
    RaisesOnly observation (inspect_block docker settings "n1" (str hash) null (int (pos 10)))
    × RaisesOnly observation (inspect_mempool docker settings "n1" (int (pos 10)))
    × RaisesOnly observation (inspect_peers docker settings "n1" (int (pos 10)))
inspections-RaisesOnly_example =
    inspections-RaisesOnly docker settings decodable "n1" (str hash) null (int (pos 10)) refl

abbrev verified_health : Health
verified_health = record {
  state = healthy;
  chain = some "regtest";
  version = some (pos 310100);
  protocol_version = none;
  blocks = none;
  headers = none;
  details = none;
}

abbrev started_status : Status
started_status = record {
  node_id = "n1";
  state = healthy;
  health = verified_health;
  details = none;
}

start_run :
    start_node docker.clock (lifecycle_port docker settings) (str "n1") (int (pos 5)) 0
    ≡ returns started_status 1000
unfolding float_limit start_node poll after_probe now validate_service_node_id
    validate_service_timeout node_id_match strip lstrip rstrip is_space ◌>>=◌ argv remaining budget
    build_env run resolved_or search_package search_checkout has_dockerfile
    get_bitcoin_core_resource_dir network_names check_docker_runtime_available check_networks
    check_subnet_collision ensure_image_available locate_bitheim_build_context dicts from_lines
    containers service_state find_service listed_state state_of_output get_lifecycle_state_deadline
    enforce check_members check_health check_probe check_loaded parse_delegated_health probe_result
    compose_up start get_lifecycle_state runtime_available run_probe probe_running probe_health
    get_status state_of_text splitlines pieces join_returns lower handle find
start_run = refl

started-IsVerified_example : IsVerified verified_health
started-IsVerified_example =
    started-IsVerified docker settings (str "n1") (int (pos 5)) 0 1000 started_status start_run

stop_run : stop docker settings "n1" second 1000 ≡ returns tt 0
unfolding stop stop_project now strip lstrip rstrip is_space ◌>>=◌ argv remaining budget build_env
    run check_docker_runtime_available dicts from_lines containers service_state find_service
    listed_state state_of_output get_lifecycle_state_deadline splitlines pieces join_returns lower
    find
stop_run = refl

stop-Observed_example : Observed docker settings "n1" (1000 + second) 0
stop-Observed_example = stop-Observed docker settings "n1" second 1000 0 stop_run

ps_run : state_of_output docker.show docker.loads "PS" ≡ ok starting
unfolding dicts from_lines containers service_state find_service listed_state state_of_output
    splitlines pieces join_returns lower find strip lstrip rstrip is_space
ps_run = refl
