-- ===== src/Tests/Cli.antt =====
-- The theorems on the command line, over the world of the tests of the adapter, on a host and in a container.
use bitheim.Prelude.{ℕ, [], ◌==◌, string_eq, Bool, true, false, none, some, ◌≡◌, refl}
use bitheim.Prelude.Int.{pos}
use bitheim.Errors.{ok, configuration_error}
use bitheim.Value.{float_limit, null, int, str, finite}
use bitheim.Effect.{returns, raises, lift, handle, ask, pure, ◌>>=◌}
use bitheim.Effect.Keeps.{Keeps}
use bitheim.Bitcoin.Client.{Environment, unreachable}
use bitheim.Bitcoin.Envelope.Reading.{bytes}
use bitheim.Cli.{
  Host, Args, adapter, configured, is_container_execution_context, handle_start, handle_stop,
  handle_status, handle_inspect_node, handle_inspect_block, handle_inspect_mempool,
  handle_inspect_peers, main,
}
use bitheim.Cli.Doctor.{
  Machine, handle_doctor, check_configuration, checked, check_rest, check_data_dir, accessible,
  check_runtime, query, succeeded, check_docker, check_rpc, check_node, check_node_state,
}
use bitheim.Cli.Doctor.Laws.{Passed, handle_doctor-Passed}
use bitheim.Cli.HostOnly.{refusal, main_host_only}
use bitheim.Cli.Misconfigured.{misconfigured, main-misconfigured}
use bitheim.Cli.ReadOnly.{Outside, main_read_only-Keeps}
use bitheim.Prelude.Text.{strip, lstrip, rstrip, is_space}
use bitheim.Value.{find}
use bitheim.Service.Guards.{node_id_match}
use bitheim.Configuration.{
  BitheimConfiguration, validate_node_id, validate_compose_subnet, validate_timeout, float_value,
  validate_data_dir, environment, file_layer, apply, resolve_file, read_file, node_configuration,
  effective, load_configuration,
}
use bitheim.Effect.Clock.{now}
use bitheim.Prelude.Lines.{splitlines, pieces, join_returns, lower}
use bitheim.Domain.Node.{state_of_text}
use bitheim.Compose.Docker.{argv, remaining, budget, build_env, run}
use bitheim.Compose.Resources.{resolved_or, search_package, get_compose_template_path}
use bitheim.Compose.Runtime.{check_docker_runtime_available}
use bitheim.Compose.Containers.{
  dicts, from_lines, containers, service_state, find_service, listed_state, state_of_output,
  get_lifecycle_state_deadline,
}
use bitheim.Compose.Lifecycle.{compose_adapter, get_lifecycle_state}
use bitheim.Tests.{hash}
use bitheim.Tests.Compose.{docker, IsUp, only_looks}
use bitheim.Tests.Configuration.{around}
use bitheim.Tests.Service.{probe_env}

-- a node that cannot be reached
abbrev no_client : Environment ℕ
no_client = record {
  clock = docker.clock;
  cookie = record {
    lstat = λ w. (none, w);
    open_file = λ w. (none, w);
    fstat = λ fd w. (none, w);
    read = λ fd n w. (none, w);
    close = λ fd w. w;
  };
  base64 = λ s. s;
  decoder = record { decode = λ b. none; loads = λ s. ok null };
  decimals = record {
    times_satoshis = λ d. ok d;
    has_fraction = λ d. ok false;
    to_int = λ d. ok (pos 0);
    to_float = λ d. ok (finite (pos 0));
  };
  post = λ r t w. (unreachable, w);
  serialisable = λ r. true;
  stream = record { settimeout = false; socket_settimeout = true };
  read = λ t w. (bytes [], w);
}

-- the machine, as a container or as a host
abbrev machine : Bool → Host ℕ
machine inside = record {
  docker = record docker { exists = λ p w. (inside, w) };
  surroundings = around;
  variables = λ name. none;
  client = no_client;
  probe = probe_env;
  is_int = λ s. true;
}

abbrev args : Args
args = record {
  config = none;
  data_dir = none;
  node_id = some (str "n1");
  timeout = some (int (pos 10));
  block_hash = str hash;
  height = null;
  as_json = true;
}

context_run :
    (inside : Bool) (w : ℕ) → is_container_execution_context (machine inside) w ≡ returns inside w
unfolding is_container_execution_context ask pure ◌>>=◌
context_run inside w = refl

machine-Outside : Outside (machine false) IsUp
machine-Outside = record {
  harmless = λ s. record {
    clock = λ w h. h;
    which = λ cmd w h. h;
    environ = λ name w h. h;
    process = only_looks s;
  };
  packaged = λ name w h. h;
  is_file = λ path w h. h;
  on_host = λ w h. (w, context_run false w, h);
}

main_read_only-Keeps_example :
    Keeps IsUp (main (machine false) (handle_status (machine false) args))
    × Keeps IsUp (main (machine false) (handle_inspect_node (machine false) args))
    × Keeps IsUp (main (machine false) (handle_inspect_block (machine false) args))
    × Keeps IsUp (main (machine false) (handle_inspect_mempool (machine false) args))
    × Keeps IsUp (main (machine false) (handle_inspect_peers (machine false) args))
main_read_only-Keeps_example = main_read_only-Keeps (machine false) IsUp machine-Outside args

main_host_only_example :
    (main (machine true) (handle_start (machine true) args) 0 ≡ returns refusal 0)
    × (main (machine true) (handle_stop (machine true) args) 0 ≡ returns refusal 0)
main_host_only_example =
    main_host_only (machine true) args 0 0 0 (context_run true 0) (context_run true 0)

-- an identifier that begins with a dash
abbrev bad_args : Args
bad_args = record args { node_id = some (str "-x") }

bad_configured :
    (inside : Bool)
    → configured (machine inside) bad_args none none 0 ≡ raises configuration_error 0
unfolding float_limit configured lift load_configuration effective node_configuration resolve_file
    read_file apply file_layer environment validate_data_dir validate_timeout float_value
    validate_compose_subnet validate_node_id node_id_match strip lstrip rstrip is_space find
bad_configured inside = refl

main-misconfigured_example :
    (main (machine true) (handle_status (machine true) bad_args) 0 ≡ returns (misconfigured true) 0)
    × (main (machine true) (handle_inspect_node (machine true) bad_args) 0
        ≡ returns (misconfigured true) 0)
    × (main (machine true) (handle_inspect_block (machine true) bad_args) 0
        ≡ returns (misconfigured true) 0)
    × (main (machine true) (handle_inspect_mempool (machine true) bad_args) 0
        ≡ returns (misconfigured true) 0)
    × (main (machine true) (handle_inspect_peers (machine true) bad_args) 0
        ≡ returns (misconfigured true) 0)
main-misconfigured_example =
    main-misconfigured (machine true) bad_args true 0 0 (bad_configured true) (context_run true 0)

-- a host with Docker, whose data directory can be written to, and a node that is stopped
abbrev doctor_machine : Machine ℕ
doctor_machine = record {
  host = record (machine false) { docker = record docker { exists = λ p w. (p == ".bitheim", w) } };
  python_compatible = true;
  writable = λ p w. (true, w);
  parents = λ p. [];
  docker_path = λ w. (some "/usr/bin/docker", w);
}

doctor_run : handle_doctor doctor_machine args 0 ≡ returns 0 0
unfolding float_limit handle_doctor ◌>>=◌ check_configuration handle configured lift pure ask
    load_configuration effective node_configuration resolve_file read_file apply file_layer
    environment validate_data_dir validate_timeout float_value validate_compose_subnet
    validate_node_id node_id_match strip lstrip rstrip is_space find checked check_rest
    check_data_dir accessible check_runtime query succeeded check_docker check_rpc check_node
    check_node_state is_container_execution_context adapter compose_adapter
    get_compose_template_path search_package resolved_or get_lifecycle_state
    get_lifecycle_state_deadline check_docker_runtime_available budget remaining now build_env run
    argv containers dicts from_lines service_state find_service listed_state state_of_output
    splitlines pieces join_returns lower state_of_text
doctor_run = refl

handle_doctor-Passed_example :
    (config : BitheimConfiguration) × (u : ℕ) × (check_configuration doctor_machine args 0
      ≡ returns (some config) u)
    × Passed doctor_machine config
handle_doctor-Passed_example = handle_doctor-Passed doctor_machine args 0 0 doctor_run
