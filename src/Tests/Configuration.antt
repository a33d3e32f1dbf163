-- ===== src/Tests/Configuration.antt =====
-- The theorems on the configuration and on the command line, at concrete runs.
use Prim.Native.String.{◌++◌}
use bitheim.Prelude.{
  ℕ, ◌*◌, ◌≤◌, String, true, false, some, none, ◌≡◌, refl, ◌==◌, string_eq, leb→le, if◌then◌else◌,
}
use bitheim.Prelude.Int.{pos}
use bitheim.Prelude.Text.{strip, lstrip, rstrip, is_space, utf8_len}
use bitheim.Prelude.Lines.Laws.{IsBraced, IsLine}
use bitheim.Errors.{ok, rpc_timeout}
use bitheim.Value.{float_limit, str, int, float, finite, obj, field, end, find, second}
use bitheim.Service.Guards.{validate_service_node_id, validate_service_timeout, node_id_match}
use bitheim.Configuration.{
  Toml, table, Surroundings, Sources, Layer, BitheimConfiguration, no_layer, validate_node_id,
  validate_compose_subnet, validate_timeout, float_value, validate_data_dir, environment,
  file_layer, apply, resolve_file, read_file, node_configuration, effective, load_configuration,
}
use bitheim.Configuration.Laws.{Sourced, load_configuration-IsChosen, load_configuration-accepted}
use bitheim.Compose.Docker.{Loaded, loaded}
use bitheim.Compose.Delegation.{delegated_error, max_error_size}
use bitheim.Cli.{error_object}
use bitheim.Cli.Delegation.{stderr_of, delegated_error-as_host}

-- a file that sets the identifier and a timeout
abbrev file : Toml
file = table (
    field "node"
      (obj (field "node_id" (str "from-file") (field "startup_timeout" (int (pos 7)) end))) end)

abbrev pub around : Surroundings
around = record {
  networks = record {
    Net = ℕ;
    ip_network = λ s. some 0;
    overlaps = λ a b. false;
    is_ipv4 = λ a. true;
    is_private = λ a. true;
    text = λ a. "172.28.0.0/16";
  };
  float_of_text = λ s. none;
  expanduser = λ p. p;
  has_home = λ p. true;
  exists = λ p. true;
  is_file = λ p. true;
  load = λ p. file;
}

abbrev sources : Sources
sources = record {
  config_path = none;
  default_config_path = some "bitheim.toml";
  environ = λ name. if name == "BITHEIM_NODE_ID" then some "from-env" else none;
}

abbrev configuration : BitheimConfiguration
configuration = record {
  data_dir = ".bitheim";
  node = record {
    node_id = "from-env";
    compose_subnet = "172.28.0.0/16";
    startup_timeout = 7 * second;
    shutdown_timeout = 9 * second;
  };
  config_file = some "bitheim.toml";
}

abbrev cli : Layer
cli = record no_layer { shutdown_timeout = some (int (pos 9)) }

-- The identifier is the one of the environment, the timeouts are those of the file and of the command line.
load_run : load_configuration around sources cli ≡ ok configuration
unfolding float_limit load_configuration effective node_configuration resolve_file read_file apply
    file_layer environment validate_data_dir validate_timeout float_value validate_compose_subnet
    validate_node_id node_id_match strip lstrip rstrip is_space find
load_run = refl

load_configuration-IsChosen_example : Sourced around sources cli configuration
load_configuration-IsChosen_example =
    load_configuration-IsChosen around sources cli configuration load_run

load_configuration-accepted_example :
    (validate_service_node_id (str "from-env") ≡ ok "from-env")
    × (validate_service_timeout (float (finite (pos (7 * second)))) ≡ ok (7 * second))
    × (validate_service_timeout (float (finite (pos (9 * second)))) ≡ ok (9 * second))
load_configuration-accepted_example =
    load_configuration-accepted around sources cli configuration load_run

abbrev bad : Layer
bad = record no_layer { node_id = some (str "-x") }

abbrev text : String
text = "{\"schema\": \"bitheim.delegated-error\", \"version\": 1, \"category\": \"timeout\"}"

abbrev msg : String
msg = " Delegated RPC timed out."

abbrev loads : String → Loaded
loads s = loaded (obj (error_object rpc_timeout))

text-IsBraced : IsBraced text
text-IsBraced = (refl, refl, refl)

message-IsLine : IsLine ("bitheim: error:" ++ msg)
unfolding rstrip is_space
message-IsLine = (refl, refl, refl)

stderr_size : utf8_len (stderr_of text msg) ≤ max_error_size
stderr_size = leb→le (utf8_len (stderr_of text msg)) max_error_size refl

delegated_error-as_host_example : delegated_error loads (stderr_of text msg) ≡ rpc_timeout
delegated_error-as_host_example =
    delegated_error-as_host loads rpc_timeout text msg refl text-IsBraced message-IsLine stderr_size
