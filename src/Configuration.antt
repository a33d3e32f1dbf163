-- ===== src/Configuration.antt =====
-- bootstrap/configuration.py: `load_configuration`, with its four layers; Validation has the validators.
mod Validation
pub mod Choice
pub mod Laws
unfoldable pub use Validation.*
use bitheim.Prelude.{
  ℕ, ◌*◌, String, Bool, true, false, Option, none, some, List, [], ◌∷◌, contains, not, ◌&&◌, ◌||◌,
  ◌==◌, string_eq, if◌then◌else◌,
}
use bitheim.Prelude.Int.{pos}
use bitheim.Prelude.Text.{strip, is_empty}
use bitheim.Errors.{
  Result, ok, err, configuration_error, value_error, runtime_error, or_raise, require, ◌>>=◌, ◌>>◌,
}
use bitheim.Value.{
  Value, null, bool, int, float, str, Float, float_of_int, finite, Fields, obj, end, field, find,
  as_text, as_obj, second,
}
use bitheim.Service.Guards.{node_id_match, positive}
use bitheim.Network.{Networks}

-- what the loader reads: `float(s)`, none for its `ValueError`; a path with `~` expanded, which
-- raises `RuntimeError` if there is no home for it; files, which do not change while they are read; and TOML, whose
-- reading raises a `ValueError` that is no `TOMLDecodeError` for bytes that are not UTF-8 and for an integer of more digits
-- than `int` reads
pub data Toml : Type 0 where
  table : Fields → Toml
  decode_error : Toml
  io_error : Toml
  bare_value_error : Toml

pub record Surroundings : Type 1 where
  pub networks : Networks
  pub float_of_text : String → Option Float
  pub expanduser : String → String
  pub has_home : String → Bool
  pub exists : String → Bool
  pub is_file : String → Bool
  pub load : String → Toml

-- the values that `load_configuration` has found so far
pub record Effective : Type 0 where
  pub data_dir : String
  pub node_id : String
  pub compose_subnet : String
  pub startup_timeout : ℕ
  pub shutdown_timeout : ℕ

-- what one layer sets
pub record Layer : Type 0 where
  pub data_dir : Option Value
  pub node_id : Option Value
  pub compose_subnet : Option Value
  pub startup_timeout : Option Value
  pub shutdown_timeout : Option Value

-- `NodeConfiguration`
pub record NodeConfiguration : Type 0 where
  pub node_id : String
  pub compose_subnet : String
  pub startup_timeout : ℕ
  pub shutdown_timeout : ℕ

-- `BitheimConfiguration`, with the member of its `RuntimeConfiguration`
pub record BitheimConfiguration : Type 0 where
  pub data_dir : String
  pub node : NodeConfiguration
  pub config_file : Option String

-- the arguments of `load_configuration`, but for the layer of the command line
pub record Sources : Type 0 where
  pub config_path : Option String
  pub default_config_path : Option String
  pub environ : String → Option String

-- a value that a layer may set
abbrev pub override {ℓ} : {A : Type ℓ} → (Value → Result A) → Option Value → A → Result A
override validate none current = ok current
override validate (some v) current = validate v

abbrev pub text_of : Option String → Option Value
text_of none = none
text_of (some s) = some (str s)

-- the keys of a table
abbrev pub keys_in : List String → Fields → Bool
keys_in allowed end = true
keys_in allowed (field k v m) = contains allowed k && keys_in allowed m

-- a section that may be absent
abbrev pub section : Option Value → Result Fields
section none = ok end
section (some v) = or_raise (as_obj v) configuration_error

-- the layer of the environment
unfoldable pub environment : (String → Option String) → Layer
environment environ = record {
  data_dir = text_of (environ "BITHEIM_DATA_DIR");
  node_id = text_of (environ "BITHEIM_NODE_ID");
  compose_subnet = text_of (environ "BITHEIM_COMPOSE_SUBNET");
  startup_timeout = text_of (environ "BITHEIM_STARTUP_TIMEOUT");
  shutdown_timeout = text_of (environ "BITHEIM_SHUTDOWN_TIMEOUT");
}

abbrev pub allowed_node_keys : List String
allowed_node_keys = "node_id" ∷ "compose_subnet" ∷ "startup_timeout" ∷ "shutdown_timeout" ∷ []

abbrev pub no_layer : Layer
no_layer = record {
  data_dir = none;
  node_id = none;
  compose_subnet = none;
  startup_timeout = none;
  shutdown_timeout = none;
}

module _ (w : Surroundings) where
  unfoldable pub validate_data_dir : Value → Result String
  validate_data_dir v = do
    val ← or_raise (as_text v) configuration_error
    require (not (is_empty (strip val))) configuration_error
    require (w.has_home val) runtime_error
    ok (w.expanduser val)

  -- The checks on the sections of the file and their keys. The directory of the data is validated before the section of
  -- the node is looked at, the other values after all these checks; then they become a layer.
  unfoldable pub file_layer : Fields → Result Layer
  file_layer raw_data = do
    require (keys_in ("runtime" ∷ "node" ∷ []) raw_data) configuration_error
    runtime_section ← section (find "runtime" raw_data)
    require (keys_in ("data_dir" ∷ []) runtime_section) configuration_error
    file_data_dir ← override validate_data_dir (find "data_dir" runtime_section) ""
    node_section ← section (find "node" raw_data)
    require (keys_in allowed_node_keys node_section) configuration_error
    ok (record {
      data_dir = find "data_dir" runtime_section;
      node_id = find "node_id" node_section;
      compose_subnet = find "compose_subnet" node_section;
      startup_timeout = find "startup_timeout" node_section;
      shutdown_timeout = find "shutdown_timeout" node_section;
    })

  -- one layer over the values found so far
  unfoldable pub apply : Layer → Effective → Result Effective
  apply l e = do
    data_dir ← override validate_data_dir l.data_dir e.data_dir
    node_id ← override validate_node_id l.node_id e.node_id
    subnet ← override (validate_compose_subnet w.networks) l.compose_subnet e.compose_subnet
    startup ← override (validate_timeout w.float_of_text) l.startup_timeout e.startup_timeout
    shutdown ← override (validate_timeout w.float_of_text) l.shutdown_timeout e.shutdown_timeout
    ok (record {
      data_dir = data_dir;
      node_id = node_id;
      compose_subnet = subnet;
      startup_timeout = startup;
      shutdown_timeout = shutdown;
    })

  abbrev pub defaults : Effective
  defaults = record {
    data_dir = w.expanduser ".bitheim";
    node_id = "regtest-node-1";
    compose_subnet = "172.28.0.0/16";
    startup_timeout = 30 * second;
    shutdown_timeout = 30 * second;
  }

  -- the file to read, if there is one
  unfoldable pub resolve_file : Option String → Option String → Result (Option String)
  resolve_file (some config_path) default_config_path = do
    require (w.has_home config_path) runtime_error
    let target_path = w.expanduser config_path
    require (w.exists target_path) configuration_error
    require (w.is_file target_path) configuration_error
    ok (some target_path)
  resolve_file none (some default_config_path) =
      require (w.has_home default_config_path) runtime_error
      >> (let def_path = w.expanduser default_config_path in
          if w.exists def_path
          then require (w.is_file def_path) configuration_error >> ok (some def_path)
          else ok none)
  resolve_file none none = ok none

  abbrev loaded_layer : Toml → Result Layer
  loaded_layer (table raw_data) = file_layer raw_data
  loaded_layer decode_error = err configuration_error
  loaded_layer io_error = err configuration_error
  loaded_layer bare_value_error = err value_error

  -- the layer of the file
  unfoldable pub read_file : Option String → Result Layer
  read_file none = ok no_layer
  read_file (some path) = loaded_layer (w.load path)

  -- `NodeConfiguration.__post_init__`
  unfoldable pub node_configuration : Effective → Result NodeConfiguration
  node_configuration e = do
    node_id ← validate_node_id (str e.node_id)
    subnet ← validate_compose_subnet w.networks (str e.compose_subnet)
    startup ← validate_timeout w.float_of_text (float (finite (pos e.startup_timeout)))
    shutdown ← validate_timeout w.float_of_text (float (finite (pos e.shutdown_timeout)))
    ok (record {
      node_id = node_id;
      compose_subnet = subnet;
      startup_timeout = startup;
      shutdown_timeout = shutdown;
    })

  -- the values after the four layers, with the file that was read
  unfoldable pub effective : Sources → Layer → Result (Option String × Effective)
  effective s cli = do
    config_file ← resolve_file s.config_path s.default_config_path
    file ← read_file config_file
    from_file ← apply file defaults
    from_environment ← apply (environment s.environ) from_file
    from_cli ← apply cli from_environment
    ok (config_file, from_cli)

  unfoldable pub load_configuration : Sources → Layer → Result BitheimConfiguration
  load_configuration s cli = do
    (config_file, e) ← effective s cli
    node_config ← node_configuration e
    ok (record { data_dir = e.data_dir; node = node_config; config_file = config_file })
