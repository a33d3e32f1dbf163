-- ===== src/Compose/Docker.antt =====
-- infrastructure/compose/adapter.py: the settings of the adapter, the Docker commands that it runs, and what is
-- outside it: processes, the environment, files, IP networks, and Python's own JSON.
use Prim.Native.String.{◌++◌ as append}
use bitheim.Prelude.{ℕ, ◌-◌, String, Bool, Option, none, some, List, [], ◌∷◌, ◌++◌, ltb}
use bitheim.Prelude.Int.{ℤ}
use bitheim.Prelude.Lines.{show_nat}
use bitheim.Errors.{Exc, value_error, overflow_error, Result, ok, err, require}
use bitheim.Value.{Value, str}
use bitheim.Effect.{M, pure, lift, ask, ◌>>=◌, ◌>>◌}
use bitheim.Effect.Clock.{Clock, now}
use bitheim.Network.{Networks}

-- the attributes that `__init__` sets
pub record Settings : Type 0 where
  pub compose_template : String
  pub compose_subnet : String
  pub bitcoin_core_image : String
  pub bitheim_image : String
  pub docker_cmd : String

-- the commands, each with what varies in it
pub data Command : Type 0 where
  info network_ls : Command
  network_inspect image_inspect : String → Command
  build : String → String → Command
  up ps run_status : String → Command
  stop_services : String → ℕ → Command
  run_inspect : String → String → List String → Command

abbrev compose : Settings → String → List String → List String
compose s node_id rest =
    s.docker_cmd ∷ "compose" ∷ "-f" ∷ s.compose_template ∷ "--project-name" ∷ node_id ∷ rest

abbrev run_bitheim : Settings → String → List String → List String
run_bitheim s node_id rest =
    compose s node_id ("run" ∷ "--rm" ∷ "--no-deps" ∷ "-T" ∷ "bitheim" ∷ rest)

-- the argument list of a command
unfoldable pub argv : Settings → Command → List String
argv s info = s.docker_cmd ∷ "info" ∷ "--format" ∷ "{{.ServerVersion}}" ∷ []
argv s network_ls = s.docker_cmd ∷ "network" ∷ "ls" ∷ "--format" ∷ "{{.Name}}" ∷ []
argv s (network_inspect name) =
    s.docker_cmd ∷ "network" ∷ "inspect" ∷ name ∷ "--format"
    ∷ "{{range .IPAM.Config}}{{.Subnet}} {{end}}" ∷ []
argv s (image_inspect image_ref) = s.docker_cmd ∷ "image" ∷ "inspect" ∷ image_ref ∷ []
argv s (build image_ref build_context) =
    s.docker_cmd ∷ "build" ∷ "-t" ∷ image_ref ∷ build_context ∷ []
argv s (up node_id) = compose s node_id ("up" ∷ "-d" ∷ "bitcoin-core" ∷ [])
argv s (ps node_id) = compose s node_id ("ps" ∷ "--format" ∷ "json" ∷ [])
argv s (stop_services node_id grace_seconds) =
    compose s node_id ("stop" ∷ "-t" ∷ show_nat grace_seconds ∷ [])
argv s (run_status node_id) = run_bitheim s node_id ("status" ∷ "--json" ∷ [])
argv s (run_inspect node_id inspection_type extra_args) =
    run_bitheim s node_id ("inspect" ∷ inspection_type ∷ extra_args ++ ("--json" ∷ []))

-- a finished process
pub record Completed : Type 0 where
  pub returncode : ℤ
  pub stdout : String
  pub stderr : String

-- what `subprocess.run` with `text=True` does: it returns; it raises `TimeoutExpired`, `FileNotFoundError` or another
-- `OSError`; it raises a `ValueError`, `UnicodeDecodeError` for output that is no text or a plain one for an argument with
-- a NUL; or it raises `OverflowError` for a timeout that is too long for the system
pub data Completion : Type 0 where
  completed : Completed → Completion
  timed_out : Completion
  file_not_found : Completion
  os_error : Completion
  undecodable : Completion
  overlong : Completion

-- `subprocess.run` has raised no `ValueError`: the output of the process is text in the encoding of the locale, and no
-- argument has a NUL.
abbrev pub IsText : Completion → Type 0
IsText undecodable = ⊥
IsText _ = Unit

-- what `json.loads` does: a value, an object being its pairs; `JSONDecodeError`; or the `ValueError` of an integer with
-- more digits than Python converts
pub data Loaded : Type 0 where
  loaded : Value → Loaded
  not_json : Loaded
  too_long : Loaded

-- `show` is Python's `str`. A process takes its arguments, the variables it is given, none for those of the program
-- itself, and a timeout. Paths are texts: `packaged` is where `importlib.resources` finds a file of the package, none if
-- it raises, and `repo_root` is the fourth parent of the directory that holds the sources of the adapter.
pub record Docker (W : Type 0) : Type 1 where
  pub clock : Clock W
  pub which : String → W → Bool × W
  pub process : List String → Option (List (String × String)) → ℕ → W → Completion × W
  pub environ : String → W → Option String × W
  pub exists : String → W → Bool × W
  pub is_file : String → W → Bool × W
  pub is_dir : String → W → Bool × W
  pub packaged : String → W → Option String × W
  pub resolve : String → String
  pub repo_root : String
  pub networks : Networks
  pub loads : String → Loaded
  pub show : Value → String

-- `str(v)`
abbrev pub shown : (Value → String) → Value → String
shown show (str s) = s
shown show v = show v

-- `try: subprocess.run(…) except TimeoutExpired: raise late except OSError: raise broken`
abbrev pub result_of : Exc → Exc → Completion → Result Completed
result_of late broken (completed c) = ok c
result_of late broken timed_out = err late
result_of late broken file_not_found = err broken
result_of late broken os_error = err broken
result_of late broken undecodable = err value_error
result_of late broken overlong = err overflow_error

abbrev pub or_default : Option String → String → String
or_default none d = d
or_default (some s) d = s

abbrev docker_host : Option String → List (String × String)
docker_host none = []
docker_host (some s) = ("DOCKER_HOST", s) ∷ []

-- `path / name`, for a path that does not end in a slash
abbrev pub joined : String → String → String
joined path name = append path (append "/" name)

module _ {W : Type 0} (d : Docker W) where
  -- `_remaining`, 0 for a deadline that has passed: the code asks whether it is at most 0
  unfoldable pub remaining : ℕ → M W ℕ
  remaining deadline = do t ← now d.clock; pure (deadline - t)

  -- `r = _remaining(deadline)` and `if r <= 0: raise e`
  unfoldable pub budget : ℕ → Exc → M W ℕ
  budget deadline e = do r ← remaining deadline; lift (require (ltb 0 r) e); pure r

  -- `_build_env`
  unfoldable pub build_env : Settings → String → M W (List (String × String))
  build_env s node_id = do
    path ← ask (d.environ "PATH")
    home ← ask (d.environ "HOME")
    host ← ask (d.environ "DOCKER_HOST")
    pure (
        (("PATH", or_default path "/usr/local/bin:/usr/bin:/bin")
          ∷ ("HOME", or_default home "/root")
          ∷ ("BITHEIM_NODE_ID", node_id)
          ∷ ("BITHEIM_COMPOSE_SUBNET", s.compose_subnet)
          ∷ ("BITHEIM_BITCOIN_CORE_IMAGE", s.bitcoin_core_image)
          ∷ ("BITHEIM_IMAGE", s.bitheim_image)
          ∷ [])
        ++ docker_host host)

  -- `subprocess.run` in a `try` that turns its timeout and its `OSError` into the given exceptions
  unfoldable pub run :
      Settings → Command → Option (List (String × String)) → ℕ → Exc → Exc → M W Completed
  unfolding argv
  run s cmd env r late broken = do
    c ← ask (d.process (argv s cmd) env r)
    lift (result_of late broken c)
