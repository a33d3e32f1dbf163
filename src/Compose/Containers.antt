-- ===== src/Compose/Containers.antt =====
-- infrastructure/compose/adapter.py: the state of the containers that `docker compose ps` lists.
pub mod Laws
use bitheim.Prelude.{
  ℕ, String, Bool, Option, none, some, List, [], ◌∷◌, ◌++◌, ◌||◌, ◌==◌, string_eq, if◌then◌else◌,
}
use bitheim.Prelude.Int.{pos, int_eq}
use bitheim.Prelude.Text.{strip, is_empty, is_prefix}
use bitheim.Prelude.Lines.{splitlines, lower}
use bitheim.Errors.{Result, ok, err, value_error, runtime_unavailable, require}
use bitheim.Value.{Value, obj, arr, str, Items, items, Fields, find, is_text}
use bitheim.Effect.{M, lift, ◌>>=◌, ◌>>◌}
use bitheim.Domain.Node.{State, stopped, starting, unhealthy, unknown}
use bitheim.Compose.Docker.{
  Settings, Docker, Completed, ps, Loaded, loaded, not_json, too_long, budget, build_env, run,
  shown,
}
use bitheim.Compose.Runtime.{check_docker_runtime_available}

-- the dicts of a list
unfoldable pub dicts : List Value → List Fields
dicts [] = []
dicts (obj m ∷ vs) = m ∷ dicts vs
dicts (_ ∷ vs) = dicts vs

-- `c.get(k, "")`
abbrev or_empty : Option Value → Value
or_empty none = str ""
or_empty (some v) = v

-- the dicts that `docker compose ps` printed, or none for what is not JSON
abbrev pub Listing : Type 0
Listing = Result (Option (List Fields))

abbrev list_of : Value → List Fields
list_of (arr vs) = dicts (items vs)
list_of _ = []

-- output that begins with a bracket
unfoldable pub from_array : Loaded → Listing
from_array (loaded v) = ok (some (list_of v))
from_array not_json = ok none
from_array too_long = err value_error

abbrev extend : List Fields → Listing → Listing
extend ms (ok (some rest)) = ok (some (ms ++ rest))
extend ms r = r

-- the loop over the lines of other output
unfoldable pub from_lines : (String → Loaded) → List String → Listing
from_lines loads [] = ok (some [])
from_lines loads (line ∷ lines) =
    let rest = from_lines loads lines in
    if is_empty (strip line) then rest else elim (loads (strip line)) [
      | loaded v ↦ extend (dicts (v ∷ [])) rest
      | not_json ↦ ok none
      | too_long ↦ err value_error
    ]

unfoldable pub containers : (String → Loaded) → String → Listing
containers loads stdout =
    if is_prefix "[" stdout then from_array (loads stdout) else from_lines loads (splitlines stdout)

-- the state of the container of the service `bitcoin-core`
unfoldable pub service_state : (Value → String) → Fields → State
service_state show c =
    let state = lower (shown show (or_empty (find "State" c))) in
    if state == "running"
    then (if lower (shown show (or_empty (find "Health" c))) == "unhealthy"
        then unhealthy
        else starting)
    else if state == "exited" || state == "dead" || state == "created"
    then stopped
    else unknown

-- the loop over the containers
unfoldable pub find_service : (Value → String) → List Fields → State
find_service show [] = unknown
find_service show (c ∷ cs) =
    let rest = find_service show cs in
    if is_text (or_empty (find "Service" c)) "bitcoin-core" then service_state show c else rest

abbrev containers_state : (Value → String) → List Fields → State
containers_state show [] = stopped
containers_state show (c ∷ cs) = find_service show (c ∷ cs)

unfoldable pub listed_state : (Value → String) → Listing → Result State
listed_state show (err e) = err e
listed_state show (ok none) = ok unknown
listed_state show (ok (some cs)) = ok (containers_state show cs)

-- the state that the output stands for
unfoldable pub state_of_output : (Value → String) → (String → Loaded) → String → Result State
state_of_output show loads stdout =
    if is_empty (strip stdout)
    then ok stopped
    else listed_state show (containers loads (strip stdout))

module _ {W : Type 0} (d : Docker W) (s : Settings) where
  -- `_get_lifecycle_state_deadline`
  unfoldable pub get_lifecycle_state_deadline : String → ℕ → M W State
  get_lifecycle_state_deadline node_id deadline = do
    check_docker_runtime_available d s deadline
    env ← build_env d s node_id
    r ← budget d deadline runtime_unavailable
    res ← run d s (ps node_id) (some env) r runtime_unavailable runtime_unavailable
    lift (require (res.returncode == pos 0) runtime_unavailable)
    lift (state_of_output d.show d.loads res.stdout)
