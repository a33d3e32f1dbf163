-- ===== src/Compose/Runtime.antt =====
-- infrastructure/compose/adapter.py: the checks that come before a node is started, and the images.
use Prim.Native.String.{◌++◌ as append}
use bitheim.Prelude.{
  ℕ, String, Bool, Option, none, some, List, [], ◌∷◌, map, ◌||◌, ◌==◌, string_eq, if◌then◌else◌,
}
use bitheim.Prelude.Int.{pos, int_eq}
use bitheim.Prelude.Text.{strip, has_text}
use bitheim.Prelude.Lines.{splitlines, words, nonempty, lower}
use bitheim.Errors.{runtime_unavailable, lifecycle_error, or_raise, require, Result, ok, err}
use bitheim.Effect.{M, pure, lift, ask, ◌>>=◌, ◌>>◌}
use bitheim.Network.{Networks}
use bitheim.Compose.Docker.{
  Settings, Docker, info, network_ls, network_inspect, image_inspect, build, budget, run, joined,
}

-- the names that `docker network ls` prints
unfoldable pub network_names : String → List String
network_names stdout = nonempty (map strip (splitlines stdout))

-- the subnets that `docker network inspect` prints
unfoldable pub subnets : String → List String
subnets stdout = nonempty (map strip (words stdout))

-- the loop over the subnets of one network
unfoldable pub check_subnets : (n : Networks) → n.Net → List String → Result (Unit {0})
check_subnets n target_net [] = ok tt
check_subnets n target_net (sub ∷ subs) =
    let rest = check_subnets n target_net subs in
    elim (n.ip_network sub) [
      | none ↦ err lifecycle_error
      | some existing_net ↦ if n.overlaps target_net existing_net then err lifecycle_error else rest
    ]

-- the network of the node's own project
abbrev pub project_network : String → String
project_network node_id = append node_id "_bitheim-net"

-- what tells a missing image from the other failures of `docker image inspect`
unfoldable pub is_not_found : String → Bool
is_not_found stderr = has_text "no such image" (lower stderr) || has_text "not found" (lower stderr)

module _ {W : Type 0} (d : Docker W) (s : Settings) where
  -- `_check_docker_runtime_available`
  unfoldable pub check_docker_runtime_available : ℕ → M W (Unit {0})
  check_docker_runtime_available deadline = do
    found ← ask (d.which s.docker_cmd)
    lift (require found runtime_unavailable)
    r ← budget d deadline runtime_unavailable
    res ← run d s info none r runtime_unavailable runtime_unavailable
    lift (require (res.returncode == pos 0) runtime_unavailable)

  -- one network of the loop of `_check_subnet_collision`
  unfoldable pub check_network : d.networks.Net → String → ℕ → M W (Unit {0})
  check_network target_net name deadline = do
    r ← budget d deadline runtime_unavailable
    insp ← run d s (network_inspect name) none r runtime_unavailable runtime_unavailable
    lift (require (insp.returncode == pos 0) runtime_unavailable)
    lift (check_subnets d.networks target_net (subnets insp.stdout))

  -- the loop of `_check_subnet_collision`
  unfoldable pub check_networks : d.networks.Net → String → ℕ → List String → M W (Unit {0})
  check_networks target_net node_id deadline [] = pure tt
  check_networks target_net node_id deadline (name ∷ names) =
      let rest = check_networks target_net node_id deadline names in
      if name == project_network node_id
      then rest
      else check_network target_net name deadline >> rest

  -- `_check_subnet_collision`
  unfoldable pub check_subnet_collision : String → ℕ → M W (Unit {0})
  check_subnet_collision node_id deadline = do
    target_net ← lift (or_raise (d.networks.ip_network s.compose_subnet) lifecycle_error)
    r ← budget d deadline runtime_unavailable
    res ← run d s network_ls none r runtime_unavailable runtime_unavailable
    lift (require (res.returncode == pos 0) runtime_unavailable)
    check_networks target_net node_id deadline (network_names res.stdout)

  -- the second half of `_ensure_image_available`, for a missing image
  unfoldable pub build_image : String → Option String → ℕ → M W (Unit {0})
  build_image image_ref build_context deadline = do
    context ← lift (or_raise build_context runtime_unavailable)
    dockerfile ← ask (d.exists (joined context "Dockerfile"))
    lift (require dockerfile runtime_unavailable)
    r ← budget d deadline runtime_unavailable
    build_res ← run d s (build image_ref context) none r runtime_unavailable runtime_unavailable
    lift (require (build_res.returncode == pos 0) runtime_unavailable)

  -- `_ensure_image_available`
  unfoldable pub ensure_image_available : String → Option String → ℕ → M W (Unit {0})
  ensure_image_available image_ref build_context deadline = do
    r ← budget d deadline runtime_unavailable
    insp ← run d s (image_inspect image_ref) none r runtime_unavailable runtime_unavailable
    if insp.returncode == pos 0 then pure tt else do
      lift (require (is_not_found insp.stderr) runtime_unavailable)
      build_image image_ref build_context deadline

  -- `_locate_bitheim_build_context`
  unfoldable pub locate_bitheim_build_context : M W (Option String)
  locate_bitheim_build_context = do
    found ← ask (d.is_file (joined d.repo_root "Dockerfile"))
    pure (if found then some d.repo_root else none)
