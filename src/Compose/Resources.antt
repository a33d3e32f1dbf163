-- ===== src/Compose/Resources.antt =====
-- infrastructure/compose/resources.py: where the files of the package are.
use bitheim.Prelude.{String, Bool, false, Option, none, some, if◌then◌else◌}
use bitheim.Errors.{runtime_unavailable}
use bitheim.Effect.{M, pure, raise, ask, ◌>>=◌}
use bitheim.Compose.Docker.{Docker, joined}

module _ {W : Type 0} (d : Docker W) where
  -- the resolved path if it passes the test, or else the rest of the search
  unfoldable pub resolved_or : M W String → String → Bool → M W String
  resolved_or rest path found = if found then pure (d.resolve path) else rest

  -- the search of the package, or else of the checkout
  unfoldable pub search_package : (String → M W Bool) → M W String → Option String → M W String
  search_package test fallback none = fallback
  search_package test fallback (some path) = do found ← test path; resolved_or fallback path found

  unfoldable pub search_checkout : (String → M W Bool) → String → M W String
  search_checkout test path = do
    found ← test path
    resolved_or (raise runtime_unavailable) path found

  unfoldable pub get_compose_template_path : M W String
  get_compose_template_path = do
    path ← ask (d.packaged "compose/compose.yml")
    search_package (λ p. ask (d.is_file p))
        (search_checkout (λ p. ask (d.is_file p))
          (joined (joined d.repo_root "docker") "compose.yml"))
        path

  -- `path.is_dir() and (path / "Dockerfile").is_file()`
  unfoldable pub has_dockerfile : String → M W Bool
  has_dockerfile path = do
    dir ← ask (d.is_dir path)
    if dir then ask (d.is_file (joined path "Dockerfile")) else pure false

  unfoldable pub get_bitcoin_core_resource_dir : M W String
  get_bitcoin_core_resource_dir = do
    path ← ask (d.packaged "bitcoin-core")
    search_package has_dockerfile
        (search_checkout has_dockerfile (joined (joined d.repo_root "docker") "bitcoin-core")) path
