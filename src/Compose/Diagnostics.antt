-- ===== src/Compose/Diagnostics.antt =====
-- infrastructure/compose/diagnostics.py: the prerequisite checks. A description is a value of its own; its words are not
-- modelled.
use bitheim.Prelude.{ℕ, ◌*◌, String, Bool, true, false, none, [], ◌∷◌, ◌||◌, ◌==◌, if◌then◌else◌}
use bitheim.Prelude.Int.{pos, int_eq}
use bitheim.Prelude.Text.{strip, has_text}
use bitheim.Prelude.Lines.{lower}
use bitheim.Value.{second}
use bitheim.Effect.{M, pure, ask, ◌>>=◌}
use bitheim.Compose.Docker.{
  Docker, Completion, completed, timed_out, file_not_found, os_error, undecodable, overlong,
}

-- `_categorize_diagnostic_error`
unfoldable pub categorize_diagnostic_error : String → String
categorize_diagnostic_error stderr =
    if has_text "permission denied" (lower stderr) || has_text "access denied" (lower stderr)
    then "permission_denied"
    else if has_text "cannot connect to the docker daemon" (lower stderr)
        || has_text "is the docker daemon running" (lower stderr)
    then "daemon_unavailable"
    else if has_text "executable file not found" (lower stderr)
        || has_text "no such file or directory" (lower stderr)
    then "binary_not_found"
    else "daemon_unreachable"

-- what a check says: the version; the category of a failure; that there is no binary; that it took too long; or that
-- another exception was raised
pub data Description : Type 0 where
  version category : String → Description
  no_binary : Description
  timeout : Description
  other_error : Description

-- the `try` of both checks, by what the process does
unfoldable pub describe : Completion → Bool × Description
describe (completed proc) =
    if proc.returncode == pos 0
    then (true, version (strip proc.stdout))
    else (false, category (categorize_diagnostic_error proc.stderr))
describe file_not_found = (false, no_binary)
describe timed_out = (false, timeout)
describe os_error = (false, other_error)
describe undecodable = (false, other_error)
describe overlong = (false, other_error)

abbrev diagnostic_timeout : ℕ
diagnostic_timeout = 3 * second

module _ {W : Type 0} (d : Docker W) where
  unfoldable pub check_docker_engine_available : M W (Bool × Description)
  check_docker_engine_available = do
    c ← ask (
        d.process ("docker" ∷ "version" ∷ "--format" ∷ "{{.Server.Version}}" ∷ []) none
          diagnostic_timeout)
    pure (describe c)

  unfoldable pub check_docker_compose_available : M W (Bool × Description)
  check_docker_compose_available = do
    c ← ask (d.process ("docker" ∷ "compose" ∷ "version" ∷ "--short" ∷ []) none diagnostic_timeout)
    pure (describe c)
