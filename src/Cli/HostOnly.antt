-- ===== src/Cli/HostOnly.antt =====
-- What `start` and `stop` do in a container.
use bitheim.Prelude.{true, none, some, ◌≡◌, ◌∙◌}
use bitheim.Errors.{lifecycle_error}
use bitheim.Effect.{returns, raises, lift, pure, returned_then}
use bitheim.Cli.Exits.{raised_then, main_raised}
use bitheim.Cli.{
  Host, Args, Finished, error_object, is_container_execution_context, ensure_host_execution_context,
  handle_start, handle_stop, failed, main,
}

-- the exit code 1, and the envelope of a `LifecycleError` for the host
abbrev pub refusal : Finished
refusal = record {
  code = 1;
  output = none;
  delegated = some (error_object lifecycle_error);
  own_message = true;
}

module _ {W : Type 0} (h : Host W) where
  ensure_refused :
      (w w₁ : W)
      → is_container_execution_context h w ≡ returns true w₁
      → ensure_host_execution_context h w ≡ raises lifecycle_error w₁
  unfolding ensure_host_execution_context lift
  ensure_refused w w₁ c = returned_then (is_container_execution_context h) _ c

  failed_refused :
      (w₁ w₂ : W)
      → is_container_execution_context h w₁ ≡ returns true w₂
      → failed h lifecycle_error w₁ ≡ returns refusal w₂
  unfolding failed pure
  failed_refused w₁ w₂ c = returned_then (is_container_execution_context h) _ c

  -- In a container `start` and `stop` exit with the code 1 and the envelope of a `LifecycleError`, whatever their
  -- arguments, and the world is only asked twice whether this is a container: neither the configuration nor Docker is
  -- touched.
  pub main_host_only :
      (args : Args) (w w₁ w₂ : W)
      → is_container_execution_context h w ≡ returns true w₁
      → is_container_execution_context h w₁ ≡ returns true w₂
      → (main h (handle_start h args) w ≡ returns refusal w₂)
        × (main h (handle_stop h args) w ≡ returns refusal w₂)
  unfolding handle_start handle_stop
  main_host_only args w w₁ w₂ c c' =
      let e = ensure_refused w w₁ c in
      (
        main_raised h (handle_start h args) lifecycle_error w w₁
              (raised_then (ensure_host_execution_context h) _ e)
            ∙ failed_refused w₁ w₂ c',
        main_raised h (handle_stop h args) lifecycle_error w w₁
              (raised_then (ensure_host_execution_context h) _ e)
            ∙ failed_refused w₁ w₂ c',
      )
