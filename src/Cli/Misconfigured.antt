-- ===== src/Cli/Misconfigured.antt =====
-- What a command does with a configuration that cannot be loaded.
use bitheim.Prelude.{Bool, false, none, some, ◌≡◌, ◌∙◌, if◌then◌else◌}
use bitheim.Errors.{configuration_error}
use bitheim.Effect.{M, returns, raises, pure, ◌>>=◌, returned_then}
use bitheim.Configuration.{BitheimConfiguration}
use bitheim.Cli.Exits.{raised_then, main_raised}
use bitheim.Cli.{
  Host, Args, Printed, Finished, error_object, is_container_execution_context, configured,
  handle_status, handle_inspect_node, handle_inspect_block, handle_inspect_mempool,
  handle_inspect_peers, failed, main,
}

-- The exit code 1 with the message of an unexpected error, and in a container the category "configuration".
abbrev pub misconfigured : Bool → Finished
misconfigured inside = record {
  code = 1;
  output = none;
  delegated = if inside then some (error_object configuration_error) else none;
  own_message = false;
}

module _ {W : Type 0} (h : Host W) where
  failed-misconfigured :
      (inside : Bool) (w w' : W)
      → is_container_execution_context h w ≡ returns inside w'
      → failed h configuration_error w ≡ returns (misconfigured inside) w'
  unfolding failed pure
  failed-misconfigured inside w w' c = returned_then (is_container_execution_context h) _ c

  -- a handler that begins with the configuration
  begun :
      (args : Args) (f : BitheimConfiguration → M W Printed) (inside : Bool) (w w' : W)
      → configured h args none none w ≡ raises configuration_error w
      → is_container_execution_context h w ≡ returns inside w'
      → main h (configured h args none none >>= f) w ≡ returns (misconfigured inside) w'
  begun args f inside w w' r c =
      main_raised h (configured h args none none >>= f) configuration_error w w
        (raised_then (configured h args none none) f r)
      ∙ failed-misconfigured inside w w' c

  -- If the configuration cannot be loaded, `status` and the four inspections exit with the code 1 and the message of an
  -- unexpected error, not that of the `ConfigurationError`, and with its category for a host if this is a container;
  -- nothing but the test for a container is done.
  pub main-misconfigured :
      (args : Args) (inside : Bool) (w w' : W)
      → configured h args none none w ≡ raises configuration_error w
      → is_container_execution_context h w ≡ returns inside w'
      → (main h (handle_status h args) w ≡ returns (misconfigured inside) w')
        × (main h (handle_inspect_node h args) w ≡ returns (misconfigured inside) w')
        × (main h (handle_inspect_block h args) w ≡ returns (misconfigured inside) w')
        × (main h (handle_inspect_mempool h args) w ≡ returns (misconfigured inside) w')
        × (main h (handle_inspect_peers h args) w ≡ returns (misconfigured inside) w')
  unfolding handle_status handle_inspect_node handle_inspect_block handle_inspect_mempool
      handle_inspect_peers
  main-misconfigured args inside w w' r c = (
    begun args _ inside w w' r c,
    begun args _ inside w w' r c,
    begun args _ inside w w' r c,
    begun args _ inside w w' r c,
    begun args _ inside w w' r c,
  )
