-- ===== src/Cli/ReadOnly.antt =====
-- Which commands of the program only look at the node, from `main` on.
use bitheim.Prelude.{String, Bool, false, Option, none, some, ◌≡◌}
use bitheim.Effect.{M, returns, ask, pure, ◌>>=◌, returned_then}
use bitheim.Effect.Keeps.{
  Keeps, Keeps-pure, Keeps-raise, Keeps-lift, Keeps-ask, Keeps-if, Keeps-bind, Keeps-handle,
}
use bitheim.Service.Lifecycle.{get_node_status}
use bitheim.Configuration.{BitheimConfiguration}
use bitheim.Compose.Docker.{Settings}
use bitheim.Compose.Resources.{
  resolved_or, search_package, search_checkout, get_compose_template_path,
}
use bitheim.Compose.Lifecycle.{compose_adapter}
use bitheim.Compose.ReadOnly.{
  Harmless, get_status-Keeps, inspect_node-Keeps, inspect_block-Keeps, inspect_mempool-Keeps,
  inspect_peers-Keeps,
}
use bitheim.Cli.{
  Host, Args, Printed, is_container_execution_context, configured, adapter, host_status,
  handle_status, handle_inspect_node, handle_inspect_block, handle_inspect_mempool,
  handle_inspect_peers, failed, main,
}

-- A property of the world outside every container, that commands that only look, the clock, the search path, the
-- environment and the search of files keep.
pub record Outside {W : Type 0} (h : Host W) (I : W → Type 0) : Type 0 where
  pub harmless : (s : Settings) → Harmless h.docker s I
  pub packaged : (name : String) (w : W) → I w → I (h.docker.packaged name w).1
  pub is_file : (path : String) (w : W) → I w → I (h.docker.is_file path w).1
  pub on_host :
      (w : W) → I w → (w' : W) × (is_container_execution_context h w ≡ returns false w') × I w'

abbrev no_settings : Settings
no_settings = record {
  compose_template = "";
  compose_subnet = "";
  bitcoin_core_image = "";
  bitheim_image = "";
  docker_cmd = "";
}

module _ {W : Type 0} (h : Host W) (I : W → Type 0) (o : Outside h I) where
  -- what begins with the test for a container goes on as on a host
  context-Keeps :
      {A : Type 0} (f : Bool → M W A)
      → Keeps I (f false)
      → Keeps I (is_container_execution_context h >>= f)
  context-Keeps f k = record {
    at = λ w i.
        let (w', e, i') = o.on_host w i in
        rw (returned_then (is_container_execution_context h) f e) (k.at w' i');
  }

  configured-Keeps : (args : Args) → Keeps I (configured h args none none)
  unfolding configured
  configured-Keeps args = Keeps-lift _

  resolved_or-Keeps :
      (rest : M W String) (path : String) (found : Bool)
      → Keeps I rest
      → Keeps I (resolved_or h.docker rest path found)
  unfolding resolved_or
  resolved_or-Keeps rest path found k = Keeps-if found _ _ (λ _. Keeps-pure _) (λ _. k)

  abbrev template_file : String → M W Bool
  template_file path = ask (h.docker.is_file path)

  search_checkout-Keeps : (path : String) → Keeps I (search_checkout h.docker template_file path)
  unfolding search_checkout
  search_checkout-Keeps path =
      Keeps-bind _ _ (Keeps-ask _ (o.is_file path))
        (λ b. resolved_or-Keeps _ path b (Keeps-raise _))

  search_package-Keeps :
      (rest : M W String) (path : Option String)
      → Keeps I rest
      → Keeps I (search_package h.docker template_file rest path)
  unfolding search_package
  search_package-Keeps rest none k = k
  search_package-Keeps rest (some path) k =
      Keeps-bind _ _ (Keeps-ask _ (o.is_file path)) (λ b. resolved_or-Keeps rest path b k)

  template-Keeps : Keeps I (get_compose_template_path h.docker)
  unfolding get_compose_template_path
  template-Keeps =
      Keeps-bind _ _ (Keeps-ask _ (o.packaged _))
        (λ path. search_package-Keeps _ path (search_checkout-Keeps _))

  adapter-Keeps : (config : BitheimConfiguration) → Keeps I (adapter h config)
  unfolding adapter compose_adapter
  adapter-Keeps config =
      Keeps-bind _ _ (Keeps-ask _ ((o.harmless no_settings).environ _))
        (λ image. Keeps-bind _ _ template-Keeps (λ template. Keeps-pure _))

  host_status-Keeps : (config : BitheimConfiguration) → Keeps I (host_status h config)
  unfolding host_status get_node_status
  host_status-Keeps config =
      Keeps-bind _ _ (adapter-Keeps config)
        (λ s. Keeps-bind _ _ (Keeps-lift _) (λ id. get_status-Keeps h.docker s I (o.harmless s) id))

  handle_status-Keeps : (args : Args) → Keeps I (handle_status h args)
  unfolding handle_status
  handle_status-Keeps args = Keeps-bind _ _ (configured-Keeps args) (λ config.
      context-Keeps _ (Keeps-bind _ _ (host_status-Keeps config) (λ status. Keeps-pure _)))

  -- an inspection by the adapter
  inspected-Keeps :
      {A : Type 0} (config : BitheimConfiguration) (inspect : Settings → M W A) (f : A → Printed)
      → ((s : Settings) → Keeps I (inspect s))
      → Keeps I ((adapter h config >>= inspect) >>= (λ a. pure (f a)))
  inspected-Keeps config inspect f k =
      Keeps-bind _ _ (Keeps-bind _ _ (adapter-Keeps config) k) (λ a. Keeps-pure _)

  handle_inspect_node-Keeps : (args : Args) → Keeps I (handle_inspect_node h args)
  unfolding handle_inspect_node
  handle_inspect_node-Keeps args = Keeps-bind _ _ (configured-Keeps args) (λ config.
      context-Keeps _
        (inspected-Keeps config _ _ (λ s. inspect_node-Keeps h.docker s I (o.harmless s) _ _)))

  handle_inspect_block-Keeps : (args : Args) → Keeps I (handle_inspect_block h args)
  unfolding handle_inspect_block
  handle_inspect_block-Keeps args = Keeps-bind _ _ (configured-Keeps args) (λ config.
      context-Keeps _
        (inspected-Keeps config _ _ (λ s. inspect_block-Keeps h.docker s I (o.harmless s) _ _ _ _)))

  handle_inspect_mempool-Keeps : (args : Args) → Keeps I (handle_inspect_mempool h args)
  unfolding handle_inspect_mempool
  handle_inspect_mempool-Keeps args = Keeps-bind _ _ (configured-Keeps args) (λ config.
      context-Keeps _
        (inspected-Keeps config _ _ (λ s. inspect_mempool-Keeps h.docker s I (o.harmless s) _ _)))

  handle_inspect_peers-Keeps : (args : Args) → Keeps I (handle_inspect_peers h args)
  unfolding handle_inspect_peers
  handle_inspect_peers-Keeps args = Keeps-bind _ _ (configured-Keeps args) (λ config.
      context-Keeps _
        (inspected-Keeps config _ _ (λ s. inspect_peers-Keeps h.docker s I (o.harmless s) _ _)))

  main-Keeps : (handler : M W Printed) → Keeps I handler → Keeps I (main h handler)
  unfolding main failed
  main-Keeps handler k =
      Keeps-handle _ _ (Keeps-bind _ _ k (λ p. Keeps-pure _)) (λ e. context-Keeps _ (Keeps-pure _))

  -- On a host, `main` with the command `status` or one of the four inspections only looks, whatever its arguments and
  -- its outcome: every property of the world that survives the clock, the search path, the environment, the search of
  -- files, and the commands `docker info`, `compose ps` and the one-shot `compose run` of a status or an inspection,
  -- survives the program.
  pub main_read_only-Keeps :
      (args : Args)
      → Keeps I (main h (handle_status h args))
        × Keeps I (main h (handle_inspect_node h args))
        × Keeps I (main h (handle_inspect_block h args))
        × Keeps I (main h (handle_inspect_mempool h args))
        × Keeps I (main h (handle_inspect_peers h args))
  main_read_only-Keeps args = (
    main-Keeps _ (handle_status-Keeps args),
    main-Keeps _ (handle_inspect_node-Keeps args),
    main-Keeps _ (handle_inspect_block-Keeps args),
    main-Keeps _ (handle_inspect_mempool-Keeps args),
    main-Keeps _ (handle_inspect_peers-Keeps args),
  )
