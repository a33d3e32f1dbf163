-- ===== src/Configuration/Laws.antt =====
-- Which of the four layers a loaded value comes from, and what the services make of it.
pub mod Errors
use mathlib.Core.Path.{subst}
use bitheim.Prelude.{
  ℕ, ◌*◌, String, Bool, true, false, Option, none, some, ◌≡◌, refl, arith, ap, sym, ◌∙◌, ◌↔◌, ◌<◌,
  ◌==◌, nat_eq,
}
use bitheim.Prelude.Int.{pos}
use bitheim.Prelude.Text.{strip, lstrip, rstrip, is_empty}
use bitheim.Errors.{Result, ok, err, >>=-eq-ok, ok-injective}
use bitheim.Value.{Value, Float, str, float, finite, second}
use bitheim.Service.Guards.{
  validate_service_node_id, validate_service_timeout, node_id_match, positive,
}
use bitheim.Service.Guards.Laws.{
  IsNodeId, validate_service_node_id-IsNodeId, validate_service_node_id_id,
}
use bitheim.Configuration.Choice.{
  Chosen, layered, node_id_again, timeout_again, Chosen-IsNodeId, Chosen-timeout,
}
use bitheim.Configuration.{
  Surroundings, Sources, Layer, Effective, BitheimConfiguration, NodeConfiguration,
  validate_node_id, validate_compose_subnet, validate_timeout, float_value, validate_data_dir,
  override, environment, apply, defaults, resolve_file, read_file, effective, node_configuration,
  load_configuration,
}

module _ (w : Surroundings) where
  -- what a layer does to each value
  abbrev Applied : Layer → Effective → Effective → Type 0
  Applied l e e' =
      (override (validate_data_dir w) l.data_dir e.data_dir ≡ ok e'.data_dir)
      × (override validate_node_id l.node_id e.node_id ≡ ok e'.node_id)
      × (override (validate_compose_subnet w.networks) l.compose_subnet e.compose_subnet
          ≡ ok e'.compose_subnet)
      × (override (validate_timeout w.float_of_text) l.startup_timeout e.startup_timeout
          ≡ ok e'.startup_timeout)
      × (override (validate_timeout w.float_of_text) l.shutdown_timeout e.shutdown_timeout
          ≡ ok e'.shutdown_timeout)

  apply-Applied : (l : Layer) (e e' : Effective) → apply w l e ≡ ok e' → Applied l e e'
  unfolding apply
  apply-Applied l e e' h =
      let (a, ea, ha) = >>=-eq-ok _ _ h in
      let (b, eb, hb) = >>=-eq-ok _ _ ha in
      let (c, ec, hc) = >>=-eq-ok _ _ hb in
      let (x, ex, hx) = >>=-eq-ok _ _ hc in
      let (y, ey, hy) = >>=-eq-ok _ _ hx in
      let q = ok-injective hy in
      (
        ea ∙ ap ok (ap (λ r. r.data_dir) q),
        eb ∙ ap ok (ap (λ r. r.node_id) q),
        ec ∙ ap ok (ap (λ r. r.compose_subnet) q),
        ex ∙ ap ok (ap (λ r. r.startup_timeout) q),
        ey ∙ ap ok (ap (λ r. r.shutdown_timeout) q),
      )

  -- Every value is chosen from the three layers above the defaults. The subnet is read once more at the end.
  abbrev pub IsChosen : Layer → Layer → Layer → BitheimConfiguration → Type 0
  IsChosen cli env file c =
      Chosen (validate_data_dir w) cli.data_dir env.data_dir file.data_dir (defaults w).data_dir
        c.data_dir
      × Chosen validate_node_id cli.node_id env.node_id file.node_id (defaults w).node_id
          c.node.node_id
      × ((subnet : String) × Chosen (validate_compose_subnet w.networks) cli.compose_subnet
            env.compose_subnet file.compose_subnet (defaults w).compose_subnet subnet
          × (validate_compose_subnet w.networks (str subnet) ≡ ok c.node.compose_subnet))
      × Chosen (validate_timeout w.float_of_text) cli.startup_timeout env.startup_timeout
          file.startup_timeout (defaults w).startup_timeout c.node.startup_timeout
      × Chosen (validate_timeout w.float_of_text) cli.shutdown_timeout env.shutdown_timeout
          file.shutdown_timeout (defaults w).shutdown_timeout c.node.shutdown_timeout

  node_configuration-IsChosen :
      (cli env file : Layer) (e₁ e₂ e₃ : Effective) (f : Option String) (n : NodeConfiguration)
      → Applied file (defaults w) e₁
      → Applied env e₁ e₂
      → Applied cli e₂ e₃
      → node_configuration w e₃ ≡ ok n
      → IsChosen cli env file (record { data_dir = e₃.data_dir; node = n; config_file = f })
  unfolding node_configuration
  node_configuration-IsChosen cli env file e₁ e₂ e₃ f n (a₁, b₁, c₁, x₁, y₁) (a₂, b₂, c₂, x₂, y₂)
        (a₃, b₃, c₃, x₃, y₃) h =
      let (a, ea, ha) = >>=-eq-ok _ _ h in
      let (c, ec, hc) = >>=-eq-ok _ _ ha in
      let (x, ex, hx) = >>=-eq-ok _ _ hc in
      let (y, ey, hy) = >>=-eq-ok _ _ hx in
      let q = ok-injective hy in
      let chosen = layered validate_node_id _ _ _ _ _ _ _ b₁ b₂ b₃ in
      (
        layered (validate_data_dir w) _ _ _ _ _ _ _ a₁ a₂ a₃,
        chosen
            ∙ ap ok (
                sym (
                  node_id_again e₃.node_id a
                    (Chosen-IsNodeId cli.node_id env.node_id file.node_id e₃.node_id chosen) ea)
                ∙ ap (λ r. r.node_id) q),
        (
          e₃.compose_subnet,
          layered (validate_compose_subnet w.networks) _ _ _ _ _ _ _ c₁ c₂ c₃,
          ec ∙ ap ok (ap (λ r. r.compose_subnet) q),
        ),
        layered (validate_timeout w.float_of_text) _ _ _ _ _ _ _ x₁ x₂ x₃
            ∙ ap ok (
                sym (timeout_again w.float_of_text e₃.startup_timeout x ex)
                ∙ ap (λ r. r.startup_timeout) q),
        layered (validate_timeout w.float_of_text) _ _ _ _ _ _ _ y₁ y₂ y₃
            ∙ ap ok (
                sym (timeout_again w.float_of_text e₃.shutdown_timeout y ey)
                ∙ ap (λ r. r.shutdown_timeout) q),
      )

  -- the four layers, one after the other
  abbrev Layers : Sources → Layer → Option String → Effective → Type 0
  Layers s cli f e =
      (file : Layer) × (e₁ : Effective) × (e₂ : Effective) × (resolve_file w s.config_path
          s.default_config_path
        ≡ ok f)
      × (read_file w f ≡ ok file)
      × Applied file (defaults w) e₁
      × Applied (environment s.environ) e₁ e₂
      × Applied cli e₂ e

  effective-Layers :
      (s : Sources) (cli : Layer) (p : Option String × Effective)
      → effective w s cli ≡ ok p
      → Layers s cli p.0 p.1
  unfolding effective
  effective-Layers s cli p h =
      let (f, ef, hf) = >>=-eq-ok _ _ h in
      let (file, er, hr) = >>=-eq-ok _ _ hf in
      let (e₁, a₁, h₁) = >>=-eq-ok _ _ hr in
      let (e₂, a₂, h₂) = >>=-eq-ok _ _ h₁ in
      let (e₃, a₃, h₃) = >>=-eq-ok _ _ h₂ in
      subst (λ r. Layers s cli r.0 r.1) (ok-injective h₃)
        (
          file,
          e₁,
          e₂,
          ef,
          er,
          apply-Applied _ _ _ a₁,
          apply-Applied _ _ _ a₂,
          apply-Applied _ _ _ a₃,
        )

  -- where the values of a loaded configuration come from
  abbrev pub Sourced : Sources → Layer → BitheimConfiguration → Type 0
  Sourced s cli c =
      (file : Layer) × (resolve_file w s.config_path s.default_config_path ≡ ok c.config_file)
      × (read_file w c.config_file ≡ ok file)
      × IsChosen cli (environment s.environ) file c

  -- A configuration that is loaded takes every value from the highest layer that sets it: the command line, then the
  -- environment, then the file that was found, then the default. The value is what its validator makes of it, and the
  -- subnet is validated once more.
  pub load_configuration-IsChosen :
      (s : Sources) (cli : Layer) (c : BitheimConfiguration)
      → load_configuration w s cli ≡ ok c
      → Sourced s cli c
  unfolding load_configuration
  load_configuration-IsChosen s cli c h =
      let (p, ep, hp) = >>=-eq-ok _ _ h in
      let (n, en, hn) = >>=-eq-ok _ _ hp in
      let (file, e₁, e₂, ef, er, a₁, a₂, a₃) = effective-Layers s cli p ep in
      subst (λ r. Sourced s cli r) (ok-injective hn)
        (
          file,
          ef,
          er,
          node_configuration-IsChosen cli (environment s.environ) file e₁ e₂ p.1 p.0 n a₁ a₂ a₃ en,
        )

  -- The service accepts the identifier and both timeouts of every configuration that is loaded, and leaves them as they
  -- are.
  pub load_configuration-accepted :
      (s : Sources) (cli : Layer) (c : BitheimConfiguration)
      → load_configuration w s cli ≡ ok c
      → (validate_service_node_id (str c.node.node_id) ≡ ok c.node.node_id)
        × (validate_service_timeout (float (finite (pos c.node.startup_timeout)))
            ≡ ok c.node.startup_timeout)
        × (validate_service_timeout (float (finite (pos c.node.shutdown_timeout)))
            ≡ ok c.node.shutdown_timeout)
  load_configuration-accepted s cli c h =
      let (file, _, _, (_, id, _, startup, shutdown)) = load_configuration-IsChosen s cli c h in
      (
        validate_service_node_id_id c.node.node_id (
            Chosen-IsNodeId cli.node_id (environment s.environ).node_id file.node_id c.node.node_id
              id),
        Chosen-timeout w.float_of_text cli.startup_timeout (environment s.environ).startup_timeout
            file.startup_timeout c.node.startup_timeout startup,
        Chosen-timeout w.float_of_text cli.shutdown_timeout (environment s.environ).shutdown_timeout
            file.shutdown_timeout c.node.shutdown_timeout shutdown,
      )
