-- ===== src/Cli/Parser/Answer/Printing.antt =====
-- What the program prints in a container for a request.
use bitheim.Prelude.{ℕ, String, Bool, true, none, some, ◌≡◌, refl, ap}
use mathlib.Core.Path.{subst}
use bitheim.Value.{Value, obj}
use bitheim.Effect.{M, returns, pure, ◌>>=◌, >>=-eq-returns}
use bitheim.Configuration.{BitheimConfiguration}
use bitheim.Compose.Delegation.Snapshots.{
  overview_snapshot, block_snapshot, mempool_snapshot, peers_snapshot, payload,
}
use bitheim.Cli.{
  Host, Args, Finished, json, is_container_execution_context, configured, printed, failed, main,
  handle_inspect_node, handle_inspect_block, handle_inspect_mempool, handle_inspect_peers,
}
use bitheim.Cli
use bitheim.Cli.Argparse.{Parsed}
use bitheim.Cli.Parser.{args_of, run_handler, main_parsed}
use bitheim.Cli.Parser.Delegated.{
  Request, probe, node, mempool, peers, by_hash, by_height, handler_of, args_for,
}
use bitheim.Cli.Exits.{client_made, succeeded, main_ok}
use bitheim.Cli.Doctor.{Machine}
use bitheim.Domain.Node.{Health, Status}
use bitheim.Bitcoin.Probe.{probe_rpc_http}
use bitheim.Cli.{container_status, handle_status}
use bitheim.Cli.Output.{status_object}
use bitheim.Cli.Parser.Answer.{
  Answer, inspected, probed, Prints, Answered, probe_answer, node_answer, hash_answer,
  height_answer, mempool_answer, peers_answer,
}

module _ {W : Type 0} (m : Machine W) where
  probed_health :
      (node_id : String) (u v : W) (s : Status)
      → container_status m.host node_id u ≡ returns s v
      → (h : Health) × (u' : W) × (v' : W) × (probe_rpc_http m.host.probe true true u'
          ≡ returns h v')
        × (s.health ≡ h)
  unfolding container_status pure
  probed_health node_id u v s e =
      let (port, _, _, e₁) = >>=-eq-returns _ _ e in
      let (_, u', _, e₂) = >>=-eq-returns _ _ e₁ in
      let (h, v', e₃, e₄) = >>=-eq-returns _ _ e₂ in
      let same : s ≡ record { node_id = node_id; state = h.state; health = h; details = none } =
        cc e₄ in
      (h, u', v', e₃, ap (λ (x : Status). x.health) same)

  module _
      (inside : (w : W)
        → (w' : W) × (is_container_execution_context m.host w ≡ returns true w')) where
    -- a handler of an inspection, or of the status, has printed what the client has answered
    from_client :
        {A : Type 0} (args : Args) (f : BitheimConfiguration → Bool → M W A) (g : A → Cli.Printed)
        (w w' : W) (p : Cli.Printed)
        → (configured m.host args none none >>= (λ config.
              is_container_execution_context m.host >>= (λ b. f config b >>= (λ a. pure (g a)))))
            w
          ≡ returns p w'
        → (config : BitheimConfiguration) × (a : A) × (u : W) × (v : W) × (f config true u
            ≡ returns a v)
          × (p ≡ g a)
    unfolding pure
    from_client args f g w w' p e =
        let (config, w₁, _, e₁) = >>=-eq-returns _ _ e in
        let (b, w₂, e₂, e₃) = >>=-eq-returns _ _ e₁ in
        let (a, w₃, e₄, e₅) = >>=-eq-returns _ _ e₃ in
        let (w₄, e₆) = inside w₁ in
        let same : b ≡ true = cc (e₂, e₆) in
        (config, a, w₂, w₃, subst (λ b. f config b w₂ ≡ returns a w₃) same e₄, cc e₅)

    -- The output is the value for an answer to the request.
    abbrev pub Answers : Request → Cli.Printed → Type 0
    Answers r p = (a : Answer) × Answered m r a × ((v : Value) × Prints a v × (p ≡ json v))

    probe_printed :
        (w w' : W) (p : Cli.Printed)
        → handle_status m.host (args_for probe) w ≡ returns p w'
        → Answers probe p
    unfolding handle_status
    probe_printed w w' p e =
        let (config, s, u, v, e₁, q) = from_client (args_for probe) _ _ w w' p e in
        let (h, u', v', e₂, same) = probed_health config.node.node_id u v s e₁ in
        (probed h, probe_answer h u' v' e₂, (obj (status_object s), (s, same, refl), q))

    node_printed :
        (w w' : W) (p : Cli.Printed)
        → handle_inspect_node m.host (args_for node) w ≡ returns p w'
        → Answers node p
    unfolding handle_inspect_node
    node_printed w w' p e =
        let (_, o, u, v, e₁, q) = from_client (args_for node) _ _ w w' p e in
        (
          inspected (overview_snapshot o),
          node_answer o u v (client_made m.host _ u v o e₁),
          (obj (payload (overview_snapshot o)), refl, q),
        )

    hash_printed :
        (h : String) (w w' : W) (p : Cli.Printed)
        → handle_inspect_block m.host (args_for (by_hash h)) w ≡ returns p w'
        → Answers (by_hash h) p
    unfolding handle_inspect_block
    hash_printed h w w' p e =
        let (_, x, u, v, e₁, q) = from_client (args_for (by_hash h)) _ _ w w' p e in
        (
          inspected (block_snapshot x),
          hash_answer h x u v (client_made m.host _ u v x e₁),
          (obj (payload (block_snapshot x)), refl, q),
        )

    height_printed :
        (n : ℕ) (w w' : W) (p : Cli.Printed)
        → handle_inspect_block m.host (args_for (by_height n)) w ≡ returns p w'
        → Answers (by_height n) p
    unfolding handle_inspect_block
    height_printed n w w' p e =
        let (_, x, u, v, e₁, q) = from_client (args_for (by_height n)) _ _ w w' p e in
        (
          inspected (block_snapshot x),
          height_answer n x u v (client_made m.host _ u v x e₁),
          (obj (payload (block_snapshot x)), refl, q),
        )

    mempool_printed :
        (w w' : W) (p : Cli.Printed)
        → handle_inspect_mempool m.host (args_for mempool) w ≡ returns p w'
        → Answers mempool p
    unfolding handle_inspect_mempool
    mempool_printed w w' p e =
        let (_, x, u, v, e₁, q) = from_client (args_for mempool) _ _ w w' p e in
        (
          inspected (mempool_snapshot x),
          mempool_answer x u v (client_made m.host _ u v x e₁),
          (obj (payload (mempool_snapshot x)), refl, q),
        )

    peers_printed :
        (w w' : W) (p : Cli.Printed)
        → handle_inspect_peers m.host (args_for peers) w ≡ returns p w'
        → Answers peers p
    unfolding handle_inspect_peers
    peers_printed w w' p e =
        let (_, x, u, v, e₁, q) = from_client (args_for peers) _ _ w w' p e in
        (
          inspected (peers_snapshot x),
          peers_answer x u v (client_made m.host _ u v x e₁),
          (obj (payload (peers_snapshot x)), refl, q),
        )

    -- what a request prints
    pub request_printed :
        (r : Request) (w w' : W) (f : Finished)
        → run_handler m (handler_of r) (args_for r) w ≡ returns f w'
        → f.code ≡ 0
        → (p : Cli.Printed) × Answers r p × (f ≡ succeeded p)
    unfolding run_handler
    request_printed probe w w' f e z =
        let (p, e₁, q) = main_ok m.host _ w w' f e z in (p, probe_printed w w' p e₁, q)
    request_printed node w w' f e z =
        let (p, e₁, q) = main_ok m.host _ w w' f e z in (p, node_printed w w' p e₁, q)
    request_printed mempool w w' f e z =
        let (p, e₁, q) = main_ok m.host _ w w' f e z in (p, mempool_printed w w' p e₁, q)
    request_printed peers w w' f e z =
        let (p, e₁, q) = main_ok m.host _ w w' f e z in (p, peers_printed w w' p e₁, q)
    request_printed (by_hash h) w w' f e z =
        let (p, e₁, q) = main_ok m.host _ w w' f e z in (p, hash_printed h w w' p e₁, q)
    request_printed (by_height k) w w' f e z =
        let (p, e₁, q) = main_ok m.host _ w w' f e z in (p, height_printed k w w' p e₁, q)

    pub parsed_run :
        (r : Request) (ps : Parsed)
        → ps.handler ≡ some (handler_of r)
        → args_of ps.attributes ≡ args_for r
        → main_parsed m ps ≡ run_handler m (handler_of r) (args_for r)
    unfolding main_parsed
    parsed_run r ps h a = rw (h, a) refl
