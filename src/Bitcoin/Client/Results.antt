-- ===== src/Bitcoin/Client/Results.antt =====
-- What the client returns, and the methods that it refuses.
use bitheim.Prelude.{
  ℕ, String, false, List, Option, some, ◌≡◌, refl, All, ◌==◌, string_eq, contains, eq_of_beq, ◌∙◌,
  ◌≤◌, length,
}
use bitheim.Errors.{rpc_error}
use bitheim.Value.{Value}
use bitheim.Effect.{returns, raises, pure, lift, ◌>>=◌}
use bitheim.Effect.Results.{
  Returns, Returns-at, Returns-bind, Returns-bind_with, Returns-lift, Returns-pure, Returns-require,
}
use bitheim.Domain.Overview
use bitheim.Domain.Overview.{NodeOverview}
use bitheim.Domain.Block
use bitheim.Domain.Block.{BlockSummary, hex_64}
use bitheim.Domain.Peer
use bitheim.Domain.Peer.{PeerSummary}
use bitheim.Peers.Order.{Ascending}
use bitheim.Bitcoin.Parse.Laws.{
  parse_chain_info-IsValid, parse_block-IsValid, parse_peers-Ascending, length-parse_peers,
}
use bitheim.Bitcoin.Parse.{parse_block}
use bitheim.Bitcoin.Client.{
  Environment, allowed_rpc_methods, send_request, get_node_overview, resolve_hash, get_block,
  get_peers,
}

module _ {W : Type 0} (env : Environment W) where
  -- A method that is not on the list is refused before anything is read, sent or waited for.
  pub send_request_refused :
      (method : String) (params : List Value) (id : String) (deadline : ℕ) (w : W)
      → contains allowed_rpc_methods method ≡ false
      → send_request env method params id deadline w ≡ raises rpc_error w
  unfolding send_request ◌>>=◌ lift
  send_request_refused method params id deadline w h = rw h refl

  get_node_overview-Returns :
      (timeout : Value) → Returns Overview.Laws.IsValid (get_node_overview env timeout)
  unfolding get_node_overview
  get_node_overview-Returns timeout = Returns-bind _ _ (λ _. Returns-bind _ _ (λ _.
      Returns-bind _ _ (λ _. Returns-bind _ _ (λ net.
        Returns-bind _ _ (λ v. Returns-lift _ (λ o h. parse_chain_info-IsValid net v o h))))))

  -- An overview that the client returns is valid: it has version 310100 and the chain regtest, a short printable
  -- subversion, and hashes of 64 lower-case hexadecimal digits.
  pub get_node_overview-IsValid :
      (timeout : Value) (w w' : W) (o : NodeOverview)
      → get_node_overview env timeout w ≡ returns o w'
      → Overview.Laws.IsValid o
  get_node_overview-IsValid timeout w w' o h =
      Returns-at (get_node_overview-Returns timeout) w w' o h

  get_block-Returns :
      (hash : String) (height timeout : Value)
      → Returns
          (λ b. Block.Laws.IsValid b × (b.hash ≡ hash))
          (get_block env (some hash) height timeout)
  unfolding get_block resolve_hash
  get_block-Returns hash height timeout = Returns-bind _ _ (λ _. Returns-require _ _ _ (λ _.
      Returns-bind _ _ (λ _.
        Returns-bind_with (pure hash) _ (Returns-pure {P = λ s. s ≡ hash} hash refl)
          (λ resolved same. Returns-require _ _ _ (λ _. Returns-bind _ _ (λ _.
            Returns-bind _ _ (λ members.
              Returns-bind_with (lift (parse_block members)) _
                (Returns-lift {P = Block.Laws.IsValid} _
                  (λ b h. (parse_block-IsValid members b h).0))
                (λ b valid.
                  Returns-require (b.hash == resolved) _ _
                    (λ e. Returns-pure b (valid, eq_of_beq b.hash resolved e ∙ same))))))))))

  -- A block that the client returns when it is asked by hash is valid and has that hash.
  pub get_block-hash :
      (hash : String) (height timeout : Value) (w w' : W) (b : BlockSummary)
      → get_block env (some hash) height timeout w ≡ returns b w'
      → Block.Laws.IsValid b × (b.hash ≡ hash)
  get_block-hash hash height timeout w w' b h =
      Returns-at (get_block-Returns hash height timeout) w w' b h

  any_block-Returns :
      (hash : Option String) (height timeout : Value)
      → Returns Block.Laws.IsValid (get_block env hash height timeout)
  unfolding get_block
  any_block-Returns hash height timeout = Returns-bind _ _ (λ _. Returns-bind _ _ (λ _.
      Returns-bind _ _ (λ _. Returns-bind _ _ (λ resolved. Returns-bind _ _ (λ _.
        Returns-bind _ _ (λ _. Returns-bind _ _ (λ members.
          Returns-bind_with (lift (parse_block members)) _
            (Returns-lift {P = Block.Laws.IsValid} _ (λ b h. (parse_block-IsValid members b h).0))
            (λ b valid. Returns-bind _ _ (λ _. Returns-pure b valid)))))))))

  -- A block that the client returns is valid, by hash or by height.
  pub get_block-IsValid :
      (hash : Option String) (height timeout : Value) (w w' : W) (b : BlockSummary)
      → get_block env hash height timeout w ≡ returns b w'
      → Block.Laws.IsValid b
  get_block-IsValid hash height timeout w w' b h =
      Returns-at (any_block-Returns hash height timeout) w w' b h

  get_peers-Returns :
      (timeout : Value)
      → Returns
          (λ ps. All Peer.Laws.IsValid ps × Ascending ps × (length ps ≤ 256))
          (get_peers env timeout)
  unfolding get_peers
  get_peers-Returns timeout = Returns-bind _ _ (λ _. Returns-bind _ _ (λ _. Returns-bind _ _ (λ v.
      Returns-lift _ (λ ps h.
        let (valid, up) = parse_peers-Ascending env.decimals v ps h in
        (valid, up, length-parse_peers env.decimals v ps h)))))

  -- The peers that the client returns are valid, their ids ascend strictly, and there are at most 256 of them.
  pub get_peers-Ascending :
      (timeout : Value) (w w' : W) (ps : List PeerSummary)
      → get_peers env timeout w ≡ returns ps w'
      → All Peer.Laws.IsValid ps × Ascending ps × (length ps ≤ 256)
  get_peers-Ascending timeout w w' ps h = Returns-at (get_peers-Returns timeout) w w' ps h
