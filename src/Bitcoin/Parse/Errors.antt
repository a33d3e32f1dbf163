-- ===== src/Bitcoin/Parse/Errors.antt =====
-- What the checks that use `decimal` raise.
use bitheim.Prelude.{
  Bool, true, false, Option, none, some, ◌≡◌, ◌⊎◌, not, inl, inr, refl, arith, leb, length,
}
use bitheim.Errors.{
  Exc, ok, err, value_error, decimal_exception, rpc_malformed_response, >>=-errors, Result, require,
  or_raise,
}
use bitheim.Value.{Value, Decimal, Fields, as_arr}
use bitheim.Domain.Mempool.{MempoolArgs, mempool_summary}
use bitheim.Domain.Peer.{PeerArgs, peer_summary, peer_texts}
use bitheim.Peers.Laws.{parse_all_errors}
use bitheim.Bitcoin.Numbers.{DecimalOps}
use bitheim.Bitcoin.Parse.{
  satoshis, mempool_fields, parse_mempool, ping_time, peer_fields, parse_peer, parse_peers,
  on_conversion_error, amount,
}
use bitheim.Bitcoin.Parse.Laws.{caught}

-- `DecimalException`, `OverflowError` and `ValueError`, the last two taken together
abbrev pub is_conversion_error : Exc → Bool
is_conversion_error value_error = true
is_conversion_error decimal_exception = true
is_conversion_error _ = false

abbrev IsMalformed : Exc → Type 0
IsMalformed e = e ≡ rpc_malformed_response

no_error {ℓ} : {A : Type ℓ} {a : A} {e : Exc} → ok a ≡ err e → e ≡ rpc_malformed_response
no_error h = cc

-- what the handler around the conversion turns into, or lets through as, `RpcMalformedResponseError`
abbrev IsHandled : Exc → Type 0
IsHandled e = (is_conversion_error e ≡ true) ⊎ (e ≡ rpc_malformed_response)

-- What the documentation says that the operations of `decimal` raise.
pub record RaisesConversion (ops : DecimalOps) : Type 0 where
  pub times : (d : Decimal) (e : Exc) → ops.times_satoshis d ≡ err e → is_conversion_error e ≡ true
  pub fraction : (d : Decimal) (e : Exc) → ops.has_fraction d ≡ err e → is_conversion_error e ≡ true
  pub to_int : (d : Decimal) (e : Exc) → ops.to_int d ≡ err e → is_conversion_error e ≡ true
  pub to_float : (d : Decimal) (e : Exc) → ops.to_float d ≡ err e → is_conversion_error e ≡ true

-- what a handler for the three raises
converted {ℓ} :
    {A : Type ℓ} (r : Result A)
    → ((x : Exc) → r ≡ err x → IsHandled x)
    → (e : Exc) → on_conversion_error r rpc_malformed_response ≡ err e
    → e ≡ rpc_malformed_response
converted (ok a) only e h = cc
converted (err x) only e h = let handled = only x refl in ground arith

mempool_errors : (a : MempoolArgs) (e : Exc) → mempool_summary a ≡ err e → e ≡ value_error
unfolding mempool_summary
mempool_errors a e h = ground arith

texts_errors : (a : PeerArgs) (e : Exc) → peer_texts a ≡ err e → e ≡ value_error
unfolding peer_texts
texts_errors a e h = ground arith

pub peer_errors : (a : PeerArgs) (e : Exc) → peer_summary a ≡ err e → e ≡ value_error
unfolding peer_summary
peer_errors a e h = ground (arith, texts_errors a e)

mempool_fields_errors :
    (d : Fields) (e : Exc) → mempool_fields d ≡ err e → e ≡ rpc_malformed_response
unfolding mempool_fields
mempool_fields_errors d e h = ground arith

peer_fields_errors : (v : Value) (e : Exc) → peer_fields v ≡ err e → e ≡ rpc_malformed_response
unfolding peer_fields
peer_fields_errors v e h = ground arith

module _ (ops : DecimalOps) (only : RaisesConversion ops) where
  satoshis_errors : (d : Decimal) (e : Exc) → satoshis ops d ≡ err e → e ≡ rpc_malformed_response
  unfolding satoshis
  satoshis_errors d = converted _ (
      >>=-errors IsHandled (ops.times_satoshis d) _ (λ e h. inl (only.times d e h))
        (λ fee.
          >>=-errors IsHandled (ops.has_fraction fee) _ (λ e h. inl (only.fraction fee e h))
            (λ fraction.
              >>=-errors IsHandled (require (not fraction) rpc_malformed_response) _
                (λ e h. inr (ground arith)) (λ _ e h. inl (only.to_int fee e h)))))

  pub parse_mempool_errors :
      (d : Fields) (e : Exc) → parse_mempool ops d ≡ err e → e ≡ rpc_malformed_response
  unfolding parse_mempool
  parse_mempool_errors d =
      >>=-errors IsMalformed (mempool_fields d) _ (mempool_fields_errors d) (λ (a, fee).
        >>=-errors IsMalformed (satoshis ops fee) _ (satoshis_errors fee)
          (λ fees e h. caught (mempool_summary _) e (mempool_errors _) h))

  ping_time_errors :
      (o : Option Value) (e : Exc) → ping_time ops o ≡ err e → e ≡ rpc_malformed_response
  unfolding ping_time
  ping_time_errors none = λ e h. cc
  ping_time_errors (some v) =
      >>=-errors IsMalformed (or_raise (amount v) rpc_malformed_response) _ (λ e h. ground arith)
        (λ d.
          >>=-errors IsMalformed (on_conversion_error (ops.to_float d) rpc_malformed_response) _
            (converted _ (λ e h. inl (only.to_float d e h))) (λ _ e h. no_error h))

  parse_peer_errors : (v : Value) (e : Exc) → parse_peer ops v ≡ err e → e ≡ rpc_malformed_response
  unfolding parse_peer
  parse_peer_errors v = >>=-errors IsMalformed (peer_fields v) _ (peer_fields_errors v) (λ a.
      >>=-errors IsMalformed (ping_time ops _) _ (ping_time_errors _)
        (λ ping e h. caught (peer_summary _) e (peer_errors _) h))

  pub parse_peers_errors :
      (v : Value) (e : Exc) → parse_peers ops v ≡ err e → e ≡ rpc_malformed_response
  unfolding parse_peers
  parse_peers_errors v =
      >>=-errors IsMalformed (or_raise (as_arr v) rpc_malformed_response) _ (λ e h. ground arith)
        (λ vs.
          >>=-errors IsMalformed (require (leb (length vs) 256) rpc_malformed_response) _
            (λ e h. ground arith) (λ _. parse_all_errors _ parse_peer_errors vs))
