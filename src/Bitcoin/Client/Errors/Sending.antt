-- ===== src/Bitcoin/Client/Errors/Sending.antt =====
-- Which exceptions a request of the client raises.
use bitheim.Prelude.{
  ℕ, zero, suc, ◌+◌, length, String, List, [], Option, ◌≡◌, true, refl, leb, ◌==◌, ◌||◌, nat_eq,
  string_eq, arith,
}
use bitheim.Errors.{Exc, err, value_error, rpc_malformed_response}
use bitheim.Value.{Value}
use bitheim.Value.Keys.{build, build_errors}
use bitheim.Effect.{M}
use bitheim.Effect.Clock.{now, RaisesOnly-now}
use bitheim.Effect.Errors.{
  rpc, in_class, RaisesOnly, RaisesOnly-pure, RaisesOnly-raise, RaisesOnly-stuck,
  RaisesOnly-ask_with, RaisesOnly-lift, RaisesOnly-or_raise, RaisesOnly-require, RaisesOnly-if,
  RaisesOnly-bind, RaisesOnly-authentication,
}
use bitheim.Bitcoin.Cookie.Laws.{header_errors}
use bitheim.Bitcoin.Envelope.{envelope}
use bitheim.Bitcoin.Envelope.Laws.{envelope_errors}
use bitheim.Bitcoin.Envelope.Reading.{
  Chunk, bytes, timed_out, broken, incomplete, after_read, read_body, read_and_parse_envelope,
  rounds, max_response_size,
}
use bitheim.Bitcoin.Parse.Laws.{caught}
use bitheim.Bitcoin.Parse.Errors.{RaisesConversion}
use bitheim.Bitcoin.Client.{
  Environment, Reply, response, http_error, redirected, unreachable, no_http, Request, timed_read,
  on_reply, send_request,
}

-- The answer of the node is HTTP.
abbrev IsHttp : Reply → Type 0
IsHttp no_http = ⊥
IsHttp _ = Unit

-- The body of the answer is complete HTTP.
abbrev pub IsBody : Chunk → Type 0
IsBody incomplete = ⊥
IsBody _ = Unit

-- What the documentation says that `json.loads` and the operations of `decimal` raise, and that the node speaks HTTP. It
-- leaves out a number whose exponent `Decimal` refuses.
pub record Documented {W : Type 0} (env : Environment W) : Type 0 where
  pub loads : (s : String) (e : Exc) → env.decoder.loads s ≡ err e → e ≡ value_error
  pub decimals : RaisesConversion env.decimals
  pub replies : (r : Request) (timeout : ℕ) (w : W) → IsHttp (env.post r timeout w).0
  pub bodies : (timeout : Option ℕ) (w : W) → IsBody (env.read timeout w).0

module _ {W : Type 0} (env : Environment W) (doc : Documented env) where
  now_rpc : RaisesOnly rpc (now env.clock)
  now_rpc = RaisesOnly-now env.clock

  pub malformed_rpc : (e : Exc) → e ≡ rpc_malformed_response → in_class rpc e ≡ true
  malformed_rpc e h = rw h refl

  envelope_rpc : (id : String) (v : Value) (e : Exc) → envelope id v ≡ err e → in_class rpc e ≡ true
  envelope_rpc id v e h = ground (arith, envelope_errors id v e h)

  after_read_rpc :
      (rest : ℕ → List ℕ → M W (List ℕ)) (deadline total : ℕ) (chunks : List ℕ) (chunk : Chunk)
      → IsBody chunk
      → ((n : ℕ) (b : List ℕ) → RaisesOnly rpc (rest n b))
      → RaisesOnly rpc (after_read env.clock (timed_read env) rest deadline total chunks chunk)
  unfolding after_read
  after_read_rpc rest deadline total chunks timed_out p k = RaisesOnly-raise _ refl
  after_read_rpc rest deadline total chunks broken p k = RaisesOnly-raise _ refl
  after_read_rpc rest deadline total chunks incomplete p k = absurd p
  after_read_rpc rest deadline total chunks (bytes b) p k = RaisesOnly-bind _ _ now_rpc (λ t.
      RaisesOnly-if (leb deadline t) _ _ (λ _. RaisesOnly-raise _ refl)
        (λ _.
          RaisesOnly-if (length b == 0) _ _ (λ _. RaisesOnly-pure _)
            (λ _.
              RaisesOnly-if (leb (total + length b) max_response_size) _ _ (λ _. k _ _)
                (λ _. RaisesOnly-raise _ refl))))

  read_body_rpc :
      (fuel deadline total : ℕ) (chunks : List ℕ)
      → RaisesOnly rpc (read_body env.clock (timed_read env) fuel deadline total chunks)
  unfolding read_body
  read_body_rpc zero deadline total chunks = RaisesOnly-stuck
  read_body_rpc (suc fuel) deadline total chunks = RaisesOnly-bind _ _ now_rpc (λ t.
      RaisesOnly-if (leb deadline t) _ _ (λ _. RaisesOnly-raise _ refl)
        (λ _. RaisesOnly-ask_with IsBody _ _ (doc.bodies _) (λ chunk p.
          after_read_rpc _ deadline total chunks chunk p (λ n b. read_body_rpc fuel deadline n b))))

  envelope_read_rpc :
      (id : String) (deadline : ℕ)
      → RaisesOnly rpc (read_and_parse_envelope env.clock (timed_read env) env.decoder id deadline)
  unfolding read_and_parse_envelope
  envelope_read_rpc id deadline = RaisesOnly-bind _ _ (read_body_rpc rounds deadline 0 []) (λ body.
      RaisesOnly-bind _ _ (RaisesOnly-or_raise _ _ refl) (λ text.
        RaisesOnly-bind _ _
          (RaisesOnly-lift _
            (λ e h. malformed_rpc e (caught (env.decoder.loads text) e (doc.loads text) h)))
          (λ pairs.
            RaisesOnly-bind _ _
              (RaisesOnly-lift _
                (λ e h. malformed_rpc e (caught (build pairs) e (build_errors pairs) h)))
              (λ v. RaisesOnly-lift _ (envelope_rpc id v)))))

  on_reply_rpc :
      (id : String) (deadline : ℕ) (r : Reply)
      → IsHttp r
      → RaisesOnly rpc (on_reply env id deadline r)
  unfolding on_reply
  on_reply_rpc id deadline response p = envelope_read_rpc id deadline
  on_reply_rpc id deadline (http_error code) p =
      RaisesOnly-if (code == 401 || code == 403) _ _ (λ _. RaisesOnly-raise _ refl)
        (λ _.
          RaisesOnly-if (code == 500) _ _
            (λ _.
              RaisesOnly-bind _ _ (envelope_read_rpc id deadline) (λ _. RaisesOnly-raise _ refl))
            (λ _. RaisesOnly-raise _ refl))
  on_reply_rpc id deadline redirected p = RaisesOnly-raise _ refl
  on_reply_rpc id deadline Reply.timed_out p = RaisesOnly-raise _ refl
  on_reply_rpc id deadline unreachable p = RaisesOnly-raise _ refl
  on_reply_rpc id deadline no_http p = absurd p

  pub send_request_rpc :
      (method : String) (params : List Value) (id : String) (deadline : ℕ)
      → RaisesOnly rpc (send_request env method params id deadline)
  unfolding send_request
  send_request_rpc method params id deadline =
      RaisesOnly-bind _ _ (RaisesOnly-require _ _ refl) (λ _. RaisesOnly-bind _ _ now_rpc (λ t.
        RaisesOnly-if (leb deadline t) _ _ (λ _. RaisesOnly-raise _ refl)
          (λ _. RaisesOnly-bind _ _ (RaisesOnly-authentication (header_errors _ _ _)) (λ header.
            RaisesOnly-bind _ _ now_rpc (λ t'.
              RaisesOnly-if (leb deadline t') _ _ (λ _. RaisesOnly-raise _ refl)
                (λ _. RaisesOnly-bind _ _ (RaisesOnly-require _ _ refl) (λ _.
                  RaisesOnly-ask_with IsHttp _ _ (doc.replies _ _) (on_reply_rpc id deadline))))))))
