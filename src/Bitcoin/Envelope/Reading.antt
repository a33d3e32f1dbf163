-- ===== src/Bitcoin/Envelope/Reading.antt =====
-- infrastructure/bitcoin/rpc_client.py: the loop of `_read_and_parse_envelope` that reads the body, and the function.
pub mod Bounds
use bitheim.Prelude.{
  ℕ, zero, suc, ◌+◌, ◌-◌, ◌*◌, ◌==◌, nat_eq, String, List, [], ◌++◌, Option, leb, length,
  if◌then◌else◌,
}
use bitheim.Errors.{
  Result, rpc_malformed_response, rpc_timeout, rpc_unavailable, rpc_response_size_exceeded,
  http_exception, on_value_error, or_raise,
}
use bitheim.Value.{Value}
use bitheim.Value.Keys.{build}
use bitheim.Effect.{M, pure, raise, lift, ask, stuck, ◌>>=◌, ◌>>◌}
use bitheim.Effect.Clock.{Clock, now}
use bitheim.Bitcoin.Envelope.{envelope}

-- what `resp.read` does: bytes, none of them at the end; a timeout; another `OSError`; or an `HTTPException`, such as
-- the `IncompleteRead` of a chunked body
pub data Chunk : Type 0 where
  bytes : List ℕ → Chunk
  timed_out : Chunk
  broken : Chunk
  incomplete : Chunk

-- `bytes.decode("utf-8")`, and `json.loads` with `parse_float=Decimal` before the hook, which sees the pairs
pub record Decoder : Type 0 where
  pub decode : List ℕ → Option String
  pub loads : String → Result Value

abbrev pub max_response_size : ℕ
max_response_size = 4 * 1024 * 1024

-- Every chunk but the last has a byte, so there are at most as many rounds as the size limit, and two more.
abbrev pub rounds : ℕ
rounds = max_response_size + 2

-- `read` is `resp.read(65536)` under a timeout.
module _ {W : Type 0} (c : Clock W) (read : ℕ → W → Chunk × W) where
  -- the end of one round of the loop, with the rest of the loop
  unfoldable pub after_read : (ℕ → List ℕ → M W (List ℕ)) → ℕ → ℕ → List ℕ → Chunk → M W (List ℕ)
  after_read rest deadline total chunks timed_out = raise rpc_timeout
  after_read rest deadline total chunks broken = raise rpc_unavailable
  after_read rest deadline total chunks incomplete = raise http_exception
  after_read rest deadline total chunks (bytes chunk) = do
    t ← now c
    if leb deadline t
        then raise rpc_timeout
        else if length chunk == 0
        then pure chunks
        else if leb (total + length chunk) max_response_size
        then rest (total + length chunk) (chunks ++ chunk)
        else raise rpc_response_size_exceeded

  -- the loop, with fuel for its rounds; `chunks` is joined as it grows
  unfoldable pub read_body : ℕ → ℕ → ℕ → List ℕ → M W (List ℕ)
  read_body zero deadline total chunks = stuck
  read_body (suc fuel) deadline total chunks = do
    t ← now c
    if leb deadline t then raise rpc_timeout else do
      chunk ← ask (read (deadline - t))
      after_read (λ total' chunks'. read_body fuel deadline total' chunks') deadline total chunks
          chunk

  -- `_read_and_parse_envelope`
  unfoldable pub read_and_parse_envelope : Decoder → String → ℕ → M W Value
  read_and_parse_envelope d req_id deadline = do
    body ← read_body rounds deadline 0 []
    raw_text ← lift (or_raise (d.decode body) rpc_malformed_response)
    pairs ← lift (on_value_error (d.loads raw_text) rpc_malformed_response)
    parsed ← lift (on_value_error (build pairs) rpc_malformed_response)
    lift (envelope req_id parsed)
