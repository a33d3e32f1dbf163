-- ===== src/Service/Observation/Requests.antt =====
-- Which requests of the observation service reach the adapter.
use bitheim.Prelude.{
  ℕ, String, Option, none, some, ◌≡◌, inl, inr, arith, true, false, refl, ap, Bool-cases,
}
use bitheim.Prelude.Int.{pos}
use bitheim.Errors.{ok, rpc_error, overflow_error, Result-cases, or_raise, require}
use bitheim.Value.{Value, null, str, int, is_null, is_too_large, optional, text_where, nonneg}
use bitheim.Effect.{raises, lift, ◌>>=◌, ◌>>◌}
use bitheim.Domain.Block.{hex_64}
use bitheim.Service.Guards.{command_deadline}
use bitheim.Service.Guards.Laws.{command_deadline_errors, command_deadline_too_large}
use bitheim.Service.Observation.{NodeObservationPort, inspect_block, either_one}

-- A deadline that is accepted, and either a hash or a height.
pub data IsRequest : Value → Value → Value → Option String → Type 0 where
  by_hash :
      (s : String) (t : Value) (n : ℕ)
      → hex_64 s ≡ true
      → command_deadline t ≡ ok n
      → IsRequest (str s) null t (some s)
  by_height :
      (h : ℕ) (t : Value) (n : ℕ) → command_deadline t ≡ ok n → IsRequest null (int (pos h)) t none

module _ {W : Type 0} (port : NodeObservationPort W) where
  inspect_block_valid :
      (block_hash height timeout : Value) (h : Option String) (w : W)
      → IsRequest block_hash height timeout h
      → inspect_block port block_hash height timeout w ≡ port.get_block h height timeout w
  unfolding inspect_block ◌>>=◌ lift
  inspect_block_valid _ _ _ _ w (by_hash s t n h d) = ground (arith, h, d)
  inspect_block_valid _ _ _ _ w (by_height h t n d) = ground (arith, d)

  unnamed :
      (block_hash height timeout : Value) (n : ℕ) (w : W)
      → command_deadline timeout ≡ ok n
      → ((h : Option String) → ¬ IsRequest block_hash height timeout h)
      → (do
        lift (require (either_one (is_null block_hash) (is_null height)) rpc_error)
        hash ← lift (or_raise (optional (text_where hex_64) block_hash) rpc_error)
        valid_height ← lift (or_raise (optional nonneg height) rpc_error)
        port.get_block hash height timeout)
          w
        ≡ raises rpc_error w
  unfolding ◌>>=◌ lift
  unnamed (str s) null t n w d bad = elim (Bool-cases (hex_64 s)) [
    | inl h ↦ absurd (bad (some s) (by_hash s t n h d))
    | inr h ↦ rw h refl
  ]
  unnamed null (int (pos h)) t n w d bad = absurd (bad none (by_height h t n d))
  unnamed bh ht t n w d bad = ground arith

  inspect_block_invalid :
      (block_hash height timeout : Value) (w : W)
      → is_too_large timeout ≡ false
      → ((h : Option String) → ¬ IsRequest block_hash height timeout h)
      → inspect_block port block_hash height timeout w ≡ raises rpc_error w
  unfolding inspect_block ◌>>=◌ lift
  inspect_block_invalid block_hash height timeout w fits bad =
      elim (Result-cases (command_deadline timeout)) [
        | inr (e, d) ↦ rw d (ap (λ x. raises x w) (command_deadline_errors timeout e fits d))
        | inl (n, d) ↦ rw d (unnamed block_hash height timeout n w d bad)
      ]

  inspect_block_too_large :
      (block_hash height timeout : Value) (w : W)
      → is_too_large timeout ≡ true
      → inspect_block port block_hash height timeout w ≡ raises overflow_error w
  unfolding inspect_block ◌>>=◌ lift
  inspect_block_too_large block_hash height timeout w large =
      rw (command_deadline_too_large timeout large) refl

  -- A block request with an accepted deadline that names a block by a hash alone or by a height alone reaches the
  -- adapter unchanged. Every other one leaves the world alone and raises `RpcError`, but for a deadline that is an int too
  -- large for `float`, with which `OverflowError` is raised.
  pub inspect_block_requests :
      (block_hash height timeout : Value) (w : W)
      → ((h : Option String)
          → IsRequest block_hash height timeout h
          → inspect_block port block_hash height timeout w ≡ port.get_block h height timeout w)
        × (is_too_large timeout ≡ true
            → inspect_block port block_hash height timeout w ≡ raises overflow_error w)
        × (is_too_large timeout ≡ false
            → ((h : Option String) → ¬ IsRequest block_hash height timeout h)
            → inspect_block port block_hash height timeout w ≡ raises rpc_error w)
  inspect_block_requests block_hash height timeout w = (
    λ h. inspect_block_valid block_hash height timeout h w,
    inspect_block_too_large block_hash height timeout w,
    inspect_block_invalid block_hash height timeout w,
  )
