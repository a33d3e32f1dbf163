-- ===== src/Domain/Mempool.antt =====
-- domain/node.py: `MempoolSummary`.
pub mod Laws
use bitheim.Prelude.{ℕ, Bool}
use bitheim.Prelude.Int.{pos}
use bitheim.Errors.{Result, ok, value_error, or_raise, ◌>>=◌}
use bitheim.Value.{Value, int, bool, Fields, end, field, nonneg, as_bool}

pub record MempoolSummary : Type 0 where
  pub loaded : Bool
  pub transaction_count : ℕ
  pub serialized_bytes : ℕ
  pub dynamic_memory_usage : ℕ
  pub max_memory : ℕ
  pub total_fees_satoshis : ℕ

-- the arguments of the constructor, whose types are not checked before `__post_init__` runs
pub record MempoolArgs : Type 0 where
  pub loaded : Value
  pub transaction_count : Value
  pub serialized_bytes : Value
  pub dynamic_memory_usage : Value
  pub max_memory : Value
  pub total_fees_satoshis : Value

unfoldable pub mempool_summary : MempoolArgs → Result MempoolSummary
mempool_summary a = do
  loaded ← or_raise (as_bool a.loaded) value_error
  transaction_count ← or_raise (nonneg a.transaction_count) value_error
  serialized_bytes ← or_raise (nonneg a.serialized_bytes) value_error
  usage ← or_raise (nonneg a.dynamic_memory_usage) value_error
  max_memory ← or_raise (nonneg a.max_memory) value_error
  fees ← or_raise (nonneg a.total_fees_satoshis) value_error
  ok (record {
    loaded = loaded;
    transaction_count = transaction_count;
    serialized_bytes = serialized_bytes;
    dynamic_memory_usage = usage;
    max_memory = max_memory;
    total_fees_satoshis = fees;
  })

-- `MempoolSummary.to_dict`
unfoldable pub to_dict : MempoolSummary → Fields
to_dict m = field "dynamic_memory_usage" (int (pos m.dynamic_memory_usage)) (
    field "loaded" (bool m.loaded) (
      field "max_memory" (int (pos m.max_memory)) (
        field "serialized_bytes" (int (pos m.serialized_bytes)) (
          field "total_fees_satoshis" (int (pos m.total_fees_satoshis))
            (field "transaction_count" (int (pos m.transaction_count)) end)))))
