-- ===== src/Domain/Block.antt =====
-- domain/node.py: `BlockSummary`.
pub mod Laws
use bitheim.Prelude.{ℕ, String, Bool, Option}
use bitheim.Prelude.Int.{pos}
use bitheim.Prelude.Text.{class_run, is_lower_hex}
use bitheim.Errors.{Result, ok, value_error, or_raise, ◌>>=◌}
use bitheim.Value.{Value, int, str, Fields, end, field, nonneg, text_where, optional, value_or_null}

pub record BlockSummary : Type 0 where
  pub hash : String
  pub height : ℕ
  pub confirmations : ℕ
  pub timestamp : ℕ
  pub transaction_count : ℕ
  pub size : ℕ
  pub weight : ℕ
  pub previous_block_hash : Option String
  pub next_block_hash : Option String

-- the arguments of the constructor, whose types are not checked before `__post_init__` runs
pub record BlockArgs : Type 0 where
  pub hash : Value
  pub height : Value
  pub confirmations : Value
  pub timestamp : Value
  pub transaction_count : Value
  pub size : Value
  pub weight : Value
  pub previous_block_hash : Value
  pub next_block_hash : Value

-- `re.compile(r"^[0-9a-f]{64}$").match(s)`
unfoldable pub hex_64 : String → Bool
hex_64 s = class_run is_lower_hex 64 s

unfoldable pub block_summary : BlockArgs → Result BlockSummary
block_summary a = do
  hash ← or_raise (text_where hex_64 a.hash) value_error
  height ← or_raise (nonneg a.height) value_error
  confirmations ← or_raise (nonneg a.confirmations) value_error
  timestamp ← or_raise (nonneg a.timestamp) value_error
  transaction_count ← or_raise (nonneg a.transaction_count) value_error
  size ← or_raise (nonneg a.size) value_error
  weight ← or_raise (nonneg a.weight) value_error
  previous ← or_raise (optional (text_where hex_64) a.previous_block_hash) value_error
  next ← or_raise (optional (text_where hex_64) a.next_block_hash) value_error
  ok (record {
    hash = hash;
    height = height;
    confirmations = confirmations;
    timestamp = timestamp;
    transaction_count = transaction_count;
    size = size;
    weight = weight;
    previous_block_hash = previous;
    next_block_hash = next;
  })

-- `BlockSummary.to_dict`
unfoldable pub to_dict : BlockSummary → Fields
to_dict b = field "confirmations" (int (pos b.confirmations)) (
    field "hash" (str b.hash) (
      field "height" (int (pos b.height)) (
        field "next_block_hash" (value_or_null str b.next_block_hash) (
          field "previous_block_hash" (value_or_null str b.previous_block_hash) (
            field "size" (int (pos b.size)) (
              field "timestamp" (int (pos b.timestamp)) (
                field "transaction_count" (int (pos b.transaction_count))
                  (field "weight" (int (pos b.weight)) end))))))))
