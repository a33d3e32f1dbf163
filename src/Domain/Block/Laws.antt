-- ===== src/Domain/Block/Laws.antt =====
-- The constructor of `BlockSummary` accepts every valid snapshot unchanged.
use bitheim.Prelude.{true, Option, none, some, String, ◌≡◌, arith}
use bitheim.Prelude.Int.{pos}
use bitheim.Errors.{ok}
use bitheim.Value.{int, str, value_or_null}
use bitheim.Domain.Block.{BlockSummary, BlockArgs, hex_64, block_summary}

abbrev pub OptionHash : Option String → Type 0
OptionHash none = Unit
OptionHash (some s) = hex_64 s ≡ true

pub record IsValid (b : BlockSummary) : Type 0 where
  pub hash : hex_64 b.hash ≡ true
  pub previous : OptionHash b.previous_block_hash
  pub next : OptionHash b.next_block_hash

abbrev pub args : BlockSummary → BlockArgs
args b = record {
  hash = str b.hash;
  height = int (pos b.height);
  confirmations = int (pos b.confirmations);
  timestamp = int (pos b.timestamp);
  transaction_count = int (pos b.transaction_count);
  size = int (pos b.size);
  weight = int (pos b.weight);
  previous_block_hash = value_or_null str b.previous_block_hash;
  next_block_hash = value_or_null str b.next_block_hash;
}

pub block_summary-args : (b : BlockSummary) → IsValid b → block_summary (args b) ≡ ok b
unfolding block_summary
block_summary-args b v = ground arith
