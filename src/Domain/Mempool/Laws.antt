-- ===== src/Domain/Mempool/Laws.antt =====
-- The constructor of `MempoolSummary` takes the arguments of a snapshot over unchanged.
use bitheim.Prelude.{◌≡◌, arith}
use bitheim.Prelude.Int.{pos}
use bitheim.Errors.{ok}
use bitheim.Value.{int, bool}
use bitheim.Domain.Mempool.{MempoolSummary, MempoolArgs, mempool_summary}

-- the arguments that make the snapshot
abbrev pub args : MempoolSummary → MempoolArgs
args x = record {
  loaded = bool x.loaded;
  transaction_count = int (pos x.transaction_count);
  serialized_bytes = int (pos x.serialized_bytes);
  dynamic_memory_usage = int (pos x.dynamic_memory_usage);
  max_memory = int (pos x.max_memory);
  total_fees_satoshis = int (pos x.total_fees_satoshis);
}

pub mempool_summary-args : (x : MempoolSummary) → mempool_summary (args x) ≡ ok x
unfolding mempool_summary
mempool_summary-args x = ground arith
