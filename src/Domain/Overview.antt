-- ===== src/Domain/Overview.antt =====
-- domain/node.py: `NodeOverview`.
pub mod Laws
use bitheim.Prelude.{
  ℕ, String, Bool, Option, none, some, ◌&&◌, ◌==◌, nat_eq, string_eq, leb, if◌then◌else◌,
}
use bitheim.Prelude.Int.{pos}
use bitheim.Prelude.Text.{count, utf8_len, all_chars, is_lower_hex, is_printable}
use bitheim.Errors.{Result, ok, value_error, or_raise, ◌>>=◌}
use bitheim.Value.{
  Value, int, str, bool, Fields, end, field, nonneg, text_where, as_bool, optional, value_or_null,
}

pub record NodeOverview : Type 0 where
  pub version : ℕ
  pub subversion : String
  pub network_active : Bool
  pub connections : ℕ
  pub chain : String
  pub blocks : ℕ
  pub headers : ℕ
  pub best_block_hash : String
  pub median_time : ℕ
  pub initial_block_download : Bool
  pub pruned : Bool
  pub chainwork : Option String

-- the arguments of the constructor, whose types are not checked before `__post_init__` runs
pub record OverviewArgs : Type 0 where
  pub version : Value
  pub subversion : Value
  pub network_active : Value
  pub connections : Value
  pub chain : Value
  pub blocks : Value
  pub headers : Value
  pub best_block_hash : Value
  pub median_time : Value
  pub initial_block_download : Value
  pub pruned : Value
  pub chainwork : Value

-- `0 < len(s.encode("utf-8")) <= 512 and all(" " <= c <= "~" for c in s)`
unfoldable pub short_printable : String → Bool
short_printable s = leb 1 (utf8_len s) && leb (utf8_len s) 512 && all_chars is_printable s

-- `len(s) == 64 and all(c in "0123456789abcdef" for c in s)`
unfoldable pub lower_hex_64 : String → Bool
lower_hex_64 s = count s == 64 && all_chars is_lower_hex s

abbrev pub is_regtest : String → Bool
is_regtest s = s == "regtest"

abbrev pub expected : Option ℕ → Option ℕ
expected none = none
expected (some n) = if n == 310100 then some n else none

unfoldable pub node_overview : OverviewArgs → Result NodeOverview
node_overview a = do
  version ← or_raise (expected (nonneg a.version)) value_error
  subversion ← or_raise (text_where short_printable a.subversion) value_error
  network_active ← or_raise (as_bool a.network_active) value_error
  connections ← or_raise (nonneg a.connections) value_error
  chain ← or_raise (text_where is_regtest a.chain) value_error
  blocks ← or_raise (nonneg a.blocks) value_error
  headers ← or_raise (nonneg a.headers) value_error
  best_block_hash ← or_raise (text_where lower_hex_64 a.best_block_hash) value_error
  median_time ← or_raise (nonneg a.median_time) value_error
  download ← or_raise (as_bool a.initial_block_download) value_error
  pruned ← or_raise (as_bool a.pruned) value_error
  chainwork ← or_raise (optional (text_where lower_hex_64) a.chainwork) value_error
  ok (record {
    version = version;
    subversion = subversion;
    network_active = network_active;
    connections = connections;
    chain = chain;
    blocks = blocks;
    headers = headers;
    best_block_hash = best_block_hash;
    median_time = median_time;
    initial_block_download = download;
    pruned = pruned;
    chainwork = chainwork;
  })

-- `NodeOverview.to_dict`
unfoldable pub to_dict : NodeOverview → Fields
to_dict o = field "best_block_hash" (str o.best_block_hash) (
    field "blocks" (int (pos o.blocks)) (
      field "chain" (str o.chain) (
        field "chainwork" (value_or_null str o.chainwork) (
          field "connections" (int (pos o.connections)) (
            field "headers" (int (pos o.headers)) (
              field "initial_block_download" (bool o.initial_block_download) (
                field "median_time" (int (pos o.median_time)) (
                  field "network_active" (bool o.network_active) (
                    field "pruned" (bool o.pruned) (
                      field "subversion" (str o.subversion)
                        (field "version" (int (pos o.version)) end)))))))))))
