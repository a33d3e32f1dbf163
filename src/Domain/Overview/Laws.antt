-- ===== src/Domain/Overview/Laws.antt =====
-- The constructor of `NodeOverview` accepts exactly the snapshots that are valid.
use bitheim.Prelude.{
  ℕ, Bool, Bool-cases, inl, inr, true, Option, none, some, String, ◌≡◌, arith, ◌==◌, string_eq,
}
use bitheim.Prelude.Int.{pos}
use mathlib.Core.Path.{subst}
use bitheim.Errors.{ok, value_error, or_raise, >>=-eq-ok, ok-injective}
use bitheim.Value.{Value, nonneg, as_bool, text_where, optional, int, str, bool, value_or_null}
use bitheim.Domain.Overview.{
  is_regtest, expected, NodeOverview, OverviewArgs, short_printable, lower_hex_64, node_overview,
}

abbrev pub OptionHash : Option String → Type 0
OptionHash none = Unit
OptionHash (some s) = lower_hex_64 s ≡ true

pub record IsValid (x : NodeOverview) : Type 0 where
  pub version : x.version ≡ 310100
  pub chain : (x.chain == "regtest") ≡ true
  pub subversion : short_printable x.subversion ≡ true
  pub best_block_hash : lower_hex_64 x.best_block_hash ≡ true
  pub chainwork : OptionHash x.chainwork

-- the arguments that make the snapshot
abbrev pub args : NodeOverview → OverviewArgs
args x = record {
  version = int (pos x.version);
  subversion = str x.subversion;
  network_active = bool x.network_active;
  connections = int (pos x.connections);
  chain = str x.chain;
  blocks = int (pos x.blocks);
  headers = int (pos x.headers);
  best_block_hash = str x.best_block_hash;
  median_time = int (pos x.median_time);
  initial_block_download = bool x.initial_block_download;
  pruned = bool x.pruned;
  chainwork = value_or_null str x.chainwork;
}

pub node_overview-args : (x : NodeOverview) → IsValid x → node_overview (args x) ≡ ok x
unfolding node_overview
node_overview-args x v = ground arith

-- the texts and numbers that pass the tests
text_where-holds :
    (p : String → Bool) (v : Value) (s : String)
    → or_raise (text_where p v) value_error ≡ ok s
    → p s ≡ true
text_where-holds p (str t) s h = elim (Bool-cases (p t)) [
  | inl e ↦ ground arith
  | inr e ↦ ground arith
]
text_where-holds p _ s h = ground arith

optional-OptionHash :
    (v : Value) (o : Option String)
    → or_raise (optional (text_where lower_hex_64) v) value_error ≡ ok o
    → OptionHash o
optional-OptionHash v o h = ground arith

expected-version : (o : Option ℕ) (n : ℕ) → or_raise (expected o) value_error ≡ ok n → n ≡ 310100
expected-version o n h = ground arith

-- A snapshot that the constructor accepts is valid.
pub node_overview-IsValid :
    (a : OverviewArgs) (x : NodeOverview) → node_overview a ≡ ok x → IsValid x
unfolding node_overview
node_overview-IsValid a x h =
    let (version, version_eq, h0) =
      >>=-eq-ok (or_raise (expected (nonneg a.version)) value_error) _ h in
    let (subversion, subversion_eq, h1) =
      >>=-eq-ok (or_raise (text_where short_printable a.subversion) value_error) _ h0 in
    let (active, _, h2) = >>=-eq-ok (or_raise (as_bool a.network_active) value_error) _ h1 in
    let (connections, _, h3) = >>=-eq-ok (or_raise (nonneg a.connections) value_error) _ h2 in
    let (chain, chain_eq, h4) =
      >>=-eq-ok (or_raise (text_where is_regtest a.chain) value_error) _ h3 in
    let (blocks, _, h5) = >>=-eq-ok (or_raise (nonneg a.blocks) value_error) _ h4 in
    let (headers, _, h6) = >>=-eq-ok (or_raise (nonneg a.headers) value_error) _ h5 in
    let (hash, hash_eq, h7) =
      >>=-eq-ok (or_raise (text_where lower_hex_64 a.best_block_hash) value_error) _ h6 in
    let (time, _, h8) = >>=-eq-ok (or_raise (nonneg a.median_time) value_error) _ h7 in
    let (download, _, h9) =
      >>=-eq-ok (or_raise (as_bool a.initial_block_download) value_error) _ h8 in
    let (pruned, _, h10) = >>=-eq-ok (or_raise (as_bool a.pruned) value_error) _ h9 in
    let (chainwork, chainwork_eq, h11) =
      >>=-eq-ok (or_raise (optional (text_where lower_hex_64) a.chainwork) value_error) _ h10 in
    subst IsValid (ok-injective h11) (record {
      version = expected-version (nonneg a.version) version version_eq;
      chain = text_where-holds is_regtest a.chain chain chain_eq;
      subversion = text_where-holds short_printable a.subversion subversion subversion_eq;
      best_block_hash = text_where-holds lower_hex_64 a.best_block_hash hash hash_eq;
      chainwork = optional-OptionHash a.chainwork chainwork chainwork_eq;
    })
