-- ===== src/Domain/Peer/Laws.antt =====
-- The constructor of `PeerSummary` accepts every valid snapshot unchanged, and gives valid ones only.
use bitheim.Prelude.{true, Option, none, some, ◌≡◌, arith}
use bitheim.Prelude.Int.{pos}
use bitheim.Errors.{ok}
use bitheim.Value.{Float, finite, int, str, bool, float, Value, optional, value_or_null}
use bitheim.Domain.Overview.{short_printable}
use bitheim.Domain.Peer.{
  PeerSummary, PeerArgs, count_value, duration, Texts, peer_texts, peer_summary,
}

abbrev pub OptionDuration : Option Float → Type 0
OptionDuration none = Unit
OptionDuration (some (finite (pos n))) = Unit
OptionDuration (some _) = ⊥

pub record IsValid (x : PeerSummary) : Type 0 where
  pub endpoint : short_printable x.endpoint ≡ true
  pub network : short_printable x.network ≡ true
  pub connection_type : short_printable x.connection_type ≡ true
  pub subversion : short_printable x.subversion ≡ true
  pub ping : OptionDuration x.ping_time_seconds

-- the arguments that make the snapshot
abbrev pub args : PeerSummary → PeerArgs
args x = record {
  peer_id = int (pos x.peer_id);
  endpoint = str x.endpoint;
  network = str x.network;
  inbound = bool x.inbound;
  connection_type = str x.connection_type;
  protocol_version = int (pos x.protocol_version);
  subversion = str x.subversion;
  synced_headers = value_or_null count_value x.synced_headers;
  synced_blocks = value_or_null count_value x.synced_blocks;
  ping_time_seconds = value_or_null float x.ping_time_seconds;
}

pub peer_summary-args : (x : PeerSummary) → IsValid x → peer_summary (args x) ≡ ok x
unfolding peer_summary peer_texts
peer_summary-args x v = ground arith

-- the text fields that were accepted
peer_texts-inv :
    (a : PeerArgs) (t : Texts)
    → peer_texts a ≡ ok t
    → (short_printable t.endpoint ≡ true)
      × (short_printable t.network ≡ true)
      × (short_printable t.connection_type ≡ true)
      × (short_printable t.subversion ≡ true)
      × (a.endpoint ≡ str t.endpoint)
      × (a.network ≡ str t.network)
      × (a.connection_type ≡ str t.connection_type)
      × (a.subversion ≡ str t.subversion)
unfolding peer_texts
peer_texts-inv a t h = ground arith

-- the texts and the ping time of an accepted peer
peer_summary-parts :
    (a : PeerArgs) (x : PeerSummary)
    → peer_summary a ≡ ok x
    → (t : Texts) × (peer_texts a ≡ ok t)
      × (x.endpoint ≡ t.endpoint)
      × (x.network ≡ t.network)
      × (x.connection_type ≡ t.connection_type)
      × (x.subversion ≡ t.subversion)
      × (optional duration a.ping_time_seconds ≡ some x.ping_time_seconds)
unfolding peer_summary
peer_summary-parts a x h = ground arith

optional-duration : (v : Value) (o : Option Float) → optional duration v ≡ some o → OptionDuration o
optional-duration v o h = ground arith

pub peer_summary-IsValid : (a : PeerArgs) (x : PeerSummary) → peer_summary a ≡ ok x → IsValid x
peer_summary-IsValid a x h =
    let (t, texts, p₀, p₁, p₂, p₃, p₄) = peer_summary-parts a x h in
    let inv = peer_texts-inv a t texts in
    ground (arith, optional-duration a.ping_time_seconds x.ping_time_seconds)
