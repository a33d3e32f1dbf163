-- ===== src/Tests.antt =====
-- Concrete data for the tests: snapshots, and runs of the theorems on them.
mod Pure
mod Reading
mod Answer
mod Cli
mod Client
mod Service
mod Compose
mod Delegation
mod Configuration
mod Logging
mod OnHost
use bitheim.Prelude.{String, List, [], ◌∷◌, Option, none, some, true, false, refl}
use bitheim.Prelude.Int.{pos}
use bitheim.Value.{finite}
use bitheim.Domain.Overview
use bitheim.Domain.Overview.{NodeOverview, short_printable, lower_hex_64}
use bitheim.Domain.Block
use bitheim.Domain.Block.{BlockSummary, hex_64}
use bitheim.Domain.Mempool.{MempoolSummary}
use bitheim.Domain.Peer
use bitheim.Domain.Peer.{PeerSummary}

abbrev pub hash : String
hash = "00000000000000000000000000000000000000000000000000000000000000af"

abbrev pub upper_hash : String
upper_hash = "00000000000000000000000000000000000000000000000000000000000000AF"

abbrev pub overview : NodeOverview
overview = record {
  version = 310100;
  subversion = "/Satoshi:31.1.0/";
  network_active = true;
  connections = 2;
  chain = "regtest";
  blocks = 7;
  headers = 7;
  best_block_hash = hash;
  median_time = 1700000000;
  initial_block_download = false;
  pruned = false;
  chainwork = some hash;
}

pub overview-IsValid : Overview.Laws.IsValid overview
unfolding short_printable lower_hex_64
overview-IsValid = record {
  version = refl;
  chain = refl;
  subversion = refl;
  best_block_hash = refl;
  chainwork = refl;
}

abbrev pub block : BlockSummary
block = record {
  hash = hash;
  height = 7;
  confirmations = 1;
  timestamp = 1700000000;
  transaction_count = 1;
  size = 250;
  weight = 1000;
  previous_block_hash = some hash;
  next_block_hash = none;
}

pub block-IsValid : Block.Laws.IsValid block
unfolding hex_64
block-IsValid = record { hash = refl; previous = refl; next = tt }

abbrev pub mempool : MempoolSummary
mempool = record {
  loaded = true;
  transaction_count = 3;
  serialized_bytes = 900;
  dynamic_memory_usage = 4096;
  max_memory = 300000000;
  total_fees_satoshis = 1500;
}

abbrev pub peer : PeerSummary
peer = record {
  peer_id = 1;
  endpoint = "10.0.0.2:18444";
  network = "ipv4";
  inbound = false;
  connection_type = "manual";
  protocol_version = 70016;
  subversion = "/Satoshi:31.1.0/";
  synced_headers = some 7;
  synced_blocks = none;
  ping_time_seconds = some (finite (pos 1200));
}

abbrev pub second_peer : PeerSummary
second_peer = record peer { peer_id = 4 }

pub peer-IsValid : Peer.Laws.IsValid peer
unfolding short_printable
peer-IsValid = record {
  endpoint = refl;
  network = refl;
  connection_type = refl;
  subversion = refl;
  ping = tt;
}

pub second_peer-IsValid : Peer.Laws.IsValid second_peer
unfolding short_printable
second_peer-IsValid = record {
  endpoint = refl;
  network = refl;
  connection_type = refl;
  subversion = refl;
  ping = tt;
}
