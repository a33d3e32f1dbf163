-- ===== src/Compose/Delegation/Snapshots.antt =====
-- The four snapshots that a container prints for a host, and the payloads they are printed as.
use bitheim.Prelude.{
  ℕ, ◌≤◌, String, List, [], ◌∷◌, Option, none, some, map, length, All, ◌≡◌, refl, arith,
}
use bitheim.Errors.{ok}
use bitheim.Value.{Value, float, str, arr, obj, Fields, end, field, of_list, value_or_null, Float}
use bitheim.Value.Keys.{
  build, build_items, build_fields, NodupKeys, has, reject_duplicate_keys, reject_from, put_last,
  reject_duplicate_keys_iff,
}
use bitheim.Value.Depth.{nesting, nesting_items, nesting_fields}
use bitheim.Domain.Overview
use bitheim.Domain.Overview.{NodeOverview}
use bitheim.Domain.Block
use bitheim.Domain.Block.{BlockSummary}
use bitheim.Domain.Mempool
use bitheim.Domain.Mempool.{MempoolSummary}
use bitheim.Domain.Peer
use bitheim.Domain.Peer.{PeerSummary}
use bitheim.Peers.Order.{Ascending}
use bitheim.Compose.Parse.RoundTrip.{peers_payload}

-- what an inspection gives
pub data Snapshot : Type 0 where
  overview_snapshot : NodeOverview → Snapshot
  block_snapshot : BlockSummary → Snapshot
  mempool_snapshot : MempoolSummary → Snapshot
  peers_snapshot : List PeerSummary → Snapshot

-- what the container's own checks have made sure of
abbrev pub IsSnapshot : Snapshot → Type 0
IsSnapshot (overview_snapshot o) = Overview.Laws.IsValid o
IsSnapshot (block_snapshot b) = Block.Laws.IsValid b
IsSnapshot (mempool_snapshot m) = Unit
IsSnapshot (peers_snapshot ps) = All Peer.Laws.IsValid ps × Ascending ps × (length ps ≤ 256)

-- the dict that `json.dumps` is given, whose keys stand in order
abbrev pub payload : Snapshot → Fields
payload (overview_snapshot o) = Overview.to_dict o
payload (block_snapshot b) = Block.to_dict b
payload (mempool_snapshot m) = Mempool.to_dict m
payload (peers_snapshot ps) = peers_payload ps

-- neither a list nor a dict
abbrev IsScalar : Value → Type 0
IsScalar (arr vs) = ⊥
IsScalar (obj m) = ⊥
IsScalar _ = Unit

abbrev IsFlat : Fields → Type 0
IsFlat end = Unit
IsFlat (field k v m) = IsScalar v × IsFlat m

build_scalar : (v : Value) → IsScalar v → build v ≡ ok v
unfolding build
build_scalar (arr vs) h = absurd h
build_scalar (obj m) h = absurd h
build_scalar _ h = refl

build_flat : (m : Fields) → IsFlat m → build_fields m ≡ ok m
unfolding build_fields
build_flat end h = refl
build_flat (field k v m) (s, h) = rw (build_scalar v s, build_flat m h) refl

-- a flat dict without repeated keys is what the hook makes of it
build_dict : (m : Fields) → IsFlat m → NodupKeys m → build (obj m) ≡ ok (obj m)
unfolding build
build_dict m f n = rw (build_flat m f, (reject_duplicate_keys_iff m m).1 (n, refl)) refl

scalar_depth : (v : Value) → IsScalar v → nesting v ≡ 1
unfolding nesting
scalar_depth (arr vs) h = absurd h
scalar_depth (obj m) h = absurd h
scalar_depth _ h = refl

flat_depth : (m : Fields) → IsFlat m → nesting_fields m ≤ 1
unfolding nesting_fields
flat_depth end h = omega arith
flat_depth (field k v m) (s, h) = omega (arith, scalar_depth v s, flat_depth m h)

text-IsScalar : (o : Option String) → IsScalar (value_or_null str o)
text-IsScalar none = tt
text-IsScalar (some s) = tt

count-IsScalar : (o : Option ℕ) → IsScalar (value_or_null Peer.count_value o)
count-IsScalar none = tt
count-IsScalar (some n) = tt

float-IsScalar : (o : Option Float) → IsScalar (value_or_null float o)
float-IsScalar none = tt
float-IsScalar (some x) = tt

abbrev Plain : Fields → Type 0
Plain m = IsFlat m × NodupKeys m

peer-Plain : (p : PeerSummary) → Plain (Peer.to_dict p)
unfolding Peer.to_dict has
peer-Plain p = (
  (
    tt,
    (
      tt,
      (
        tt,
        (
          tt,
          (
            tt,
            (
              float-IsScalar p.ping_time_seconds,
              (tt, (tt, (count-IsScalar p.synced_blocks, (count-IsScalar p.synced_headers, tt)))),
            ),
          ),
        ),
      ),
    ),
  ),
  (refl, (refl, (refl, (refl, (refl, (refl, (refl, (refl, (refl, (refl, tt)))))))))),
)

overview-Plain : (o : NodeOverview) → Plain (Overview.to_dict o)
unfolding Overview.to_dict has
overview-Plain o = (
  (tt, (tt, (tt, (text-IsScalar o.chainwork, (tt, (tt, (tt, (tt, (tt, (tt, (tt, (tt, tt)))))))))))),
  (
    refl,
    (refl, (refl, (refl, (refl, (refl, (refl, (refl, (refl, (refl, (refl, (refl, tt))))))))))),
  ),
)

block-Plain : (b : BlockSummary) → Plain (Block.to_dict b)
unfolding Block.to_dict has
block-Plain b = (
  (
    tt,
    (
      tt,
      (
        tt,
        (
          text-IsScalar b.next_block_hash,
          (text-IsScalar b.previous_block_hash, (tt, (tt, (tt, (tt, tt))))),
        ),
      ),
    ),
  ),
  (refl, (refl, (refl, (refl, (refl, (refl, (refl, (refl, (refl, tt))))))))),
)

mempool-Plain : (m : MempoolSummary) → Plain (Mempool.to_dict m)
unfolding Mempool.to_dict has
mempool-Plain m =
    ((tt, (tt, (tt, (tt, (tt, (tt, tt)))))), (refl, (refl, (refl, (refl, (refl, (refl, tt)))))))

-- what reading a payload needs of it: the hook leaves it as it is, and it is not nested too deep
abbrev pub IsReadable : Fields → Type 0
IsReadable m = (build (obj m) ≡ ok (obj m)) × (nesting (obj m) ≤ 4)

Plain-IsReadable : (m : Fields) → Plain m → IsReadable m
unfolding nesting
Plain-IsReadable m (f, n) = (build_dict m f n, omega (arith, flat_depth m f))

abbrev dict_of : PeerSummary → Value
dict_of p = obj (Peer.to_dict p)

build_peers :
    (ps : List PeerSummary) → build_items (of_list (map dict_of ps)) ≡ ok (of_list (map dict_of ps))
unfolding build_items
build_peers [] = refl
build_peers (p ∷ ps) =
    let (f, n) = peer-Plain p in rw (build_dict (Peer.to_dict p) f n, build_peers ps) refl

peers_depth : (ps : List PeerSummary) → nesting_items (of_list (map dict_of ps)) ≤ 2
unfolding nesting_items nesting
peers_depth [] = omega arith
peers_depth (p ∷ ps) =
    let (f, n) = peer-Plain p in omega (arith, flat_depth (Peer.to_dict p) f, peers_depth ps)

peers-IsReadable : (ps : List PeerSummary) → IsReadable (peers_payload ps)
unfolding build nesting has reject_duplicate_keys reject_from put_last
peers-IsReadable ps = (rw (build_peers ps) refl, omega (arith, peers_depth ps))

pub payload-IsReadable : (x : Snapshot) → IsReadable (payload x)
payload-IsReadable (overview_snapshot o) = Plain-IsReadable (Overview.to_dict o) (overview-Plain o)
payload-IsReadable (block_snapshot b) = Plain-IsReadable (Block.to_dict b) (block-Plain b)
payload-IsReadable (mempool_snapshot m) = Plain-IsReadable (Mempool.to_dict m) (mempool-Plain m)
payload-IsReadable (peers_snapshot ps) = peers-IsReadable ps
