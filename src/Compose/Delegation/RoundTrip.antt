-- ===== src/Compose/Delegation/RoundTrip.antt =====
-- From a snapshot in the container, through what it prints, to the snapshot on the host.
use bitheim.Prelude.{◌≤◌, String, ◌≡◌, refl, ap, arith, le→leb}
use bitheim.Prelude.Int.{pos}
use bitheim.Prelude.Text.{utf8_len, strip}
use bitheim.Errors.{Result, ok, ◌>>=◌}
use bitheim.Value.{Value, obj, Fields}
use bitheim.Value.Depth.{check_json_depth_iff}
use bitheim.Compose.Docker.{Completed, Loaded, loaded}
use bitheim.Compose.Delegation.{loads_unique, delegated_output, delegated_result, max_output_size}
use bitheim.Compose.Delegation.Snapshots.{
  Snapshot, overview_snapshot, block_snapshot, mempool_snapshot, peers_snapshot, IsSnapshot,
  payload, IsReadable, payload-IsReadable,
}
use bitheim.Compose.Parse.{parse_overview, parse_block_summary, parse_mempool_summary, parse_peers}
use bitheim.Compose.Parse.RoundTrip.{
  parse_overview-to_dict, parse_block_summary-to_dict, parse_mempool_summary-to_dict,
  parse_peers-to_dict,
}

-- the reading that the inspection of the same kind does at its end
abbrev pub parse_like : Snapshot → Fields → Result Snapshot
parse_like (overview_snapshot _) m = parse_overview m >>= λ o. ok (overview_snapshot o)
parse_like (block_snapshot _) m = parse_block_summary m >>= λ b. ok (block_snapshot b)
parse_like (mempool_snapshot _) m = parse_mempool_summary m >>= λ s. ok (mempool_snapshot s)
parse_like (peers_snapshot _) m = parse_peers m >>= λ ps. ok (peers_snapshot ps)

parsed_payload : (x : Snapshot) → IsSnapshot x → parse_like x (payload x) ≡ ok x
parsed_payload (overview_snapshot o) v =
    ap (λ r. r >>= λ o. ok (overview_snapshot o)) (parse_overview-to_dict o v)
parsed_payload (block_snapshot b) v =
    ap (λ r. r >>= λ b. ok (block_snapshot b)) (parse_block_summary-to_dict b v)
parsed_payload (mempool_snapshot m) v =
    ap (λ r. r >>= λ s. ok (mempool_snapshot s)) (parse_mempool_summary-to_dict m)
parsed_payload (peers_snapshot ps) (v, a, h) =
    ap (λ r. r >>= λ ps. ok (peers_snapshot ps)) (parse_peers-to_dict ps v a h)

module _ (loads : String → Loaded) where
  -- The process has ended well and has printed the value, in at most 65536 bytes.
  pub record Printed (c : Completed) (v : Value) : Type 0 where
    pub ended : c.returncode ≡ pos 0
    pub small : utf8_len c.stdout ≤ max_output_size
    pub read : loads (strip c.stdout) ≡ loaded v

  -- The host reads the snapshot from what the process has printed.
  abbrev pub ReadBack : Completed → Snapshot → Type 0
  ReadBack c x = (delegated_result loads c >>= parse_like x) ≡ ok x

  output_read :
      (out : String) (m : Fields)
      → IsReadable m
      → utf8_len out ≤ max_output_size
      → loads (strip out) ≡ loaded (obj m)
      → delegated_output loads out ≡ ok m
  unfolding delegated_output loads_unique
  output_read out m (b, n) small read =
      rw
        (
          le→leb (utf8_len out) max_output_size small,
          read,
          b,
          (check_json_depth_iff (obj m)).1 (omega (arith, n)),
        )
        refl

  result_read :
      (c : Completed) (m : Fields)
      → IsReadable m
      → Printed c (obj m)
      → delegated_result loads c ≡ ok m
  unfolding delegated_result
  result_read c m r p = rw p.ended (output_read c.stdout m r p.small p.read)

  -- If the container prints the payload of a snapshot that has passed its checks, at most 256 peers in ascending order
  -- among them, in at most 65536 bytes that `json.loads` reads back, the host reads that very snapshot: an inspection
  -- on the host gives what the client in the container has given.
  pub delegated_result-Snapshot :
      (x : Snapshot) (c : Completed)
      → IsSnapshot x
      → Printed c (obj (payload x))
      → (delegated_result loads c >>= parse_like x) ≡ ok x
  delegated_result-Snapshot x c v p =
      rw (result_read c (payload x) (payload-IsReadable x) p) (parsed_payload x v)
