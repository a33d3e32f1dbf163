-- ===== src/Tests/Delegation.antt =====
-- What a host reads of two peers that a container has printed.
use bitheim.Prelude.{◌≤◌, String, [], ◌∷◌, ◌≡◌, refl, arith}
use bitheim.Prelude.Int.{pos}
use bitheim.Prelude.Text.{utf8_len}
use bitheim.Errors.{ok, ◌>>=◌}
use bitheim.Value.{obj}
use bitheim.Compose.Docker.{Completed, Loaded, loaded}
use bitheim.Compose.Delegation.{delegated_result, max_output_size}
use bitheim.Compose.Delegation.Snapshots.{Snapshot, peers_snapshot, payload}
use bitheim.Compose.Delegation.RoundTrip.{parse_like, Printed, delegated_result-Snapshot}
use bitheim.Tests.{peer, second_peer, peer-IsValid, second_peer-IsValid}

abbrev two_peers : Snapshot
two_peers = peers_snapshot (peer ∷ second_peer ∷ [])

abbrev two_peers_loads : String → Loaded
two_peers_loads s = loaded (obj (payload two_peers))

abbrev two_peers_printed : Completed
two_peers_printed = record { returncode = pos 0; stdout = "PEERS"; stderr = "" }

two_peers_small : utf8_len "PEERS" ≤ max_output_size
two_peers_small = omega arith

two_peers-Printed : Printed two_peers_loads two_peers_printed (obj (payload two_peers))
two_peers-Printed = record { ended = refl; small = two_peers_small; read = refl }

delegated_result-Snapshot_example :
    (delegated_result two_peers_loads two_peers_printed >>= parse_like two_peers) ≡ ok two_peers
delegated_result-Snapshot_example =
    delegated_result-Snapshot two_peers_loads two_peers two_peers_printed
      ((peer-IsValid, (second_peer-IsValid, tt)), ((omega arith, tt), (tt, tt)), omega arith)
      two_peers-Printed
