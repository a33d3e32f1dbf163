-- ===== src/Cli/Lines.antt =====
-- interfaces/cli.py: the lines that the commands write for a reader, one for each `sys.stdout.write`. `show` is Python's
-- `str` on all but texts.
use Prim.Native.String.{◌++◌ as append}
use bitheim.Prelude.{ℕ, zero, String, Bool, true, false, Option, none, some, List, [], ◌∷◌, ◌++◌}
use bitheim.Prelude.Int.{ℤ, pos}
use bitheim.Value.{Value, int, str, bool, float, value_or_null}
use bitheim.Domain.Node.{state_text, Status}
use bitheim.Domain.Overview.{NodeOverview}
use bitheim.Domain.Block.{BlockSummary}
use bitheim.Domain.Mempool.{MempoolSummary}
use bitheim.Domain.Peer.{PeerSummary, count_value}
use bitheim.Compose.Docker.{shown}

-- a label, a value and the end of the line
abbrev line : String → String → String
line label s = append label (append s "\n")

-- `'true' if b else 'false'`
abbrev truth : Bool → String
truth true = "true"
truth false = "false"

module _ (show : Value → String) where
  abbrev number : ℕ → String
  number n = shown show (int (pos n))

  -- `f", chain: {chain}" if chain else ""`
  abbrev chain_info : Option String → String
  chain_info none = ""
  chain_info (some String.[]) = ""
  chain_info (some s) = append ", chain: " s

  -- `f", version: {version}" if version else ""`
  abbrev version_info : Option ℤ → String
  version_info none = ""
  version_info (some (pos zero)) = ""
  version_info (some n) = append ", version: " (shown show (int n))

  unfoldable pub started_lines : Status → List String
  started_lines s =
      append "[✓] Node '" (
        append s.node_id (
          append "' started and healthy"
            (append (chain_info s.health.chain) (append (version_info s.health.version) "\n"))))
      ∷ []

  unfoldable pub stopped_lines : Status → List String
  stopped_lines s = append "[✓] Node '" (append s.node_id "' stopped\n") ∷ []

  -- `if s: sys.stdout.write(f"{label}{s}\n")`
  abbrev text_line : String → Option String → List String
  text_line label none = []
  text_line label (some String.[]) = []
  text_line label (some s) = line label s ∷ []

  -- `if n: sys.stdout.write(f"{label}{n}\n")`
  abbrev number_line : String → Option ℤ → List String
  number_line label none = []
  number_line label (some (pos zero)) = []
  number_line label (some n) = line label (shown show (int n)) ∷ []

  -- `if n is not None: sys.stdout.write(f"{label}{n}\n")`
  abbrev count_line : String → Option ℤ → List String
  count_line label none = []
  count_line label (some n) = line label (shown show (int n)) ∷ []

  unfoldable pub status_lines : Status → List String
  status_lines s =
      line "Node ID:  " s.node_id
        ∷ line "State:    " (state_text s.state)
        ∷ text_line "Chain:    " s.health.chain
      ++ (number_line "Version:  " s.health.version
          ++ (count_line "Blocks:   " s.health.blocks ++ text_line "Details:  " s.health.details))

  abbrev chainwork_line : Option String → List String
  chainwork_line none = []
  chainwork_line (some s) = line "Chainwork:              " s ∷ []

  unfoldable pub overview_lines : NodeOverview → List String
  overview_lines o =
      line "Chain:                  " o.chain
      ∷ line "Version:                "
          (append (number o.version) (append " (" (append o.subversion ")")))
      ∷ line "Network Active:         " (truth o.network_active)
      ∷ line "Connections:            " (number o.connections)
      ∷ line "Blocks:                 " (number o.blocks)
      ∷ line "Headers:                " (number o.headers)
      ∷ line "Best Block Hash:        " o.best_block_hash
      ∷ line "Median Time:            " (number o.median_time)
      ∷ line "Initial Block Download: " (truth o.initial_block_download)
      ∷ line "Pruned:                 " (truth o.pruned)
      ∷ chainwork_line o.chainwork

  unfoldable pub block_lines : BlockSummary → List String
  block_lines b =
      line "Hash:                   " b.hash
      ∷ line "Height:                 " (number b.height)
      ∷ line "Confirmations:          " (number b.confirmations)
      ∷ line "Timestamp:              " (number b.timestamp)
      ∷ line "Transactions:           " (number b.transaction_count)
      ∷ line "Size (bytes):           " (number b.size)
      ∷ line "Weight (wu):            " (number b.weight)
      ∷ line "Previous Block Hash:    " (shown show (value_or_null str b.previous_block_hash))
      ∷ line "Next Block Hash:        " (shown show (value_or_null str b.next_block_hash))
      ∷ []

  unfoldable pub mempool_lines : MempoolSummary → List String
  mempool_lines m =
      line "Loaded:                 " (shown show (bool m.loaded))
      ∷ line "Transactions:           " (number m.transaction_count)
      ∷ line "Serialized size:        " (number m.serialized_bytes)
      ∷ line "Dynamic memory usage:   " (number m.dynamic_memory_usage)
      ∷ line "Max memory:             " (number m.max_memory)
      ∷ line "Total fees (sats):      " (number m.total_fees_satoshis)
      ∷ []

  -- the lines of one peer
  abbrev peer_lines : PeerSummary → List String
  peer_lines p =
      append "Peer " (
        append (number p.peer_id)
          (append " [" (append p.connection_type (append "]: " (append p.endpoint "\n")))))
      ∷ line "  Network:          " p.network
      ∷ line "  Inbound:          " (shown show (bool p.inbound))
      ∷ line "  Version:          " (number p.protocol_version)
      ∷ line "  Subversion:       " p.subversion
      ∷ line "  Synced headers:   " (shown show (value_or_null count_value p.synced_headers))
      ∷ line "  Synced blocks:    " (shown show (value_or_null count_value p.synced_blocks))
      ∷ line "  Ping (s):         " (shown show (value_or_null float p.ping_time_seconds))
      ∷ "\n"
      ∷ []

  unfoldable pub peers_lines : List PeerSummary → List String
  peers_lines [] = []
  peers_lines (p ∷ ps) = peer_lines p ++ peers_lines ps
