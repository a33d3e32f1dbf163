-- ===== src/Tests/Pure.antt =====
-- The theorems on pure code, at concrete inputs.
use mathlib.Core.List.{Perm}
use bitheim.Prelude.{String, List, [], ◌∷◌, some, true, false, ◌≡◌, ◌↔◌, ◌⊎◌, ◌≤◌, ◌<◌, refl, arith}
use bitheim.Prelude.Int.{pos}
use bitheim.Errors.{Result, ok, err, value_error, rpc_malformed_response}
use bitheim.Value.{
  Value, null, int, str, obj, arr, cons, nil, finite, Fields, end, field, find, as_number,
}
use bitheim.Value.Depth.{check_json_depth, check_json_depth_iff, nesting, max_json_depth}
use bitheim.Value.Keys.{reject_duplicate_keys, reject_duplicate_keys_iff, NodupKeys}
use bitheim.Domain.Overview
use bitheim.Domain.Overview.{lower_hex_64, node_overview, short_printable}
use bitheim.Domain.Block.{block_summary, hex_64}
use bitheim.Domain.Peer.{PeerSummary}
use bitheim.Peers.{parse_all, collect, sort, insert}
use bitheim.Peers.Order.{Ascending}
use bitheim.Peers.Laws.{Parsed, parse_all-inv}
use bitheim.Compose.Parse.{any_hex_64, parse_overview}
use bitheim.Compose.Parse.Escape.{parse_overview_escape}
use bitheim.Service.Guards.{validate_service_node_id, node_id_match, command_deadline, max_deadline}
use bitheim.Service.Guards.Laws.{IsNodeId, validate_service_node_id-IsNodeId, command_deadline_iff}
use bitheim.Bitcoin.Parse.{parse_block}
use bitheim.Bitcoin.Envelope.{envelope}
use bitheim.Bitcoin.Envelope.Laws.{IsReply, envelope_iff}
use bitheim.Bitcoin.Credential.{credential, drop_newline, before_colon, after_colon}
use bitheim.Bitcoin.Credential.Laws.{IsCredential, IsLine, credential-IsCredential}
use bitheim.Prelude.Text.{strip, lstrip, rstrip, is_space}
use bitheim.Tests.{hash, upper_hash, overview, overview-IsValid, block, peer, second_peer}

upper_any : any_hex_64 upper_hash ≡ true
unfolding any_hex_64
upper_any = refl

upper_not_lower : lower_hex_64 upper_hash ≡ false
unfolding lower_hex_64
upper_not_lower = refl

parse_overview_escape_example :
    parse_overview (Overview.to_dict (record overview { best_block_hash = upper_hash }))
    ≡ err value_error
parse_overview_escape_example =
    parse_overview_escape overview upper_hash overview-IsValid upper_any upper_not_lower

-- a parser of peers given as their ids
abbrev by_id : Value → Result PeerSummary
by_id (int (pos n)) = ok (record peer { peer_id = n })
by_id _ = err rpc_malformed_response

two_parsed : parse_all by_id (int (pos 4) ∷ int (pos 1) ∷ []) ≡ ok (peer ∷ second_peer ∷ [])
unfolding parse_all collect sort insert
two_parsed = refl

parse_all-inv_example :
    (qs : List PeerSummary) × Parsed by_id (int (pos 4) ∷ int (pos 1) ∷ []) qs
    × Perm (peer ∷ second_peer ∷ []) qs
    × Ascending (peer ∷ second_peer ∷ [])
parse_all-inv_example =
    parse_all-inv by_id (int (pos 4) ∷ int (pos 1) ∷ []) (peer ∷ second_peer ∷ []) two_parsed

check_json_depth_iff_example :
    (check_json_depth 1 (arr (cons null nil)) ≡ ok tt)
    ↔ (nesting (arr (cons null nil)) ≤ max_json_depth)
check_json_depth_iff_example = check_json_depth_iff (arr (cons null nil))

reject_duplicate_keys_iff_example :
    (reject_duplicate_keys (field "a" null (field "b" null end))
      ≡ ok (field "a" null (field "b" null end)))
    ↔ (NodupKeys (field "a" null (field "b" null end))
        × (field "a" null (field "b" null end) ≡ field "a" null (field "b" null end)))
reject_duplicate_keys_iff_example =
    reject_duplicate_keys_iff (field "a" null (field "b" null end))
      (field "a" null (field "b" null end))

trimmed : validate_service_node_id (str " node-1 ") ≡ ok "node-1"
unfolding validate_service_node_id node_id_match strip lstrip rstrip is_space
trimmed = refl

validate_service_node_id-IsNodeId_example : IsNodeId "node-1"
validate_service_node_id-IsNodeId_example =
    validate_service_node_id-IsNodeId (str " node-1 ") "node-1" trimmed

command_deadline_iff_example : (command_deadline (int (pos 10)) ≡ ok 10000000) ↔ (
    (as_number (int (pos 10)) ≡ some (finite (pos 10000000)))
    × (0 < 10000000)
    × (10000000 ≤ max_deadline))
command_deadline_iff_example = command_deadline_iff (int (pos 10)) 10000000

-- the result of `getblock`, with one transaction
abbrev pub block_data : Fields
block_data = field "hash" (str hash) (
    field "height" (int (pos 7)) (
      field "confirmations" (int (pos 1)) (
        field "time" (int (pos 1700000000)) (
          field "tx" (arr (cons (str hash) nil)) (
            field "size" (int (pos 250))
              (field "weight" (int (pos 1000)) (field "previousblockhash" (str hash) end)))))))

block_parsed : parse_block block_data ≡ ok block
unfolding parse_block block_summary hex_64 find
block_parsed = refl

no_block : parse_block end ≡ err rpc_malformed_response
unfolding parse_block find
no_block = refl

abbrev reply_members : Fields
reply_members =
    field "id" (str "bitheim-req-1") (field "result" (int (pos 5)) (field "error" null end))

reply_read : envelope "bitheim-req-1" (obj reply_members) ≡ ok (int (pos 5))
unfolding envelope check_json_depth find
reply_read = refl

members-IsReply : IsReply "bitheim-req-1" (obj reply_members) (int (pos 5))
unfolding find nesting
members-IsReply = record {
  members = reply_members;
  is_object = refl;
  shallow = omega arith;
  id = refl;
  no_error = refl;
  has_result = refl;
  not_null = refl;
}

envelope_iff_example :
    (envelope "bitheim-req-1" (obj reply_members) ≡ ok (int (pos 5)))
    ↔ IsReply "bitheim-req-1" (obj reply_members) (int (pos 5))
envelope_iff_example = envelope_iff "bitheim-req-1" (obj reply_members) (int (pos 5))

cookie_read : credential "u:p\n" ≡ ok "u:p"
unfolding credential drop_newline before_colon after_colon strip lstrip rstrip is_space
cookie_read = refl

credential-IsCredential_example :
    IsCredential "u:p" × (◌≡◌ {A = String} "u:p\n" "u:p" ⊎ IsLine "u:p\n" "u:p")
credential-IsCredential_example = credential-IsCredential "u:p\n" "u:p" cookie_read
