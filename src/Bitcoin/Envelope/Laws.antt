-- ===== src/Bitcoin/Envelope/Laws.antt =====
-- Which envelopes are accepted.
use bitheim.Prelude.{
  String, true, false, none, some, ◌≡◌, ◌↔◌, ◌⊎◌, ◌≤◌, refl, ap, ◌∙◌, arith, string_eq,
}
use bitheim.Errors.{Exc, ok, err, rpc_malformed_response, rpc_resource_not_found, rpc_protocol}
use bitheim.Value.{Value, str, null, obj, as_obj, Fields, find, is_null}
use bitheim.Value.Depth.{
  check_json_depth, check_json_depth_iff, check_json_depth_errors, nesting, max_json_depth,
}
use bitheim.Bitcoin.Envelope.{envelope, error_member, same_text}

-- A reply to the request: nested at most 32 deep, with the request's id, no error, and a result.
pub record IsReply (req_id : String) (v result : Value) : Type 0 where
  pub members : Fields
  pub is_object : v ≡ obj members
  pub shallow : nesting v ≤ max_json_depth
  pub id : find "id" members ≡ some (str req_id)
  pub no_error : find "error" members ≡ some null
  pub has_result : find "result" members ≡ some result
  pub not_null : is_null result ≡ false

envelope_ok : (req_id : String) (v r : Value) → IsReply req_id v r → envelope req_id v ≡ ok r
unfolding envelope
envelope_ok req_id v r reply =
    ground (arith, check_json_depth_iff v, string_eq.same_iff req_id req_id)

same_text-eq : (v : Value) (s : String) → same_text v s ≡ true → v ≡ str s
same_text-eq (str t) s h = ap str ((string_eq.same_iff t s).0 h)
same_text-eq _ s h = cc

-- the members of an envelope that is accepted
accepted :
    (req_id : String) (m : Fields) (r : Value)
    → envelope req_id (obj m) ≡ ok r
    → (check_json_depth 1 (obj m) ≡ ok tt)
      × (find "error" m ≡ some null)
      × (find "result" m ≡ some r)
      × (is_null r ≡ false)
unfolding envelope error_member
accepted req_id m r h = ground arith

accepted_id :
    (req_id : String) (m : Fields) (r : Value)
    → envelope req_id (obj m) ≡ ok r
    → (id : Value) × (find "id" m ≡ some id) × (same_text id req_id ≡ true)
unfolding envelope error_member
accepted_id req_id m r h = ground arith

not_object : (req_id : String) (v r : Value) → as_obj v ≡ none → envelope req_id v ≡ ok r → ⊥
unfolding envelope
not_object req_id v r none-eq h = ground arith

envelope-IsReply : (req_id : String) (v r : Value) → envelope req_id v ≡ ok r → IsReply req_id v r
envelope-IsReply req_id (obj m) r h =
    let (depth, no_error, result, not_null) = accepted req_id m r h in
    let (id, found, same) = accepted_id req_id m r h in
    record {
      members = m;
      is_object = refl;
      shallow = (check_json_depth_iff (obj m)).0 depth;
      id = found ∙ ap some (same_text-eq id req_id same);
      no_error = no_error;
      has_result = result;
      not_null = not_null;
    }
envelope-IsReply req_id v r h = absurd (not_object req_id v r refl h)

-- An envelope is accepted with a result exactly if it is a reply to the request with this result, as `IsReply` describes
-- it: it has the id of the request, a null error and a result that is not null, and is nested at most 32 deep.
pub envelope_iff : (req_id : String) (v r : Value) → (envelope req_id v ≡ ok r) ↔ IsReply req_id v r
envelope_iff req_id v r = (envelope-IsReply req_id v r, envelope_ok req_id v r)

-- A refused envelope raises `RpcResourceNotFoundError`, `RpcProtocolError` or `RpcMalformedResponseError`.
pub envelope_errors :
    (req_id : String) (v : Value) (e : Exc)
    → envelope req_id v ≡ err e
    → (e ≡ rpc_malformed_response) ⊎ (e ≡ rpc_resource_not_found) ⊎ (e ≡ rpc_protocol)
unfolding envelope error_member
envelope_errors req_id v e h = ground (arith, check_json_depth_errors 1 v e)
