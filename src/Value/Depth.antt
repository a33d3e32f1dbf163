-- ===== src/Value/Depth.antt =====
-- `_check_json_depth` of infrastructure/bitcoin/rpc_client.py and of infrastructure/compose/adapter.py.
use bitheim.Prelude.{
  ℕ, suc, ◌+◌, ◌≤◌, max, ◌≡◌, refl, ◌↔◌, arith, inl, inr, leb, Bool-cases, leb→le, not_le_of_leb,
}
use bitheim.Errors.{Exc, Result, ok, err, rpc_malformed_response, require, ◌>>◌}
use bitheim.Value.{Value, arr, obj, Items, nil, cons, Fields, end, field}

abbrev pub max_json_depth : ℕ
max_json_depth = 32

unfoldable mutual
  pub check_json_depth : ℕ → Value → Result (Unit {0})
  check_json_depth depth (obj m) =
      require (leb depth max_json_depth) rpc_malformed_response >> check_fields (depth + 1) m
  check_json_depth depth (arr vs) =
      require (leb depth max_json_depth) rpc_malformed_response >> check_items (depth + 1) vs
  check_json_depth depth _ = require (leb depth max_json_depth) rpc_malformed_response

  pub check_items : ℕ → Items → Result (Unit {0})
  check_items depth nil = ok tt
  check_items depth (cons v vs) = check_json_depth depth v >> check_items depth vs

  pub check_fields : ℕ → Fields → Result (Unit {0})
  check_fields depth end = ok tt
  check_fields depth (field k v m) = check_json_depth depth v >> check_fields depth m

-- How deep a value is nested: a scalar, an empty list and an empty object have depth 1.
unfoldable mutual
  pub nesting : Value → ℕ
  nesting (obj m) = suc (nesting_fields m)
  nesting (arr vs) = suc (nesting_items vs)
  nesting _ = 1

  pub nesting_items : Items → ℕ
  nesting_items nil = 0
  nesting_items (cons v vs) = max (nesting v) (nesting_items vs)

  pub nesting_fields : Fields → ℕ
  nesting_fields end = 0
  nesting_fields (field k v m) = max (nesting v) (nesting_fields m)

-- a guard on the depth in front of the checks one level deeper
guarded :
    (d n : ℕ) (inner : Result (Unit {0}))
    → (d ≤ 32 → (inner ≡ ok tt) ↔ (d + 1 + n ≤ 33))
    → ((require (leb d max_json_depth) rpc_malformed_response >> inner) ≡ ok tt) ↔ (d + suc n ≤ 33)
guarded d n inner h = elim (Bool-cases (leb d max_json_depth)) [
  | inl small ↦
      let (to, from) = h (leb→le d 32 small) in
      rw small (λ e. omega (arith, to e), λ le. from (omega arith))
  | inr big ↦ rw big (λ e. cc, λ le. absurd (not_le_of_leb d 32 big (omega arith)))
]

-- two checks in a row
in_turn :
    (d m n : ℕ) (first rest : Result (Unit {0}))
    → (first ≡ ok tt) ↔ (d + m ≤ 33)
    → (rest ≡ ok tt) ↔ (d + n ≤ 33)
    → ((first >> rest) ≡ ok tt) ↔ (d + max m n ≤ 33)
in_turn d m n (ok tt) rest a b = (λ e. omega (arith, a.0 refl, b.0 e), λ le. b.1 (omega arith))
in_turn d m n (err x) rest a b = (λ e. cc, λ le. cc (a.1 (omega arith)))

mutual
  unfolding check_json_depth nesting

  check_value : (d : ℕ) (v : Value) → (check_json_depth d v ≡ ok tt) ↔ (d + nesting v ≤ 33)
  check_value d (obj m) =
      guarded d (nesting_fields m) (check_fields (d + 1) m)
        (λ h. check_field_values (d + 1) m (omega arith))
  check_value d (arr vs) =
      guarded d (nesting_items vs) (check_items (d + 1) vs)
        (λ h. check_values (d + 1) vs (omega arith))
  check_value d _ = ground arith

  check_values :
      (d : ℕ) (vs : Items) → d ≤ 33 → (check_items d vs ≡ ok tt) ↔ (d + nesting_items vs ≤ 33)
  check_values d nil h = ground arith
  check_values d (cons v vs) h =
      in_turn d (nesting v) (nesting_items vs) _ _ (check_value d v) (check_values d vs h)

  check_field_values :
      (d : ℕ) (m : Fields) → d ≤ 33 → (check_fields d m ≡ ok tt) ↔ (d + nesting_fields m ≤ 33)
  check_field_values d end h = ground arith
  check_field_values d (field k v m) h =
      in_turn d (nesting v) (nesting_fields m) _ _ (check_value d v) (check_field_values d m h)

-- The depth check, entered at depth 1 as the callers do, passes exactly the values that are nested at most 32 deep.
pub check_json_depth_iff :
    (v : Value) → (check_json_depth 1 v ≡ ok tt) ↔ (nesting v ≤ max_json_depth)
check_json_depth_iff v = ground (arith, check_value 1 v)

guard_errors :
    (d : ℕ) (inner : Result (Unit {0})) (e : Exc)
    → (inner ≡ err e → e ≡ rpc_malformed_response)
    → (require (leb d max_json_depth) rpc_malformed_response >> inner) ≡ err e
    → e ≡ rpc_malformed_response
guard_errors d inner e k h = ground arith

turn_errors :
    (first rest : Result (Unit {0})) (e : Exc)
    → (first ≡ err e → e ≡ rpc_malformed_response)
    → (rest ≡ err e → e ≡ rpc_malformed_response)
    → (first >> rest) ≡ err e
    → e ≡ rpc_malformed_response
turn_errors first rest e a b h = ground arith

mutual
  unfolding check_json_depth

  -- What the depth check raises is `RpcMalformedResponseError`.
  pub check_json_depth_errors :
      (d : ℕ) (v : Value) (e : Exc) → check_json_depth d v ≡ err e → e ≡ rpc_malformed_response
  check_json_depth_errors d (obj m) e h = guard_errors d _ e (check_fields_errors (d + 1) m e) h
  check_json_depth_errors d (arr vs) e h = guard_errors d _ e (check_items_errors (d + 1) vs e) h
  check_json_depth_errors d _ e h = ground arith

  check_items_errors :
      (d : ℕ) (vs : Items) (e : Exc) → check_items d vs ≡ err e → e ≡ rpc_malformed_response
  check_items_errors d nil e h = cc
  check_items_errors d (cons v vs) e h =
      turn_errors _ _ e (check_json_depth_errors d v e) (check_items_errors d vs e) h

  check_fields_errors :
      (d : ℕ) (m : Fields) (e : Exc) → check_fields d m ≡ err e → e ≡ rpc_malformed_response
  check_fields_errors d end e h = cc
  check_fields_errors d (field k v m) e h =
      turn_errors _ _ e (check_json_depth_errors d v e) (check_fields_errors d m e) h
