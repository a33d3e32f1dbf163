-- ===== src/Value/Keys.antt =====
-- `_reject_duplicate_keys` of infrastructure/bitcoin/rpc_client.py and of infrastructure/compose/adapter.py, the hook
-- that `json.loads` calls on the pairs of every object.
use bitheim.Prelude.{
  String, Bool, false, ◌||◌, ◌≡◌, ◌↔◌, refl, arith, ap, sym, ◌∙◌, if◌then◌else◌, ◌==◌, string_eq,
}
use bitheim.Errors.{Exc, Result, ok, err, >>=-errors, value_error, ◌>>=◌}
use bitheim.Value.{Value, arr, obj, Items, nil, cons, Fields, end, field}

-- `k in d`
unfoldable pub has : String → Fields → Bool
has k end = false
has k (field j v m) = j == k || has k m

-- `d[k] = v` for a key that is not in `d`
unfoldable pub put_last : Fields → String → Value → Fields
put_last end k v = field k v end
put_last (field j w m) k v = field j w (put_last m k v)

-- the loop of `_reject_duplicate_keys` from the pairs it has put into `res`
unfoldable pub reject_from : Fields → Fields → Result Fields
reject_from res end = ok res
reject_from res (field k v m) =
    let rest = reject_from (put_last res k v) m in if has k res then err value_error else rest

unfoldable pub reject_duplicate_keys : Fields → Result Fields
unfolding reject_from
reject_duplicate_keys pairs = reject_from end pairs

-- `json.loads` with the hook: objects are built from the inside out.
unfoldable mutual
  pub build : Value → Result Value
  build (obj m) = do pairs ← build_fields m; d ← reject_duplicate_keys pairs; ok (obj d)
  build (arr vs) = do xs ← build_items vs; ok (arr xs)
  build v = ok v

  pub build_items : Items → Result Items
  build_items nil = ok nil
  build_items (cons v vs) = do x ← build v; xs ← build_items vs; ok (cons x xs)

  pub build_fields : Fields → Result Fields
  build_fields end = ok end
  build_fields (field k v m) = do x ← build v; xs ← build_fields m; ok (field k x xs)

-- Every key occurs once.
abbrev pub NodupKeys : Fields → Type 0
NodupKeys end = Unit
NodupKeys (field k v m) = (has k m ≡ false) × NodupKeys m

-- No key of the second is one of the first.
abbrev Disjoint : Fields → Fields → Type 0
Disjoint d end = Unit
Disjoint d (field k v m) = (has k d ≡ false) × Disjoint d m

abbrev join : Fields → Fields → Fields
join end m = m
join (field k v d) m = field k v (join d m)

has-put_last :
    (j : String) (d : Fields) (k : String) (v : Value)
    → has j (put_last d k v) ≡ (has j d || k == j)
unfolding has put_last
has-put_last j end k v = ground arith
has-put_last j (field i w d) k v = ground (arith, has-put_last j d k v)

join-put_last :
    (d : Fields) (k : String) (v : Value) (m : Fields)
    → join (put_last d k v) m ≡ join d (field k v m)
unfolding put_last
join-put_last end k v m = refl
join-put_last (field j w d) k v m = ap (field j w) (join-put_last d k v m)

join-end : (d : Fields) → join d end ≡ d
join-end end = refl
join-end (field j w d) = ap (field j w) (join-end d)

Disjoint-put_last :
    (d : Fields) (k : String) (v : Value) (m : Fields)
    → Disjoint (put_last d k v) m ↔ (Disjoint d m × (has k m ≡ false))
unfolding has
Disjoint-put_last d k v end = ground arith
Disjoint-put_last d k v (field j w m) = ground (
  arith,
  Disjoint-put_last d k v m,
  has-put_last j d k v,
  string_eq.same_iff j k,
  string_eq.same_iff k j,
)

reject_from_ok : (d m : Fields) → Disjoint d m → NodupKeys m → reject_from d m ≡ ok (join d m)
unfolding reject_from
reject_from_ok d end h n = rw join-end
reject_from_ok d (field k v m) (fresh, h) (new, n) = rw fresh (
    reject_from_ok (put_last d k v) m ((Disjoint-put_last d k v m).1 (h, new)) n
    ∙ ap ok (join-put_last d k v m))

reject_from_inv : (d m r : Fields) → reject_from d m ≡ ok r → Disjoint d m × NodupKeys m
unfolding reject_from
reject_from_inv d end r h = (tt, tt)
reject_from_inv d (field k v m) r h =
    ground (arith, reject_from_inv (put_last d k v) m r, Disjoint-put_last d k v m)

Disjoint-end : (m : Fields) → Disjoint end m
unfolding has
Disjoint-end end = tt
Disjoint-end (field k v m) = (refl, Disjoint-end m)

-- The hook gives a dict exactly when no key of the pairs is repeated, and then the dict holds the pairs in order.
pub reject_duplicate_keys_iff :
    (m r : Fields) → (reject_duplicate_keys m ≡ ok r) ↔ (NodupKeys m × (r ≡ m))
unfolding reject_duplicate_keys
reject_duplicate_keys_iff m r = (
  λ h. ground (arith, reject_from_inv end m r, reject_from_ok end m (Disjoint-end m)),
  λ (n, e). reject_from_ok end m (Disjoint-end m) n ∙ ap ok (sym e),
)

reject_from_errors : (d m : Fields) (e : Exc) → reject_from d m ≡ err e → e ≡ value_error
unfolding reject_from
reject_from_errors d end e h = cc
reject_from_errors d (field k v m) e h = ground (arith, reject_from_errors (put_last d k v) m e)

reject_errors : (m : Fields) (e : Exc) → reject_duplicate_keys m ≡ err e → e ≡ value_error
unfolding reject_duplicate_keys
reject_errors m e h = reject_from_errors end m e h

abbrev IsValueError : Exc → Type 0
IsValueError e = e ≡ value_error

mutual
  unfolding build

  -- What the hook raises inside `json.loads` is a `ValueError`.
  pub build_errors : (v : Value) (e : Exc) → build v ≡ err e → e ≡ value_error
  build_errors (obj m) =
      >>=-errors IsValueError (build_fields m) _ (build_fields_errors m)
        (λ d. >>=-errors IsValueError (reject_duplicate_keys d) _ (reject_errors d) (λ _ e h. cc))
  build_errors (arr vs) =
      >>=-errors IsValueError (build_items vs) _ (build_items_errors vs) (λ _ e h. cc)
  build_errors _ = λ e h. cc

  build_items_errors : (vs : Items) (e : Exc) → build_items vs ≡ err e → e ≡ value_error
  build_items_errors nil = λ e h. cc
  build_items_errors (cons v vs) =
      >>=-errors IsValueError (build v) _ (build_errors v)
        (λ _. >>=-errors IsValueError (build_items vs) _ (build_items_errors vs) (λ _ e h. cc))

  build_fields_errors : (m : Fields) (e : Exc) → build_fields m ≡ err e → e ≡ value_error
  build_fields_errors end = λ e h. cc
  build_fields_errors (field k v m) =
      >>=-errors IsValueError (build v) _ (build_errors v)
        (λ _. >>=-errors IsValueError (build_fields m) _ (build_fields_errors m) (λ _ e h. cc))
