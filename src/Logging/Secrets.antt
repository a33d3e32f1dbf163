-- ===== src/Logging/Secrets.antt =====
-- What the sanitising of logged data lets through.
use bitheim.Prelude.{String, true, ◌≡◌, refl, ap}
use bitheim.Value.{Value, str, arr, obj, Items, nil, cons, Fields, end, field}
use bitheim.Logging.{is_sensitive, sanitize_data, sanitize_items, sanitize_fields}

mutual
  -- two values that differ at most in what stands under sensitive keys
  pub data SameButSecrets : Value → Value → Type 0 where
    same : (v : Value) → SameButSecrets v v
    in_list : (vs ws : Items) → SameItems vs ws → SameButSecrets (arr vs) (arr ws)
    in_dict : (m n : Fields) → SameFields m n → SameButSecrets (obj m) (obj n)

  pub data SameItems : Items → Items → Type 0 where
    none_left : SameItems nil nil
    both :
        (v w : Value) (vs ws : Items)
        → SameButSecrets v w
        → SameItems vs ws
        → SameItems (cons v vs) (cons w ws)

  pub data SameFields : Fields → Fields → Type 0 where
    no_field : SameFields end end
    plain :
        (k : String) (v w : Value) (m n : Fields)
        → SameButSecrets v w
        → SameFields m n
        → SameFields (field k v m) (field k w n)
    secret :
        (k : String) (v w : Value) (m n : Fields)
        → is_sensitive k ≡ true
        → SameFields m n
        → SameFields (field k v m) (field k w n)

module _ (show : Value → String) where
  mutual
    unfolding sanitize_data

    sanitize_value-same :
        (v w : Value) → SameButSecrets v w → sanitize_data show v ≡ sanitize_data show w
    sanitize_value-same _ _ (same v) = refl
    sanitize_value-same _ _ (in_list vs ws h) = ap arr (sanitize_items-same vs ws h)
    sanitize_value-same _ _ (in_dict m n h) = ap obj (sanitize_fields-same m n h)

    sanitize_items-same :
        (vs ws : Items) → SameItems vs ws → sanitize_items show vs ≡ sanitize_items show ws
    sanitize_items-same _ _ none_left = refl
    sanitize_items-same _ _ (both v w vs ws h hs) =
        cc (sanitize_value-same v w h, sanitize_items-same vs ws hs)

    sanitize_fields-same :
        (m n : Fields) → SameFields m n → sanitize_fields show m ≡ sanitize_fields show n
    sanitize_fields-same _ _ no_field = refl
    sanitize_fields-same _ _ (plain k v w m n h hs) =
        cc (sanitize_value-same v w h, sanitize_fields-same m n hs)
    sanitize_fields-same _ _ (secret k v w m n s hs) =
        rw (s) (ap (field k (str "[REDACTED]")) (sanitize_fields-same m n hs))

  -- What is logged does not depend on what stands under sensitive keys, however deep: data that differ in nothing else
  -- are sanitised to the same value.
  pub sanitize_data-same :
      (v w : Value) → SameButSecrets v w → sanitize_data show v ≡ sanitize_data show w
  sanitize_data-same v w h = sanitize_value-same v w h
