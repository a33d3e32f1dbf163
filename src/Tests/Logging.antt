-- ===== src/Tests/Logging.antt =====
-- The theorem on logged data, at a concrete record.
use bitheim.Prelude.{◌≡◌, refl, true}
use bitheim.Prelude.Lines.{lower}
use bitheim.Prelude.Int.{pos}
use bitheim.Value.{Value, str, int, arr, cons, nil, obj, field, end}
use bitheim.Logging.{is_sensitive, sanitize_data}
use bitheim.Logging.Secrets.{
  same, in_list, in_dict, none_left, both, no_field, plain, secret, sanitize_data-same,
}

-- a list of one record with a password
abbrev record_with : Value → Value
record_with v = arr (cons (obj (field "rpcPassword" v (field "port" (int (pos 18443)) end))) nil)

is_secret : is_sensitive "rpcPassword" ≡ true
unfolding is_sensitive lower
is_secret = refl

sanitize_data-same_example :
    sanitize_data (λ v. "x") (record_with (str "hunter2"))
    ≡ sanitize_data (λ v. "x") (record_with (str "other"))
sanitize_data-same_example =
    sanitize_data-same (λ v. "x") (record_with (str "hunter2")) (record_with (str "other"))
      (in_list _ _ (
        both _ _ _ _
          (in_dict _ _ (
            secret "rpcPassword" (str "hunter2") (str "other") _ _ is_secret
              (plain "port" _ _ _ _ (same (int (pos 18443))) no_field)))
          none_left))
