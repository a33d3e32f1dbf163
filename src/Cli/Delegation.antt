-- ===== src/Cli/Delegation.antt =====
-- What `main` writes in a container for a failed inspection, and what the host makes of it.
use Prim.Native.String.{[] as nothing, ◌∷◌ as ◌▸◌, ◌++◌}
use Prim.Native.String.append.{cons}
use bitheim.Prelude.{◌≤◌, String, true, some, ◌≡◌, refl, arith, ap, ◌∙◌, le→leb, ◌∷◌, []}
use bitheim.Prelude.Text.{utf8_len, is_prefix, strip}
use bitheim.Prelude.Lines.{splitlines}
use bitheim.Prelude.Lines.Laws.{
  IsBraced, IsLine, newline, strip_braced, splitlines-two, append_filled,
}
use bitheim.Errors.{
  Exc, ok, rpc_authentication, rpc_incompatible_node, rpc_timeout, rpc_unavailable,
  rpc_malformed_response, rpc_protocol, rpc_response_size_exceeded, rpc_resource_not_found,
}
use bitheim.Value.{str, obj, find}
use bitheim.Value.Keys.{build, reject_duplicate_keys, reject_from, put_last, has}
use bitheim.Compose.Docker.{Loaded, loaded}
use bitheim.Compose.Delegation.{
  loads_unique, error_type, category_error, error_line, line_error, delegated_error, max_error_size,
}
use bitheim.Cli.{map_error_category, error_object}

-- The exception that the host raises for one in the container: the same one, but for those that have no category of
-- their own.
abbrev pub as_host : Exc → Exc
as_host rpc_authentication = rpc_authentication
as_host rpc_incompatible_node = rpc_incompatible_node
as_host rpc_timeout = rpc_timeout
as_host rpc_malformed_response = rpc_malformed_response
as_host rpc_protocol = rpc_malformed_response
as_host rpc_response_size_exceeded = rpc_malformed_response
as_host rpc_resource_not_found = rpc_resource_not_found
as_host _ = rpc_unavailable

category-round : (e : Exc) → category_error (str (map_error_category e)) ≡ as_host e
unfolding category_error map_error_category
category-round rpc_authentication = refl
category-round _ = refl

prefix-append : (p s : String) → is_prefix p (p ++ s) ≡ true
prefix-append nothing s = refl
prefix-append (c ▸ p) s = ap (is_prefix (c ▸ p)) (cons c p s) ∙ ground (arith, prefix-append p s)

-- what `main` writes to the standard error: the text of the object, and the message of the exception
abbrev pub stderr_of : String → String → String
stderr_of text msg = text ++ newline ▸ (("bitheim: error:" ++ msg) ++ "\n")

module _ (loads : String → Loaded) (e : Exc) (text msg : String)
    (read : loads text ≡ loaded (obj (error_object e))) (braced : IsBraced text)
    (line : IsLine ("bitheim: error:" ++ msg)) where
  built : build (obj (error_object e)) ≡ ok (obj (error_object e))
  unfolding build error_object reject_duplicate_keys reject_from put_last has
  built = refl

  typed : error_type (error_object e) ≡ str (map_error_category e)
  unfolding error_type error_object has find
  typed = refl

  parsed : loads_unique loads text ≡ ok (obj (error_object e))
  unfolding loads_unique
  parsed = rw read built

  line_of : error_line (text ∷ ("bitheim: error:" ++ msg) ∷ []) ≡ some text
  unfolding error_line
  line_of = rw (prefix-append "bitheim: error:" msg, strip_braced text braced) refl

  line_read : line_error loads (error_line (splitlines (strip (stderr_of text msg)))) ≡ as_host e
  unfolding line_error
  line_read =
      rw
        (
          splitlines-two text ("bitheim: error:" ++ msg) braced line,
          line_of,
          braced.1,
          braced.2,
          parsed,
        )
        (ap category_error typed ∙ category-round e)

  -- If the program fails in a container with an exception, and writes the object for it as one line of printable ASCII
  -- that `json.loads` reads back, then the message as another such line, at most 16384 bytes in all, the host raises
  -- the exception of the same class, or the one that stands for its category.
  pub delegated_error-as_host :
      utf8_len (stderr_of text msg) ≤ max_error_size
      → delegated_error loads (stderr_of text msg) ≡ as_host e
  unfolding delegated_error
  delegated_error-as_host size = ground (
    arith,
    append_filled text (newline ▸ (("bitheim: error:" ++ msg) ++ "\n")) refl,
    le→leb (utf8_len (stderr_of text msg)) max_error_size size,
    line_read,
  )
