-- ===== src/Bitcoin/Cookie.antt =====
-- infrastructure/bitcoin/rpc_client.py: `_read_cookie_header`, over the system calls that it makes.
pub mod Laws
use Prim.Native.String.{◌++◌}
use bitheim.Prelude.{ℕ, ◌+◌, String, Bool, List, Option, not, ◌==◌, nat_eq, leb, length}
use bitheim.Errors.{rpc_authentication, or_raise, require}
use bitheim.Effect.{M, pure, lift, ask, finally, ◌>>=◌, ◌>>◌}
use bitheim.Bitcoin.Credential.{Stat, check_lstat, check_fstat, max_cookie_size, credential}

-- `os.lstat`, `os.open`, `os.fstat`, `os.read` and `os.close` on the path of the cookie; none is an `OSError`
pub record CookieFile (W : Type 0) : Type 0 where
  pub lstat : W → Option Stat × W
  pub open_file : W → Option ℕ × W
  pub fstat : ℕ → W → Option Stat × W
  pub read : ℕ → ℕ → W → Option (List ℕ) × W
  pub close : ℕ → W → W

module _ {W : Type 0} (file : CookieFile W) where
  -- the body of the `try` between `os.open` and `os.close`
  unfoldable pub read_open : Stat → ℕ → M W (List ℕ)
  read_open before fd = do
    found ← ask (file.fstat fd)
    s ← lift (or_raise found rpc_authentication)
    lift (check_fstat before s)
    got ← ask (file.read fd (max_cookie_size + 1))
    content_bytes ← lift (or_raise got rpc_authentication)
    lift (require (leb (length content_bytes) max_cookie_size) rpc_authentication)
    lift (require (not (length content_bytes == 0)) rpc_authentication)
    pure content_bytes

  -- `os.open` and the `try` with its `finally`
  unfoldable pub open_and_read : Stat → M W (List ℕ)
  open_and_read before = do
    opened ← ask file.open_file
    fd ← lift (or_raise opened rpc_authentication)
    finally (read_open before fd) (file.close fd)

  unfoldable pub read_bytes : M W (List ℕ)
  read_bytes = do
    found ← ask file.lstat
    s ← lift (or_raise found rpc_authentication)
    lift (check_lstat s)
    open_and_read s

  -- `decode` is `bytes.decode("utf-8")`, and `base64` the Base64 text of a text's UTF-8 bytes
  module _ (decode : List ℕ → Option String) (base64 : String → String) where
    unfoldable pub read_cookie_header : M W String
    read_cookie_header = do
      content_bytes ← read_bytes
      text ← lift (or_raise (decode content_bytes) rpc_authentication)
      content_str ← lift (credential text)
      pure ("Basic " ++ base64 content_str)
