-- ===== src/Bitcoin/Credential.antt =====
-- infrastructure/bitcoin/rpc_client.py: the checks of `_read_cookie_header`.
pub mod Laws
use Prim.Native.Char.{code}
use Prim.Native.String.{[], ◌∷◌}
use bitheim.Prelude.{
  ℕ, ◌/◌, ◌%◌, String, Bool, ◌&&◌, ◌||◌, not, ◌==◌, nat_eq, string_eq, leb, if◌then◌else◌,
}
use bitheim.Prelude.Text.{any_char, strip, is_empty}
use bitheim.Errors.{Result, ok, rpc_authentication, require, ◌>>=◌, ◌>>◌}

pub record Stat : Type 0 where
  pub mode : ℕ
  pub size : ℕ
  pub ino : ℕ
  pub device : ℕ

-- `stat.S_ISLNK(mode)`: mode & 0o170000 == 0o120000
abbrev is_link : ℕ → Bool
is_link mode = mode / 4096 % 16 == 10

-- `stat.S_ISREG(mode)`: mode & 0o170000 == 0o100000
abbrev pub is_regular : ℕ → Bool
is_regular mode = mode / 4096 % 16 == 8

-- `mode & 0o037 == 0`
abbrev pub is_private : ℕ → Bool
is_private mode = mode % 32 == 0

abbrev pub max_cookie_size : ℕ
max_cookie_size = 4096

-- the checks on the result of `os.lstat`
unfoldable pub check_lstat : Stat → Result (Unit {0})
check_lstat s = do
  require (not (is_link s.mode)) rpc_authentication
  require (is_regular s.mode) rpc_authentication
  require (is_private s.mode) rpc_authentication
  require (not (s.size == 0)) rpc_authentication
  require (leb s.size max_cookie_size) rpc_authentication

-- the checks on the result of `os.fstat`
unfoldable pub check_fstat : Stat → Stat → Result (Unit {0})
check_fstat before s = do
  require (is_regular s.mode) rpc_authentication
  require (is_private s.mode) rpc_authentication
  require (s.ino == before.ino && s.device == before.device) rpc_authentication
  require (not (s.size == 0)) rpc_authentication
  require (leb s.size max_cookie_size) rpc_authentication

-- `s[:-1] if s.endswith("\n") else s`
unfoldable pub drop_newline : String → String
drop_newline [] = []
drop_newline (c ∷ s) =
    let rest = drop_newline s in if is_empty s && code c == 0x0a then [] else c ∷ rest

-- the two parts of `s.split(":", 1)`
unfoldable pub before_colon : String → String
before_colon [] = []
before_colon (c ∷ s) = let rest = before_colon s in if code c == b':' then [] else c ∷ rest

unfoldable pub after_colon : String → String
after_colon [] = []
after_colon (c ∷ s) = let rest = after_colon s in if code c == b':' then s else rest

abbrev pub is_newline : ℕ → Bool
is_newline c = c == 0x0d || c == 0x0a

abbrev pub is_colon : ℕ → Bool
is_colon c = c == b':'

-- the checks on the text of the cookie
unfoldable pub credential : String → Result String
credential text = do
  let content_str = drop_newline text
  require (not (any_char is_newline content_str)) rpc_authentication
  require (content_str == strip content_str) rpc_authentication
  require (any_char is_colon content_str) rpc_authentication
  require (not (is_empty (before_colon content_str)) && not (is_empty (after_colon content_str)))
      rpc_authentication
  ok content_str
