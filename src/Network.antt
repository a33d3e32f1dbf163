-- ===== src/Network.antt =====
-- Python's `ipaddress`, as far as the program uses it.
use bitheim.Prelude.{String, Bool, Option, some, false, ◌≡◌}
use bitheim.Prelude.Text.{strip, is_empty}

-- `ip_network(s, strict=False)`, none for its `ValueError`, what the program asks of a network, and `str`
pub record Networks : Type 1 where
  pub Net : Type 0
  pub ip_network : String → Option Net
  pub overlaps : Net → Net → Bool
  pub is_ipv4 : Net → Bool
  pub is_private : Net → Bool
  pub text : Net → String

-- What the documentation says of `str`: the text of a network is not empty, no white space surrounds it, and it is read
-- as that network.
pub record IsReadBack (n : Networks) : Type 0 where
  pub read : (a : n.Net) → n.ip_network (n.text a) ≡ some a
  pub stripped : (a : n.Net) → strip (n.text a) ≡ n.text a
  pub filled : (a : n.Net) → is_empty (n.text a) ≡ false
