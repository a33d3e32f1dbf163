-- ===== src/Bitcoin/Credential/Laws.antt =====
-- Which texts of a cookie file are accepted.
use Prim.Native.Char.{code}
use Prim.Native.String.{[], ◌∷◌}
use bitheim.Prelude.{
  String, true, false, ◌≡◌, ◌⊎◌, inl, inr, refl, arith, ◌==◌, nat_eq, string_eq, Bool-cases, ap,
}
use bitheim.Prelude.Text.{any_char, strip, is_empty}
use bitheim.Errors.{Exc, ok, err, rpc_authentication}
use bitheim.Bitcoin.Credential.{
  drop_newline, before_colon, after_colon, is_newline, is_colon, credential, Stat, check_lstat,
  check_fstat,
}

-- `user:password` on one line, with both parts, and no white space around
pub record IsCredential (s : String) : Type 0 where
  pub one_line : any_char is_newline s ≡ false
  pub stripped : strip s ≡ s
  pub user : is_empty (before_colon s) ≡ false
  pub password : is_empty (after_colon s) ≡ false

-- The first text is the second with a newline after it.
abbrev pub IsLine : String → String → Type 0
IsLine [] s = ⊥
IsLine (c ∷ []) [] = code c ≡ 0x0a
IsLine (c ∷ d ∷ t) [] = ⊥
IsLine (c ∷ t) (d ∷ s) = (c ≡ d) × IsLine t s

drop_newline-cases : (t : String) → (t ≡ drop_newline t) ⊎ IsLine t (drop_newline t)
unfolding drop_newline
drop_newline-cases [] = inl refl
drop_newline-cases (c ∷ []) = elim (Bool-cases (code c == 0x0a)) [
  | inl h ↦ inr (rw h ((nat_eq.same_iff (code c) 0x0a).0 h))
  | inr h ↦ inl (rw h refl)
]
drop_newline-cases (c ∷ d ∷ s) = elim (drop_newline-cases (d ∷ s)) [
  | inl h ↦ inl (ap (λ r. c ∷ r) h)
  | inr h ↦ inr (refl, h)
]

has_colon : (s : String) → is_empty (after_colon s) ≡ false → any_char is_colon s ≡ true
unfolding after_colon
has_colon [] h = cc
has_colon (c ∷ s) h = ground (arith, has_colon s)

no_newline : (s : String) → any_char is_newline s ≡ false → drop_newline s ≡ s
unfolding drop_newline
no_newline [] h = refl
no_newline (c ∷ s) h = ground (arith, no_newline s)

-- A credential is accepted as it is.
credential_id : (s : String) → IsCredential s → credential s ≡ ok s
unfolding credential
credential_id s v =
    ground (arith, no_newline s v.one_line, has_colon s v.password, string_eq.same_iff s (strip s))

accepted : (text s : String) → credential text ≡ ok s → (s ≡ drop_newline text) × IsCredential s
unfolding credential
accepted text s h =
    ground (arith, string_eq.same_iff (drop_newline text) (strip (drop_newline text)))

-- What is read from an accepted text is a credential: one line with no white space around it and a colon between a user
-- and a password, neither of them empty. The text is the credential, or the credential with a newline after it.
pub credential-IsCredential :
    (text s : String) → credential text ≡ ok s → IsCredential s × ((text ≡ s) ⊎ IsLine text s)
credential-IsCredential text s h =
    let (same, v) = accepted text s h in (v, rw same (drop_newline-cases text))

-- What the checks raise is `RpcAuthenticationError`.
pub credential_errors : (text : String) (e : Exc) → credential text ≡ err e → e ≡ rpc_authentication
unfolding credential
credential_errors text e h = ground arith

pub check_lstat_errors : (s : Stat) (e : Exc) → check_lstat s ≡ err e → e ≡ rpc_authentication
unfolding check_lstat
check_lstat_errors s e h = ground arith

pub check_fstat_errors : (b s : Stat) (e : Exc) → check_fstat b s ≡ err e → e ≡ rpc_authentication
unfolding check_fstat
check_fstat_errors b s e h = ground arith
