-- ===== src/Bitcoin/Cookie/Laws.antt =====
-- Reading the cookie file: descriptors and errors.
use bitheim.Prelude.{
  ℕ, String, List, ◌∷◌, Option, none, some, ◌≡◌, true, Option-cases, inl, inr, refl, arith, ◌∙◌,
}
use bitheim.Errors.{Exc, Result-cases, rpc_authentication}
use bitheim.Effect.{raises, pure, lift, ask, final, final-finally, ◌>>=◌}
use bitheim.Effect.Errors.{
  authentication, in_class, RaisesOnly, RaisesOnly-at, RaisesOnly-ask, RaisesOnly-pure,
  RaisesOnly-lift, RaisesOnly-or_raise, RaisesOnly-require, RaisesOnly-bind, RaisesOnly-finally,
}
use bitheim.Bitcoin.Credential.{Stat, check_lstat}
use bitheim.Bitcoin.Credential.Laws.{credential_errors, check_lstat_errors, check_fstat_errors}
use bitheim.Bitcoin.Cookie.{CookieFile, read_open, open_and_read, read_bytes, read_cookie_header}

-- What the system calls do to the open descriptors of the process.
pub record Tracks {W : Type 0} (file : CookieFile W) (fds : W → List ℕ) : Type 0 where
  pub lstat : (w : W) → fds (file.lstat w).1 ≡ fds w
  pub not_opened : (w : W) → (file.open_file w).0 ≡ none → fds (file.open_file w).1 ≡ fds w
  pub opened :
      (w : W) (fd : ℕ) → (file.open_file w).0 ≡ some fd → fds (file.open_file w).1 ≡ fd ∷ fds w
  pub fstat : (fd : ℕ) (w : W) → fds (file.fstat fd w).1 ≡ fds w
  pub read : (fd n : ℕ) (w : W) → fds (file.read fd n w).1 ≡ fds w
  pub close : (fd : ℕ) (w : W) (rest : List ℕ) → fds w ≡ fd ∷ rest → fds (file.close fd w) ≡ rest

authentic : (e : Exc) → e ≡ rpc_authentication → in_class authentication e ≡ true
authentic e h = rw h refl

module _ {W : Type 0} (file : CookieFile W) where
  module _ (fds : W → List ℕ) (tracks : Tracks file fds) where
    read_open-fds : (s : Stat) (fd : ℕ) (w : W) → fds (final (read_open file s fd w)) ≡ fds w
    unfolding read_open ◌>>=◌ ask lift pure
    read_open-fds s fd w =
        ground (arith, tracks.fstat fd w, tracks.read fd 4097 (file.fstat fd w).1)

    after_open : (s : Stat) (w : W) → fds (final (open_and_read file s w)) ≡ fds w
    unfolding open_and_read ◌>>=◌ ask lift
    after_open s w = elim (Option-cases (file.open_file w).0) [
      | inl e ↦ rw e (tracks.not_opened w e)
      | inr (fd, e) ↦
          rw (e, final-finally (read_open file s fd) (file.close fd) (file.open_file w).1)
            (tracks.close fd _ _ (read_open-fds s fd (file.open_file w).1 ∙ tracks.opened w fd e))
    ]

    -- If opening adds a descriptor, closing removes it and the other calls keep the descriptors, reading the bytes of the
    -- cookie leaves the open descriptors as they were, on every path.
    pub read_bytes-fds : (w : W) → fds (final (read_bytes file w)) ≡ fds w
    unfolding read_bytes ◌>>=◌ ask lift
    read_bytes-fds w = elim (Option-cases (file.lstat w).0) [
      | inl e ↦ rw e (tracks.lstat w)
      | inr (s, e) ↦ elim (Result-cases (check_lstat s)) [
        | inl (u, q) ↦ rw (e, q) (after_open s (file.lstat w).1 ∙ tracks.lstat w)
        | inr (x, q) ↦ rw (e, q) (tracks.lstat w)
      ]
    ]

  open_errors : (s : Stat) (fd : ℕ) → RaisesOnly authentication (read_open file s fd)
  unfolding read_open
  open_errors s fd = RaisesOnly-bind _ _ (RaisesOnly-ask _) (λ found.
      RaisesOnly-bind _ _ (RaisesOnly-or_raise found _ refl) (λ s'.
        RaisesOnly-bind _ _ (RaisesOnly-lift _ (λ e h. authentic e (check_fstat_errors s s' e h)))
          (λ _. RaisesOnly-bind _ _ (RaisesOnly-ask _) (λ got.
            RaisesOnly-bind _ _ (RaisesOnly-or_raise got _ refl) (λ content.
              RaisesOnly-bind _ _ (RaisesOnly-require _ _ refl) (λ _.
                RaisesOnly-bind _ _ (RaisesOnly-require _ _ refl)
                  (λ _. RaisesOnly-pure content)))))))

  bytes_errors : RaisesOnly authentication (read_bytes file)
  unfolding read_bytes open_and_read
  bytes_errors = RaisesOnly-bind _ _ (RaisesOnly-ask _) (λ found.
      RaisesOnly-bind _ _ (RaisesOnly-or_raise found _ refl) (λ s.
        RaisesOnly-bind _ _ (RaisesOnly-lift _ (λ e h. authentic e (check_lstat_errors s e h)))
          (λ _. RaisesOnly-bind _ _ (RaisesOnly-ask _) (λ opened.
            RaisesOnly-bind _ _ (RaisesOnly-or_raise opened _ refl)
              (λ fd. RaisesOnly-finally _ _ (open_errors s fd))))))

  module _ (decode : List ℕ → Option String) (base64 : String → String) where
    pub header_errors : RaisesOnly authentication (read_cookie_header file decode base64)
    unfolding read_cookie_header
    header_errors = RaisesOnly-bind _ _ bytes_errors (λ content.
        RaisesOnly-bind _ _ (RaisesOnly-or_raise (decode content) _ refl) (λ text.
          RaisesOnly-bind _ _ (RaisesOnly-lift _ (λ e h. authentic e (credential_errors text e h)))
            (λ s. RaisesOnly-pure _)))

    -- What reading the cookie raises is `RpcAuthenticationError`.
    pub read_cookie_header_errors :
        (w w' : W) (e : Exc)
        → read_cookie_header file decode base64 w ≡ raises e w'
        → in_class authentication e ≡ true
    read_cookie_header_errors w w' e h = RaisesOnly-at header_errors w w' e h
