-- ===== src/Tests/Reading.antt =====
-- The cookie file and the body of a response at concrete worlds.
use bitheim.Prelude.{ℕ, List, [], ◌∷◌, none, some, ◌≡◌, ◌≤◌, refl, length, string_eq, nat_eq}
use bitheim.Errors.{rpc_authentication}
use bitheim.Effect.{returns, raises, final, IsStuck, finally, ◌>>=◌}
use bitheim.Effect.Clock.{now}
use bitheim.Bitcoin.Credential.{check_lstat}
use bitheim.Bitcoin.Cookie.{CookieFile, read_open, open_and_read, read_bytes, read_cookie_header}
use bitheim.Bitcoin.Cookie.Laws.{Tracks, read_bytes-fds}
use bitheim.Bitcoin.Envelope.Reading.{after_read, read_body, rounds, max_response_size}
use bitheim.Bitcoin.Envelope.Reading.Bounds.{read_body-rounds, read_body_size}
use bitheim.Tests.Client.{clock, read_once, text_of}

-- a file whose calls keep the open descriptors, here the world itself
abbrev fd_cookie : CookieFile (List ℕ)
fd_cookie = record {
  lstat = λ w. (some (record { mode = 33152; size = 3; ino = 5; device = 1 }), w);
  open_file = λ w. (some 3, 3 ∷ w);
  fstat = λ fd w. (none, w);
  read = λ fd n w. (none, w);
  close = λ fd w. elim w [ [] ↦ [] | _ ∷ rest ↦ rest ];
}

fd_cookie-Tracks : Tracks fd_cookie (λ w. w)
fd_cookie-Tracks = record {
  lstat = λ w. refl;
  not_opened = λ w h. cc;
  opened = λ w fd h. cc;
  fstat = λ fd w. refl;
  read = λ fd n w. refl;
  close = λ fd w rest h. rw h refl;
}

read_bytes-fds_example : final (read_bytes fd_cookie (9 ∷ [])) ≡ 9 ∷ []
read_bytes-fds_example = read_bytes-fds fd_cookie (λ w. w) fd_cookie-Tracks (9 ∷ [])

no_fstat :
    read_cookie_header fd_cookie text_of (λ s. s) (9 ∷ []) ≡ raises rpc_authentication (9 ∷ [])
unfolding read_cookie_header read_bytes open_and_read read_open check_lstat finally ◌>>=◌
no_fstat = refl

read_body-rounds_example : ¬ IsStuck (read_body clock read_once rounds 10 0 [] (1, 0))
read_body-rounds_example = read_body-rounds clock read_once 10 (1, 0)

body_read : read_body clock read_once rounds 10 0 [] (1, 0) ≡ returns (1 ∷ []) (1, 1)
unfolding read_body after_read now ◌>>=◌
body_read = refl

read_body_size_example : length {A = ℕ} (1 ∷ []) ≤ max_response_size
read_body_size_example = read_body_size clock read_once rounds 10 (1, 0) (1, 1) (1 ∷ []) body_read
