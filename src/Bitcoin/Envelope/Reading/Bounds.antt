-- ===== src/Bitcoin/Envelope/Reading/Bounds.antt =====
-- The loop that reads a body ends, and within the size limit.
use bitheim.Prelude.{
  ℕ, zero, suc, ◌+◌, ◌≤◌, ◌<◌, List, [], ◌++◌, ◌≡◌, refl, false, arith, leb, length, length-append,
  leb→le, ◌==◌, nat_eq,
}
use bitheim.Effect.{returns, M, IsStuck}
use bitheim.Effect.Clock.{Clock, now}
use bitheim.Effect.Ends.{Ends, Ends-pure, Ends-raise, Ends-ask, Ends-if, Ends-bind}
use bitheim.Effect.Results.{
  Returns, Returns-at, Returns-bind, Returns-if, Returns-raise, Returns-pure, Returns-stuck,
}
use bitheim.Bitcoin.Envelope.Reading.{
  Chunk, bytes, timed_out, broken, incomplete, after_read, read_body, max_response_size, rounds,
}

abbrev IsBounded : List ℕ → Type 0
IsBounded b = length b ≤ max_response_size

grows : (total n : ℕ) → (n == 0) ≡ false → total < total + n
grows total n h = ground arith

too_little : (total : ℕ) → total ≤ max_response_size → max_response_size + 1 < 0 + total → ⊥
too_little total small h = omega arith

less_fuel :
    (fuel total n : ℕ)
    → max_response_size + 1 < suc fuel + total
    → total < n
    → max_response_size + 1 < fuel + n
less_fuel fuel total n h more = omega arith

chunk_length :
    (chunks b : List ℕ) (total : ℕ)
    → length chunks ≡ total
    → length (chunks ++ b) ≡ total + length b
chunk_length chunks b total e = omega (arith, e, length-append chunks b)

still_small : (n total : ℕ) → n ≡ total → total ≤ max_response_size → n ≤ max_response_size
still_small n total e small = omega arith

module _ {W : Type 0} (c : Clock W) (read : ℕ → W → Chunk × W) where
  now-Ends : Ends (now c)
  unfolding now
  now-Ends = Ends-ask _

  after_read-Ends :
      (rest : ℕ → List ℕ → M W (List ℕ)) (deadline total : ℕ) (chunks : List ℕ) (chunk : Chunk)
      → ((n : ℕ) (b : List ℕ) → total < n → n ≤ max_response_size → Ends (rest n b))
      → Ends (after_read c read rest deadline total chunks chunk)
  unfolding after_read
  after_read-Ends rest deadline total chunks timed_out k = Ends-raise _
  after_read-Ends rest deadline total chunks broken k = Ends-raise _
  after_read-Ends rest deadline total chunks incomplete k = Ends-raise _
  after_read-Ends rest deadline total chunks (bytes b) k = Ends-bind _ _ now-Ends (λ t.
      Ends-if (leb deadline t) _ _ (λ _. Ends-raise _)
        (λ _.
          Ends-if (length b == 0) _ _ (λ _. Ends-pure _)
            (λ some_byte.
              Ends-if (leb (total + length b) max_response_size) _ _
                (λ h.
                  k (total + length b) (chunks ++ b) (grows total (length b) some_byte)
                    (leb→le _ _ h))
                (λ _. Ends-raise _))))

  read_body-Ends :
      (fuel deadline total : ℕ) (chunks : List ℕ)
      → total ≤ max_response_size
      → max_response_size + 1 < fuel + total
      → Ends (read_body c read fuel deadline total chunks)
  unfolding read_body
  read_body-Ends zero deadline total chunks small h = absurd (too_little total small h)
  read_body-Ends (suc fuel) deadline total chunks small h = Ends-bind _ _ now-Ends (λ t.
      Ends-if (leb deadline t) _ _ (λ _. Ends-raise _)
        (λ _. Ends-bind _ _ (Ends-ask _) (λ chunk.
          after_read-Ends _ deadline total chunks chunk
            (λ n b more le. read_body-Ends fuel deadline n b le (less_fuel fuel total n h more)))))

  -- The loop that reads a body, on the fuel of its size limit and two, is never stuck, whatever the connection delivers.
  pub read_body-rounds :
      (deadline : ℕ) (w : W) → ¬ IsStuck (read_body c read rounds deadline 0 [] w)
  read_body-rounds deadline w =
      (read_body-Ends rounds deadline 0 [] (omega arith) (omega arith)).at w

  after_read-IsBounded :
      (rest : ℕ → List ℕ → M W (List ℕ)) (deadline total : ℕ) (chunks : List ℕ) (chunk : Chunk)
      → length chunks ≡ total
      → total ≤ max_response_size
      → ((n : ℕ) (b : List ℕ) → length b ≡ n → n ≤ max_response_size → Returns IsBounded (rest n b))
      → Returns IsBounded (after_read c read rest deadline total chunks chunk)
  unfolding after_read
  after_read-IsBounded rest deadline total chunks timed_out e small k = Returns-raise _
  after_read-IsBounded rest deadline total chunks broken e small k = Returns-raise _
  after_read-IsBounded rest deadline total chunks incomplete e small k = Returns-raise _
  after_read-IsBounded rest deadline total chunks (bytes b) e small k = Returns-bind _ _ (λ t.
      Returns-if (leb deadline t) _ _ (λ _. Returns-raise _)
        (λ _.
          Returns-if (length b == 0) _ _ (λ _. Returns-pure chunks (still_small _ total e small))
            (λ _.
              Returns-if (leb (total + length b) max_response_size) _ _
                (λ h.
                  k (total + length b) (chunks ++ b) (chunk_length chunks b total e) (leb→le _ _ h))
                (λ _. Returns-raise _))))

  read_body-IsBounded :
      (fuel deadline total : ℕ) (chunks : List ℕ)
      → length chunks ≡ total
      → total ≤ max_response_size
      → Returns IsBounded (read_body c read fuel deadline total chunks)
  unfolding read_body
  read_body-IsBounded zero deadline total chunks e small = Returns-stuck
  read_body-IsBounded (suc fuel) deadline total chunks e small = Returns-bind _ _ (λ t.
      Returns-if (leb deadline t) _ _ (λ _. Returns-raise _)
        (λ _. Returns-bind _ _ (λ chunk.
          after_read-IsBounded _ deadline total chunks chunk e small
            (λ n b. read_body-IsBounded fuel deadline n b))))

  -- A body that is read is at most 4 MiB long.
  pub read_body_size :
      (fuel deadline : ℕ) (w w' : W) (b : List ℕ)
      → read_body c read fuel deadline 0 [] w ≡ returns b w'
      → length b ≤ max_response_size
  read_body_size fuel deadline w w' b h =
      Returns-at (read_body-IsBounded fuel deadline 0 [] refl (omega arith)) w w' b h
