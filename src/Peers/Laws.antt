-- ===== src/Peers/Laws.antt =====
-- What the loop over the peers returns.
use mathlib.Core.List.{Perm}
use bitheim.Prelude.{
  ℕ, List, [], ◌∷◌, ◌≡◌, refl, false, arith, contains, nat_eq, All, ap, not, Bool, inl, inr,
  Bool-cases, leb, length, suc, ◌∙◌,
}
use bitheim.Errors.{
  Exc, >>=-eq-err, Result, ok, err, require, rpc_malformed_response, >>=-eq-ok, ok-injective,
}
use mathlib.Core.Path.{subst}
use bitheim.Value.{Value}
use bitheim.Domain.Peer.{PeerSummary}
use bitheim.Peers.{insert, sort, collect, parse_all}
use bitheim.Peers.Order.{
  ids, NodupIds, Ascending, sort-Ascending, sort-perm, sort_sorted, Ascending-NodupIds,
}

-- `qs` is what `parse` makes of `vs`, one by one.
abbrev pub Parsed : (Value → Result PeerSummary) → List Value → List PeerSummary → Type 0
Parsed parse [] [] = Unit
Parsed parse (v ∷ vs) (q ∷ qs) = (parse v ≡ ok q) × Parsed parse vs qs
Parsed parse [] (q ∷ qs) = ⊥
Parsed parse (v ∷ vs) [] = ⊥

-- No id of the peers is among the numbers.
abbrev Unseen : List ℕ → List PeerSummary → Type 0
Unseen seen [] = Unit
Unseen seen (p ∷ ps) = (contains seen p.peer_id ≡ false) × Unseen seen ps

require-inv : (b : Bool) → require (not b) rpc_malformed_response ≡ ok tt → b ≡ false
require-inv b h = ground arith

Unseen-cons :
    (n : ℕ) (seen : List ℕ) (ps : List PeerSummary)
    → Unseen (n ∷ seen) ps
    → Unseen seen ps × (contains (ids ps) n ≡ false)
Unseen-cons n seen [] u = (tt, refl)
Unseen-cons n seen (p ∷ ps) u = ground (arith, Unseen-cons n seen ps)

cons-Unseen :
    (n : ℕ) (seen : List ℕ) (ps : List PeerSummary)
    → Unseen seen ps
    → contains (ids ps) n ≡ false
    → Unseen (n ∷ seen) ps
cons-Unseen n seen [] u c = tt
cons-Unseen n seen (p ∷ ps) u c = ground (arith, cons-Unseen n seen ps)

Unseen-nil : (ps : List PeerSummary) → Unseen [] ps
Unseen-nil [] = tt
Unseen-nil (p ∷ ps) = (refl, Unseen-nil ps)

module _ (parse : Value → Result PeerSummary) where
  collect-inv :
      (seen : List ℕ) (vs : List Value) (ps : List PeerSummary)
      → collect parse seen vs ≡ ok ps
      → Parsed parse vs ps × Unseen seen ps × NodupIds ps
  unfolding collect
  collect-inv seen [] [] h = (tt, tt, tt)
  collect-inv seen [] (p ∷ ps) h = cc
  collect-inv seen (v ∷ vs) ps h =
      let (q, e, h₁) = >>=-eq-ok (parse v) _ h in
      let (_, g, h₂) =
        >>=-eq-ok (require (not (contains seen q.peer_id)) rpc_malformed_response) _ h₁ in
      let (qs, r, h₃) = >>=-eq-ok (collect parse (q.peer_id ∷ seen) vs) _ h₂ in
      let (each, unseen, nodup) = collect-inv (q.peer_id ∷ seen) vs qs r in
      let (apart, fresh) = Unseen-cons q.peer_id seen qs unseen in
      rw (← ok-injective h₃)
        ((e, each), (require-inv (contains seen q.peer_id) g, apart), (fresh, nodup))

  collect_ok :
      (seen : List ℕ) (vs : List Value) (ps : List PeerSummary)
      → Parsed parse vs ps
      → Unseen seen ps
      → NodupIds ps
      → collect parse seen vs ≡ ok ps
  unfolding collect
  collect_ok seen [] [] p u n = refl
  collect_ok seen (v ∷ vs) (p ∷ ps) (e, q) (new, u) (fresh, n) =
      rw (e, new)
        (rw (collect_ok (p.peer_id ∷ seen) vs ps q (cons-Unseen p.peer_id seen ps u fresh) n) refl)
  collect_ok seen [] (p ∷ ps) h u n = absurd h
  collect_ok seen (v ∷ vs) [] h u n = absurd h

  -- The peers that the loop gives are what the parser makes of the values, rearranged so that the ids ascend strictly.
  pub parse_all-inv :
      (vs : List Value) (ps : List PeerSummary)
      → parse_all parse vs ≡ ok ps
      → (qs : List PeerSummary) × Parsed parse vs qs × Perm ps qs × Ascending ps
  unfolding parse_all
  parse_all-inv vs ps h =
      let (qs, e, h₁) = >>=-eq-ok (collect parse [] vs) _ h in
      let (each, _, nodup) = collect-inv [] vs qs e in
      let sorted : sort qs ≡ ps = ok-injective h₁ in
      (
        qs,
        each,
        subst (λ l. Perm l qs) sorted (sort-perm qs),
        subst Ascending sorted (sort-Ascending qs nodup),
      )

  -- Peers in the order of their ids, each id once, come back as they are.
  pub parse_all_ok :
      (vs : List Value) (ps : List PeerSummary)
      → Parsed parse vs ps
      → Ascending ps
      → parse_all parse vs ≡ ok ps
  unfolding parse_all
  parse_all_ok vs ps each a =
      rw (collect_ok [] vs ps each (Unseen-nil ps) (Ascending-NodupIds ps a))
        (ap ok (sort_sorted ps a))

module _ (parse : Value → Result PeerSummary)
    (only : (v : Value) (e : Exc) → parse v ≡ err e → e ≡ rpc_malformed_response) where
  collect_errors :
      (seen : List ℕ) (vs : List Value) (e : Exc)
      → collect parse seen vs ≡ err e
      → e ≡ rpc_malformed_response
  unfolding collect
  collect_errors seen [] e h = cc
  collect_errors seen (v ∷ vs) e h = elim (>>=-eq-err (parse v) _ h) [
    | inl q ↦ only v e q
    | inr (p, _, q) ↦ ground (arith, collect_errors (p.peer_id ∷ seen) vs e)
  ]

  -- The loop raises `RpcMalformedResponseError` only, if the parser does.
  pub parse_all_errors :
      (vs : List Value) (e : Exc) → parse_all parse vs ≡ err e → e ≡ rpc_malformed_response
  unfolding parse_all
  parse_all_errors vs e h = ground (arith, collect_errors [] vs e)

length-insert : (p : PeerSummary) (ps : List PeerSummary) → length (insert p ps) ≡ suc (length ps)
unfolding insert
length-insert p [] = refl
length-insert p (q ∷ qs) = elim (Bool-cases (leb p.peer_id q.peer_id)) [
  | inl e ↦ rw e refl
  | inr e ↦ rw e (ap suc (length-insert p qs))
]

length-sort : (ps : List PeerSummary) → length (sort ps) ≡ length ps
unfolding sort
length-sort [] = refl
length-sort (p ∷ ps) = length-insert p (sort ps) ∙ ap suc (length-sort ps)

Parsed-length :
    (parse : Value → Result PeerSummary) (vs : List Value) (qs : List PeerSummary)
    → Parsed parse vs qs
    → length qs ≡ length vs
Parsed-length parse [] [] h = refl
Parsed-length parse (v ∷ vs) (q ∷ qs) (_, h) = ap suc (Parsed-length parse vs qs h)
Parsed-length parse [] (q ∷ qs) h = absurd h
Parsed-length parse (v ∷ vs) [] h = absurd h

-- The loop gives as many peers as it is given values.
pub length-parse_all :
    (parse : Value → Result PeerSummary) (vs : List Value) (ps : List PeerSummary)
    → parse_all parse vs ≡ ok ps
    → length ps ≡ length vs
unfolding parse_all
length-parse_all parse vs ps h =
    let (qs, e, h₁) = >>=-eq-ok (collect parse [] vs) _ h in
    subst (λ xs. length xs ≡ length vs) (ok-injective h₁)
      (length-sort qs ∙ Parsed-length parse vs qs (collect-inv parse [] vs qs e).0)

module _ (P : PeerSummary → Type 0) where
  insert-All : (p : PeerSummary) (ps : List PeerSummary) → P p → All P ps → All P (insert p ps)
  unfolding insert
  insert-All p [] h a = (h, tt)
  insert-All p (q ∷ qs) h (k, a) = elim (Bool-cases (leb p.peer_id q.peer_id)) [
    | inl e ↦ rw e (h, (k, a))
    | inr e ↦ rw e (k, insert-All p qs h a)
  ]

  sort-All : (ps : List PeerSummary) → All P ps → All P (sort ps)
  unfolding sort
  sort-All [] a = tt
  sort-All (p ∷ ps) (h, a) = insert-All p (sort ps) h (sort-All ps a)

  Parsed-All :
      (parse : Value → Result PeerSummary) (vs : List Value) (ps : List PeerSummary)
      → ((v : Value) (p : PeerSummary) → parse v ≡ ok p → P p)
      → Parsed parse vs ps
      → All P ps
  Parsed-All parse [] [] k d = tt
  Parsed-All parse [] (p ∷ ps) k d = elim d [ ]
  Parsed-All parse (v ∷ vs) [] k d = elim d [ ]
  Parsed-All parse (v ∷ vs) (p ∷ ps) k (e, d) = (k v p e, Parsed-All parse vs ps k d)

  -- What holds of every peer that the parser gives holds of every peer in the result.
  pub parse_all-All :
      (parse : Value → Result PeerSummary) (vs : List Value) (ps : List PeerSummary)
      → ((v : Value) (p : PeerSummary) → parse v ≡ ok p → P p)
      → parse_all parse vs ≡ ok ps
      → All P ps
  unfolding parse_all
  parse_all-All parse vs ps k h =
      let (qs, e, h₁) = >>=-eq-ok (collect parse [] vs) _ h in
      subst (All P) (ok-injective h₁)
        (sort-All qs (Parsed-All parse vs qs k (collect-inv parse [] vs qs e).0))
