-- ===== src/Peers/Order.antt =====
-- Sorting by id: the result is ordered, holds the same peers, and leaves an ordered list alone.
use mathlib.Core.List.{Perm}
use mathlib.Core.List.Perm
use bitheim.Prelude.{
  ℕ, List, [], ◌∷◌, false, ◌≡◌, ◌<◌, refl, ap, ◌∙◌, arith, contains, nat_eq, leb, Bool-cases, inl,
  inr,
}
use bitheim.Domain.Peer.{PeerSummary}
use bitheim.Peers.{insert, sort}

-- Every id is below those that follow.
abbrev pub Below : ℕ → List PeerSummary → Type 0
Below n [] = Unit
Below n (p ∷ ps) = (n < p.peer_id) × Below n ps

abbrev pub Ascending : List PeerSummary → Type 0
Ascending [] = Unit
Ascending (p ∷ ps) = Below p.peer_id ps × Ascending ps

abbrev pub ids : List PeerSummary → List ℕ
ids [] = []
ids (p ∷ ps) = p.peer_id ∷ ids ps

-- No id occurs twice.
abbrev pub NodupIds : List PeerSummary → Type 0
NodupIds [] = Unit
NodupIds (p ∷ ps) = (contains (ids ps) p.peer_id ≡ false) × NodupIds ps

pub insert-perm : (p : PeerSummary) (ps : List PeerSummary) → Perm (insert p ps) (p ∷ ps)
unfolding insert
insert-perm p [] = Perm.refl _
insert-perm p (q ∷ qs) = elim (Bool-cases (leb p.peer_id q.peer_id)) [
  | inl le ↦ rw le (Perm.refl _)
  | inr gt ↦ rw gt (Perm.trans (Perm.cons q (insert-perm p qs)) (Perm.swap p q qs))
]

pub sort-perm : (ps : List PeerSummary) → Perm (sort ps) ps
unfolding sort
sort-perm [] = Perm.refl _
sort-perm (p ∷ ps) = Perm.trans (insert-perm p (sort ps)) (Perm.cons p (sort-perm ps))

Below-insert :
    (n : ℕ) (p : PeerSummary) (ps : List PeerSummary)
    → n < p.peer_id
    → Below n ps
    → Below n (insert p ps)
unfolding insert
Below-insert n p [] h b = (h, tt)
Below-insert n p (q ∷ qs) h b = ground (arith, Below-insert n p qs h)

Below-trans : (m n : ℕ) (ps : List PeerSummary) → m < n → Below n ps → Below m ps
Below-trans m n [] h b = tt
Below-trans m n (p ∷ ps) h b = ground (arith, Below-trans m n ps h)

contains-insert :
    (n : ℕ) (p : PeerSummary) (ps : List PeerSummary)
    → contains (ids (insert p ps)) n ≡ contains (ids (p ∷ ps)) n
unfolding insert
contains-insert n p [] = refl
contains-insert n p (q ∷ qs) = ground (arith, contains-insert n p qs)

contains-sort : (n : ℕ) (ps : List PeerSummary) → contains (ids (sort ps)) n ≡ contains (ids ps) n
unfolding sort
contains-sort n [] = refl
contains-sort n (p ∷ ps) = ground (arith, contains-insert n p (sort ps), contains-sort n ps)

insert-Ascending :
    (p : PeerSummary) (ps : List PeerSummary)
    → contains (ids ps) p.peer_id ≡ false
    → Ascending ps
    → Ascending (insert p ps)
unfolding insert
insert-Ascending p [] new a = (tt, tt)
insert-Ascending p (q ∷ qs) new a =
    ground (
      arith,
      insert-Ascending p qs,
      Below-insert q.peer_id p qs,
      Below-trans p.peer_id q.peer_id qs,
    )

pub sort-Ascending : (ps : List PeerSummary) → NodupIds ps → Ascending (sort ps)
unfolding sort
sort-Ascending [] n = tt
sort-Ascending (p ∷ ps) (new, n) =
    insert-Ascending p (sort ps) (contains-sort p.peer_id ps ∙ new) (sort-Ascending ps n)

insert-Below : (p : PeerSummary) (ps : List PeerSummary) → Below p.peer_id ps → insert p ps ≡ p ∷ ps
unfolding insert
insert-Below p [] b = refl
insert-Below p (q ∷ qs) b = ground arith

pub sort_sorted : (ps : List PeerSummary) → Ascending ps → sort ps ≡ ps
unfolding sort
sort_sorted [] a = refl
sort_sorted (p ∷ ps) (b, a) = ap (insert p) (sort_sorted ps a) ∙ insert-Below p ps b

not-contains-Below : (n : ℕ) (ps : List PeerSummary) → Below n ps → contains (ids ps) n ≡ false
not-contains-Below n [] b = refl
not-contains-Below n (p ∷ ps) b = ground (arith, not-contains-Below n ps)

pub Ascending-NodupIds : (ps : List PeerSummary) → Ascending ps → NodupIds ps
Ascending-NodupIds [] a = tt
Ascending-NodupIds (p ∷ ps) (b, a) = (not-contains-Below p.peer_id ps b, Ascending-NodupIds ps a)
