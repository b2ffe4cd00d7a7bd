-- ===== src/Raft/Election/View.antt =====
-- The peers that raft_rebuild_peers_normal builds are a view of the configuration.
use kynovo.Common.{
  ℕ, suc, ◌+◌, ◌<◌, ◌≡◌, refl, sym, ap, ◌∙◌, ◌≢◌, inl, inr, Bool, true, false, not, ◌&&◌, ◌||◌,
  List, [], ◌∷◌, ◌++◌, arith, ◌==◌, if◌then◌else◌, ==_iff, Bool-cases, of_bool, count_if,
}
use kynovo.Raft.Ids.{Mask, mask_has, set_has, id_valid}
use kynovo.Raft.Ids.Search.{IsAscending, not_has, mask_has-eq-set_has}
use kynovo.Raft.State.{Ctx, Peer, Members, Rc, ok, fail, allocate}
use kynovo.Raft.Election.{IsView}
use kynovo.Raft.Quorum.{is_voter}
use kynovo.Raft.Config.{Work, rebuild_peers_normal}
use kynovo.Raft.Peers.{peer_carry, add_voters, add_learners, fresh_peer, has_peer}

-- A peer's part in a count over the voters.
abbrev weigh : (ℕ → Bool) → Peer → ℕ
weigh f p = of_bool (is_voter false p && f p.id)

-- Carrying progress over does not change who a peer is.
weigh-peer_carry :
    (f : ℕ → Bool) (dst : Peer) (old : List Peer) (lrn : Bool)
    → weigh f (peer_carry dst old lrn) ≡ weigh f dst
unfolding peer_carry
weigh-peer_carry f dst [] lrn = refl
weigh-peer_carry f dst (p ∷ old) lrn =
    elim (Bool-cases (p.id == dst.id && (not lrn || p.is_learner))) [
      | inr e ↦ rw e (weigh-peer_carry f dst old lrn)
      | inl e ↦ elim (Bool-cases dst.is_learner) [ inl l ↦ rw e (simp l) | inr l ↦ rw e (simp l) ]
    ]

count_if-append {ℓ} :
    {A : Type ℓ} (f : A → ℕ) (xs ys : List A)
    → count_if f (xs ++ ys) ≡ count_if f xs + count_if f ys
count_if-append f [] ys = omega arith
count_if-append f (x ∷ xs) ys = omega (arith, count_if-append f xs ys)

-- The voters of a configuration other than the node.
others : (ℕ → Bool) → ℕ → Mask → ℕ
others f self ids = count_if (λ v. of_bool (not (v == self) && f v)) ids

module _ (self next : ℕ) (old : List Peer) (f : ℕ → Bool) where
  weigh-fresh :
      (id : ℕ) (lrn in_old in_new : Bool) (c : Bool)
      → weigh f (peer_carry (fresh_peer id lrn in_old in_new next) old c)
        ≡ weigh f (fresh_peer id lrn in_old in_new next)
  weigh-fresh id lrn in_old in_new c =
      weigh-peer_carry f (fresh_peer id lrn in_old in_new next) old c

  count-add_voters :
      (ids : Mask) (np : List Peer)
      → count_if (weigh f) (add_voters self next old ids np)
        ≡ count_if (weigh f) np + others f self ids
  unfolding add_voters others
  count-add_voters [] np = omega arith
  count-add_voters (id ∷ ids) np = elim (Bool-cases (id == self)) [
    | inl e ↦ rw e (omega (arith, count-add_voters ids np))
    | inr e ↦ rw e (
        omega (
          arith,
          count-add_voters ids
              (np ++ peer_carry (fresh_peer id false true true next) old false ∷ []),
          count_if-append (weigh f) np
              (peer_carry (fresh_peer id false true true next) old false ∷ []),
          weigh-fresh id false true true false,
        ))
  ]

  count-add_learners :
      (ids : Mask) (np : List Peer)
      → count_if (weigh f) (add_learners self next old ids np) ≡ count_if (weigh f) np
  unfolding add_learners
  count-add_learners [] np = refl
  count-add_learners (id ∷ ids) np = elim (Bool-cases (id == self || has_peer id np)) [
    | inl e ↦ rw e (count-add_learners ids np)
    | inr e ↦ rw e (
        omega (
          arith,
          count-add_learners ids
              (np ++ peer_carry (fresh_peer id true false false next) old true ∷ []),
          count_if-append (weigh f) np
              (peer_carry (fresh_peer id true false false next) old true ∷ []),
          weigh-fresh id true false false true,
        ))
  ]

IsAscending-tail : (x : ℕ) (xs : Mask) → IsAscending (x ∷ xs) → IsAscending xs
IsAscending-tail x xs asc i j ij h = asc (suc i) (suc j) (omega arith) (omega arith)

-- The first of ascending ids does not come again.
head_once : (x : ℕ) (xs : Mask) → IsAscending (x ∷ xs) → set_has xs x ≡ false
head_once x xs asc =
    not_has xs x (λ k h e. omega (arith, asc 0 (suc k) (omega arith) (omega arith)))

others_lem :
    (f : ℕ → Bool) (self : ℕ) (ids : Mask)
    → IsAscending ids
    → others f self ids + of_bool (set_has ids self && f self) ≡ count_if (λ v. of_bool (f v)) ids
unfolding others set_has
others_lem f self [] asc = refl
others_lem f self (x ∷ xs) asc = elim (Bool-cases (x == self)) [
  | inl e ↦
      let same = (==_iff x self).0 e in
      let once : set_has xs self ≡ false = rw same at (head_once x xs asc) in
      ground (arith, others_lem f self xs (IsAscending-tail x xs asc), once, same, ap f same)
  | inr e ↦ ground (arith, others_lem f self xs (IsAscending-tail x xs asc))
]

abbrev built : ℕ → ℕ → Members → List Peer
built self next m =
    add_learners self next m.peers m.config_learners (add_voters self next m.peers m.config_new [])

-- What the rebuild writes, if it has memory.
members-rebuild :
    (self next : ℕ) (m : Members) (memory : List Bool) (w : Work)
    → rebuild_peers_normal self next (record { members = m; memory = memory }) ≡ (ok, w)
    → w.members ≡ record m { peers = built self next m }
unfolding rebuild_peers_normal
members-rebuild self next m memory w e = elim (Bool-cases (allocate memory).0) [
  | inl got ↦ sym (ap (λ (o : Rc × Work). o.1.members) (rw got at e))
  | inr got ↦ absurd (fail_ne_ok (ap (λ (o : Rc × Work). o.0) (rw got at e)))
]
  where
    fail_ne_ok : ◌≢◌ {A = Rc} fail ok
    fail_ne_ok h = cc

id_valid_lem : (id : ℕ) → 0 < id → id_valid id ≡ true
unfolding id_valid
id_valid_lem id h = ground arith

built-IsView :
    (next : ℕ) (r : Ctx)
    → 0 < r.id
    → IsAscending r.members.config_new
    → IsView (record r { members = record r.members { peers = built r.id next r.members } })
built-IsView next r valid asc f = omega (
  arith,
  count-add_learners r.id next r.members.peers f r.members.config_learners
      (add_voters r.id next r.members.peers r.members.config_new []),
  count-add_voters r.id next r.members.peers f r.members.config_new [],
  others_lem f r.id r.members.config_new asc,
  ap (λ b. of_bool (b && f r.id)) (has_self r.members.config_new asc),
)
  where
    valid_then : (m : Mask) → (if id_valid r.id then set_has m r.id else false) ≡ set_has m r.id
    valid_then m = rw (id_valid_lem r.id valid)

    has_self : (m : Mask) → IsAscending m → mask_has m r.id ≡ set_has m r.id
    has_self m a = mask_has-eq-set_has m r.id a ∙ valid_then m

-- After a rebuild that succeeds the peers and the node itself are the voters of the configuration,
-- each counted once, whatever is counted.
pub rebuild_peers_normal-IsView :
    (next : ℕ) (memory : List Bool) (r : Ctx) (w : Work)
    → 0 < r.id
    → IsAscending r.members.config_new
    → rebuild_peers_normal r.id next (record { members = r.members; memory = memory }) ≡ (ok, w)
    → IsView (record r { members = w.members })
rebuild_peers_normal-IsView next memory r w valid asc e =
    rw (members-rebuild r.id next r.members memory w e) (built-IsView next r valid asc)
