-- ===== src/Raft/Election/Commit.antt =====
-- How a commit of raft_advance_commit and an election of raft_recv_request_vote_result meet in a server.
use kynovo.Common.{
  ℕ, ◌+◌, ◌*◌, ◌≤◌, ◌<◌, ◌≡◌, ap, inl, inr, Bool, true, false, ◌&&◌, List, [], ◌∷◌, arith, leb,
  ◌==◌, leb→le, ==_iff, Bool-cases, of_bool, count_if, All,
}
use kynovo.Raft.Ids.{Mask, set_has}
use kynovo.Raft.State.{Ctx, Peer}
use kynovo.Raft.Quorum.{is_voter, self_in, quorum_size_of, count_match, has_voter_peer}
use kynovo.Raft.Commit.{may_commit, is_majority, self_match}
use kynovo.Raft.Vote.{wins}
use kynovo.Raft.Election.{IsView, Tally, count_if-le-All, quorum_lem, wins-majority}

-- The leader `r`, outside a joint configuration, counts for the index only servers that hold the entry:
-- a server `v` holds it when `held v`. A leader without a voter to wait for counts itself at once.
pub record Holding (voters : Mask) (held : ℕ → Bool) (idx : ℕ) (r : Ctx) : Type 0 where
  pub config : r.members.config_new ≡ voters
  pub simple : r.members.config_joint ≡ false
  pub view : IsView r
  pub own : has_voter_peer r ≡ true → leb idx r.durable.durable_index ≡ true → held r.id ≡ true
  pub alone : has_voter_peer r ≡ false → held r.id ≡ true
  pub matched : All (λ p. leb idx p.match_index ≡ true → held p.id ≡ true) r.members.peers

match-le :
    (held : ℕ → Bool) (idx : ℕ) (p : Peer)
    → (leb idx p.match_index ≡ true → held p.id ≡ true)
    → of_bool (is_voter false p && leb idx p.match_index) ≤ of_bool (is_voter false p && held p.id)
match-le held idx p h = elim (Bool-cases (leb idx p.match_index)) [
  | inl yea ↦ rw (yea, h yea) (omega arith)
  | inr nay ↦ rw nay (ground arith)
]

matches-le :
    (held : ℕ → Bool) (idx : ℕ) (ps : List Peer)
    → All (λ p. leb idx p.match_index ≡ true → held p.id ≡ true) ps
    → All
        (λ p.
          of_bool (is_voter false p && leb idx p.match_index)
          ≤ of_bool (is_voter false p && held p.id))
        ps
matches-le held idx [] h = tt
matches-le held idx (p ∷ ps) h = (match-le held idx p h.0, matches-le held idx ps h.1)

self-le :
    (voters : Mask) (held : ℕ → Bool) (idx : ℕ) (r : Ctx)
    → Holding voters held idx r
    → self_match false idx r ≤ of_bool (self_in false r && held r.id)
self-le voters held idx r h = elim (Bool-cases (has_voter_peer r)) [
  | inr alone ↦ rw (alone, h.alone alone) (ground arith)
  | inl waits ↦ elim (Bool-cases (leb idx r.durable.durable_index)) [
    | inl durable ↦ rw (waits, durable, h.own waits durable) (omega arith)
    | inr not_yet ↦ rw (waits, not_yet) (ground arith)
  ]
]

-- More than half of the voters hold what may be committed.
may_commit-majority :
    (voters : Mask) (held : ℕ → Bool) (idx : ℕ) (r : Ctx)
    → Holding voters held idx r
    → may_commit idx r ≡ true
    → count_if (λ v. of_bool true) voters < 2 * count_if (λ v. of_bool (held v)) voters
unfolding may_commit is_majority count_match
may_commit-majority voters held idx r h m =
    let enough : leb (quorum_size_of false r) (self_match false idx r + count_match false idx r)
        ≡ true =
      simp h.simple at m in
    omega (
      arith,
      h.view held,
      self-le voters held idx r h,
      count_if-le-All _ _ r.members.peers (matches-le held idx r.members.peers h.matched),
      quorum_lem r h.view,
      ap (λ c. count_if (λ v. of_bool true) c) h.config,
      ap (λ c. count_if (λ v. of_bool (held v)) c) h.config,
      leb→le _ _ enough,
    )

abbrev Both : (ℕ → Bool) → (ℕ → Bool) → Mask → Type 0
Both f g vs = (v : ℕ) × (set_has vs v ≡ true) × (f v ≡ true) × (g v ≡ true)

-- Two sets of voters that are together more than all have a voter in common.
overlap :
    (f g : ℕ → Bool) (vs : Mask)
    → count_if (λ v. of_bool true) vs
      < count_if (λ v. of_bool (f v)) vs + count_if (λ v. of_bool (g v)) vs
    → Both f g vs
unfolding set_has
overlap f g [] h = absurd (omega (arith, h))
overlap f g (v ∷ vs) h = elim (Bool-cases (f v)) [
  | inl ef ↦ elim (Bool-cases (g v)) [
    | inl eg ↦ (v, ground arith, ef, eg)
    | inr eg ↦ later (overlap f g vs (ground (arith, h, ef, eg)))
  ]
  | inr ef ↦ later (overlap f g vs (ground (arith, h, ef)))
]
  where
    later : Both f g vs → Both f g (v ∷ vs)
    later (u, i, ef, eg) = (u, ground (arith, i), ef, eg)

-- When a leader may commit an index and a candidate wins, and both know the same voters, then some
-- voter holds the entry and has voted for the candidate.
pub may_commit-wins :
    (voters : Mask) (held : ℕ → Bool) (voted : ℕ → ℕ) (idx : ℕ) (r s : Ctx)
    → Holding voters held idx r
    → Tally voters voted s
    → may_commit idx r ≡ true
    → wins false s ≡ true
    → (v : ℕ) × (set_has voters v ≡ true) × (held v ≡ true) × (voted v ≡ s.id)
may_commit-wins voters held voted idx r s h t m w =
    let met =
      overlap held (λ v. voted v == s.id) voters
        (omega
          (arith, may_commit-majority voters held idx r h m, wins-majority voters voted s t w)) in
    (met.0, met.1, met.2, (==_iff _ _).0 met.3)
