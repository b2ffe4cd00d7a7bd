-- ===== src/Raft/Election.antt =====
-- Election safety (Raft, section 5.2) of the vote count in raft_recv_request_vote_result: no two
-- servers win the same term.
pub mod View
pub mod Commit
use kynovo.Common.{
  ℕ, zero, suc, ◌+◌, ◌-◌, ◌*◌, ◌/◌, ◌%◌, ◌^◌, ◌≤◌, ◌<◌, min, max, ◌≡◌, refl, sym, ap, ap₂, ◌∙◌, ◌≢◌,
  ◌↔◌, ◌⊎◌, inl, inr, Bool, true, false, not, ◌&&◌, ◌||◌, Option, none, some, List, [], ◌∷◌, ◌++◌,
  map, append_assoc, append-nil, arith, ltb, leb, ◌==◌, if◌then◌else◌, ltb→lt, lt→ltb, leb→le,
  ==_iff, Bool-cases, Option-cases, of_bool, length, get_elem?, get_or, take, drop, length-append,
  length-take, length-drop, get_or-append_left, get_or-append_self, get_or-take, take-append_left,
  take-take, take-all, count_if, All, u32_mod, u64_mod, add32, mul32,
}
use kynovo.Raft.Ids.{Mask}
use kynovo.Raft.State.{Ctx, Peer}
use kynovo.Raft.Quorum.{is_voter, self_in, quorum_size_of, count_votes}
use kynovo.Raft.Vote.{wins}

-- The voters among the peers, and the node itself, are the ids of the new configuration, each once:
-- counting over the one is counting over the other.
abbrev pub IsView : Ctx → Type 0
IsView r =
    (f : ℕ → Bool)
    → count_if (λ p. of_bool (is_voter false p && f p.id)) r.members.peers
        + of_bool (self_in false r && f r.id)
      ≡ count_if (λ v. of_bool (f v)) r.members.config_new

-- A candidate, outside a joint configuration, whose tally holds only votes that were cast for it: a
-- server `v` has voted for `voted v`.
pub record Tally (voters : Mask) (voted : ℕ → ℕ) (r : Ctx) : Type 0 where
  pub config : r.members.config_new ≡ voters
  pub simple : r.members.config_joint ≡ false
  pub view : IsView r
  pub own : voted r.id ≡ r.id
  pub cast : All (λ p. p.vote ≡ true → voted p.id ≡ r.id) r.members.peers

pub count_if-le-All {ℓ} :
    {A : Type ℓ} (f g : A → ℕ) (xs : List A)
    → All (λ x. f x ≤ g x) xs
    → count_if f xs ≤ count_if g xs
count_if-le-All f g [] h = omega arith
count_if-le-All f g (x ∷ xs) h = omega (arith, h.0, count_if-le-All f g xs h.1)

vote-le :
    (voted : ℕ → ℕ) (id : ℕ) (p : Peer)
    → (p.vote ≡ true → voted p.id ≡ id)
    → of_bool (is_voter false p && p.vote) ≤ of_bool (is_voter false p && (voted p.id == id))
vote-le voted id p cast = elim (Bool-cases p.vote) [
  | inl yea ↦ ground (arith, cast yea)
  | inr nay ↦ ground arith
]

votes-le :
    (voted : ℕ → ℕ) (id : ℕ) (ps : List Peer)
    → All (λ p. p.vote ≡ true → voted p.id ≡ id) ps
    → All
        (λ p.
          of_bool (is_voter false p && p.vote) ≤ of_bool (is_voter false p && (voted p.id == id)))
        ps
votes-le voted id [] h = tt
votes-le voted id (p ∷ ps) h = (vote-le voted id p h.0, votes-le voted id ps h.1)

-- The votes for two servers are at most the voters.
votes_split :
    (voted : ℕ → ℕ) (a b : ℕ) (voters : Mask)
    → a ≢ b
    → count_if (λ v. of_bool (voted v == a)) voters + count_if (λ v. of_bool (voted v == b)) voters
      ≤ count_if (λ v. of_bool true) voters
votes_split voted a b [] ne = omega arith
votes_split voted a b (v ∷ vs) ne = ground (arith, votes_split voted a b vs ne)

and_true : (b : Bool) → (b && true) ≡ b
and_true b = ground arith

pub quorum_lem :
    (r : Ctx)
    → IsView r
    → quorum_size_of false r ≡ count_if (λ v. of_bool true) r.members.config_new / 2 + 1
unfolding quorum_size_of
quorum_lem r view = ap (λ (n : ℕ). n / 2 + 1) (simp and_true at (view (λ v. true)))

Tally-le :
    (voters : Mask) (voted : ℕ → ℕ) (r : Ctx)
    → Tally voters voted r
    → of_bool (self_in false r) + count_votes false false r
      ≤ count_if (λ v. of_bool (voted v == r.id)) r.members.config_new
unfolding count_votes
Tally-le voters voted r t = omega (
  arith,
  t.view (λ v. voted v == r.id),
  count_if-le-All _ _ r.members.peers (votes-le voted r.id r.members.peers t.cast),
  self_le (self_in false r),
)
  where
    self_le : (b : Bool) → of_bool b ≤ of_bool (b && (voted r.id == r.id))
    self_le b = ground (arith, t.own)

-- A winner holds the votes of more than half of the voters.
pub wins-majority :
    (voters : Mask) (voted : ℕ → ℕ) (r : Ctx)
    → Tally voters voted r
    → wins false r ≡ true
    → count_if (λ v. of_bool true) voters < 2 * count_if (λ v. of_bool (voted v == r.id)) voters
unfolding wins
wins-majority voters voted r t w =
    let won : leb (quorum_size_of false r) (of_bool (self_in false r) + count_votes false false r)
        ≡ true =
      simp t.simple at w in
    omega (
      arith,
      Tally-le voters voted r t,
      quorum_lem r t.view,
      ap (λ m. count_if (λ v. of_bool true) m) t.config,
      ap (λ m. count_if (λ v. of_bool (voted v == r.id)) m) t.config,
      leb→le _ _ won,
    )

-- Two candidates of one term that know the same voters, whose votes were all cast for them, and where
-- no server voted for two, do not both win.
pub election_safety :
    (voters : Mask) (voted : ℕ → ℕ) (r s : Ctx)
    → Tally voters voted r
    → Tally voters voted s
    → wins false r ≡ true
    → wins false s ≡ true
    → r.id ≡ s.id
election_safety voters voted r s t u w x = elim (Bool-cases (r.id == s.id)) [
  | inl e ↦ (==_iff _ _).0 e
  | inr ne ↦ absurd (
      omega (
        arith,
        wins-majority voters voted r t w,
        wins-majority voters voted s u x,
        votes_split voted r.id s.id voters (ground arith),
      ))
]
