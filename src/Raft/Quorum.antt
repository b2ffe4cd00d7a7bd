-- ===== src/Raft/Quorum.antt =====
-- Counting peers in code/raft.h: quorum sizes, votes and matching logs.
use kynovo.Common.{
  ℕ, ◌+◌, ◌/◌, Bool, true, false, not, ◌&&◌, List, [], ◌∷◌, Option, none, some, leb, ◌==◌,
  if◌then◌else◌, of_bool, count_if,
}
use kynovo.Raft.Ids.{mask_has}
use kynovo.Raft.State.{Ctx, Peer}

-- A voter of the configuration in question: the old one, or the new one.
abbrev pub is_voter : Bool → Peer → Bool
is_voter old_config_only p =
    not p.is_learner && (if old_config_only then p.in_old_config else p.in_new_config)

abbrev pub self_in : Bool → Ctx → Bool
self_in old_config_only r =
    if old_config_only
    then mask_has r.members.config_old r.id
    else mask_has r.members.config_new r.id

-- A member that is being removed counts only while it is a voter.
unfoldable pub quorum_size_of : Bool → Ctx → ℕ
quorum_size_of old_config_only r =
    (count_if (λ p. of_bool (is_voter old_config_only p)) r.members.peers
        + of_bool (self_in old_config_only r))
      / 2
    + 1

unfoldable pub count_votes : Bool → Bool → Ctx → ℕ
count_votes old_config_only pre_vote r =
    count_if
      (λ p. of_bool (is_voter old_config_only p && (if pre_vote then p.pre_vote_acked else p.vote)))
      r.members.peers

unfoldable pub count_match : Bool → ℕ → Ctx → ℕ
count_match old_config_only idx r =
    count_if (λ p. of_bool (is_voter old_config_only p && leb idx p.match_index)) r.members.peers

has_voter : List Peer → Bool
has_voter [] = false
has_voter (p ∷ ps) = if p.is_learner then has_voter ps else true

-- Someone to ask for a vote: a node whose peers are all learners is its own quorum.
unfoldable pub has_voter_peer : Ctx → Bool
unfolding has_voter
has_voter_peer r = has_voter r.members.peers

-- `raft_find_peer`: the first peer with the id.
unfoldable pub find_peer : ℕ → List Peer → Option Peer
find_peer id [] = none
find_peer id (p ∷ ps) = if p.id == id then some p else find_peer id ps

-- A write through the pointer that `raft_find_peer` returned.
unfoldable pub update_peer : ℕ → (Peer → Peer) → List Peer → List Peer
update_peer id f [] = []
update_peer id f (p ∷ ps) = if p.id == id then f p ∷ ps else p ∷ update_peer id f ps
