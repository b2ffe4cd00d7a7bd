-- ===== src/Raft/Peers.antt =====
-- Building the peers of a configuration: raft_peer_carry and the loops of raft_rebuild_peers_normal
-- and raft_rebuild_peers_joint of code/raft.h.
use kynovo.Common.{ℕ, Bool, true, false, not, ◌&&◌, ◌||◌, List, [], ◌∷◌, ◌++◌, ◌==◌, if◌then◌else◌}
use kynovo.Raft.Ids.{Mask}
use kynovo.Raft.State.{Peer, round}

-- A zeroed slot of the new peer array, with what its creation writes.
abbrev pub fresh_peer : ℕ → Bool → Bool → Bool → ℕ → Peer
fresh_peer id learner in_old in_new next = record {
  id = id;
  is_learner = learner;
  next_index = next;
  match_index = 0;
  pending_snapshot_offset = 0;
  pending_snapshot_last_index = 0;
  vote = false;
  pre_vote_acked = false;
  in_old_config = in_old;
  in_new_config = in_new;
  read_index_acked = false;
  quorum_acked = false;
  missed_rounds = 0;
  catchup_round = round 0;
  catchup_round_start_index = 0;
  catchup_round_elapsed = 0;
  catchup_cookie = 0;
}

-- The replication progress of the old peer, and its catch-up state if the new one is a learner.
unfoldable pub peer_carry : Peer → List Peer → Bool → Peer
peer_carry dst [] require_learner = dst
peer_carry dst (p ∷ old) require_learner =
    let rest = peer_carry dst old require_learner in
    if p.id == dst.id && (not require_learner || p.is_learner)
    then (let moved : Peer = record dst {
      next_index = p.next_index;
      match_index = p.match_index;
      pending_snapshot_offset = p.pending_snapshot_offset;
      pending_snapshot_last_index = p.pending_snapshot_last_index;
    } in
        if dst.is_learner
        then record moved {
          catchup_round = p.catchup_round;
          catchup_round_start_index = p.catchup_round_start_index;
          catchup_round_elapsed = p.catchup_round_elapsed;
          catchup_cookie = p.catchup_cookie;
        }
        else moved)
    else rest

unfoldable pub has_peer : ℕ → List Peer → Bool
has_peer id [] = false
has_peer id (p ∷ ps) = p.id == id || has_peer id ps

-- The flag of the first peer with the id.
mark : (Peer → Peer) → ℕ → List Peer → List Peer
mark f id [] = []
mark f id (p ∷ ps) = if p.id == id then f p ∷ ps else p ∷ mark f id ps

module _ (self next : ℕ) (old : List Peer) where
  -- The peers of one voter configuration, none of which is known yet.
  unfoldable pub add_voters : Mask → List Peer → List Peer
  unfolding peer_carry
  add_voters [] np = np
  add_voters (id ∷ ids) np = add_voters ids (
      if id == self
      then np
      else np ++ peer_carry (fresh_peer id false true true next) old false ∷ [])

  -- The voters of C_old, then those of C_new; one that is there already is marked.
  unfoldable pub add_old : Mask → List Peer → List Peer
  unfolding mark peer_carry has_peer
  add_old [] np = np
  add_old (id ∷ ids) np = add_old ids (
      if id == self
      then np
      else if has_peer id np
      then mark (λ p. record p { in_old_config = true }) id np
      else np ++ peer_carry (fresh_peer id false true false next) old false ∷ [])

  unfoldable pub add_new : Mask → List Peer → List Peer
  unfolding mark peer_carry has_peer
  add_new [] np = np
  add_new (id ∷ ids) np = add_new ids (
      if id == self
      then np
      else if has_peer id np
      then mark (λ p. record p { in_new_config = true }) id np
      else np ++ peer_carry (fresh_peer id false false true next) old false ∷ [])

  unfoldable pub add_learners : Mask → List Peer → List Peer
  unfolding peer_carry has_peer
  add_learners [] np = np
  add_learners (id ∷ ids) np = add_learners ids (
      if id == self || has_peer id np
      then np
      else np ++ peer_carry (fresh_peer id true false false next) old true ∷ [])
