-- ===== src/Raft/Vote.antt =====
-- RequestVote and its result: raft_recv_request_vote and raft_recv_request_vote_result of code/raft.h.
-- A node exists in READY or a later phase, so the phase test always passes.
pub mod Once
pub mod Granted
use kynovo.Common.{
  ℕ, ◌+◌, Bool, true, false, not, ◌&&◌, ◌||◌, Option, none, some, ltb, leb, ◌==◌, if◌then◌else◌,
  of_bool,
}
use kynovo.Raft.Ids.{id_valid}
use kynovo.Raft.Log.{last_index, term_at}
use kynovo.Raft.State.{
  Ctx, Peer, is_candidate, Message, vote_result, Rc, ok, fail, send, next_gen, term_max,
}
use kynovo.Raft.Quorum.{self_in, quorum_size_of, count_votes, find_peer, update_peer}
use kynovo.Raft.Step.{step_down, become_candidate}
use kynovo.Raft.Lead.{become_leader}

pub record RequestVote : Type 0 where
  pub term : ℕ
  pub last_log_index : ℕ
  pub last_log_term : ℕ
  pub candidate_id : ℕ
  pub pre_vote : Bool

pub record RequestVoteResult : Type 0 where
  pub term : ℕ
  pub vote_granted : Bool
  pub pre_vote : Bool

-- The candidate's log is at least as up to date as the receiver's.
unfoldable pub log_ok : RequestVote → Ctx → Bool
log_ok rpc r =
    let last_idx = last_index r.log in
    let last_term = term_at r.log last_idx in
    ltb last_term rpc.last_log_term
    || (rpc.last_log_term == last_term && leb last_idx rpc.last_log_index)

abbrev pub voted_other : RequestVote → Ctx → Bool
voted_other rpc r = not (r.voted_for == 0) && not (r.voted_for == rpc.candidate_id)

-- The vote, whose answer waits until it is durable.
unfoldable pub grant : ℕ → RequestVote → Ctx → Ctx
grant from rpc r = record r {
  voted_for = rpc.candidate_id;
  election_elapsed = 0;
  durable = record r.durable { persist_needed = true };
  deferred = record r.deferred {
    vote_response = true;
    vote_to = from;
    vote_gen = next_gen r.durable;
  };
}

-- The answer, once the receiver's term is at least the candidate's.
unfoldable pub answer_vote : ℕ → RequestVote → Ctx → Rc × Ctx
answer_vote from rpc r =
    if ltb rpc.term r.current_term
    then (ok, r)
    else if not rpc.pre_vote && voted_other rpc r
    then (ok, r)
    else if not (log_ok rpc r)
    then (ok, r)
    else if rpc.pre_vote
    then send (vote_result from r.current_term true true) r
    else (ok, grant from rpc r)

unfoldable pub recv_request_vote : ℕ → RequestVote → Ctx → Rc × Ctx
unfolding id_valid
recv_request_vote from rpc r =
    if not (id_valid from) || not (id_valid rpc.candidate_id)
    then (ok, r)
    else if leb (term_max + 1) rpc.term
    then (ok, r)
    else if rpc.pre_vote && ltb r.leader_contact_elapsed r.election_min_ms
    then (ok, r)
    else answer_vote from rpc (if ltb r.current_term rpc.term then step_down rpc.term 0 r else r)

-- A majority of the votes, the node's own included; in a joint configuration of both.
unfoldable pub wins : Bool → Ctx → Bool
wins pre_vote r =
    let new_wins =
      leb (quorum_size_of false r) (of_bool (self_in false r) + count_votes false pre_vote r) in
    if r.members.config_joint
    then leb (quorum_size_of true r) (of_bool (self_in true r) + count_votes true pre_vote r)
      && new_wins
    else new_wins

abbrev note_pre_vote : Bool → Peer → Peer
note_pre_vote granted p = record p { pre_vote_acked = p.pre_vote_acked || granted }

abbrev note_vote : Bool → Peer → Peer
note_vote granted p = record p { vote = p.vote || granted }

abbrev at_peer : ℕ → (Peer → Peer) → Ctx → Ctx
at_peer from f r = record r {
  members = record r.members { peers = update_peer from f r.members.peers };
}

-- What the election functions return is not looked at.
unfoldable pub count_pre_vote : ℕ → Bool → Ctx → Ctx
count_pre_vote from granted r =
    if r.in_pre_vote
    then (let r' = at_peer from (note_pre_vote granted) r in
        if wins true r' then (become_candidate (record r' { in_pre_vote = false })).1 else r')
    else r

unfoldable pub count_vote : ℕ → Bool → Ctx → Ctx
count_vote from granted r =
    if is_candidate r.role
    then (let r' = at_peer from (note_vote granted) r in
        if wins false r' then (become_leader r').1 else r')
    else r

abbrev is_some : Option Peer → Bool
is_some none = false
is_some (some p) = true

unfoldable pub recv_request_vote_result : ℕ → RequestVoteResult → Ctx → Rc × Ctx
unfolding id_valid
recv_request_vote_result from result r =
    if not (id_valid from)
    then (ok, r)
    else if not r.in_pre_vote && not (is_candidate r.role)
    then (ok, r)
    else if ltb r.current_term result.term
    then (ok, step_down result.term 0 r)
    else if ltb result.term r.current_term
    then (ok, r)
    else if not (is_some (find_peer from r.members.peers))
    then (ok, r)
    else if result.pre_vote
    then (ok, count_pre_vote from result.vote_granted r)
    else (ok, count_vote from result.vote_granted r)
