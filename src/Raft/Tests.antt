-- ===== src/Raft/Tests.antt =====
-- The Raft core at concrete inputs: a cluster of the servers 1, 2 and 3, seen by server 1.
use kynovo.Common.{ℕ, ◌≤◌, ◌≡◌, refl, inr, true, false, none, some, [], ◌∷◌, arith}
use kynovo.Raft.Ids.{mask_has, make_sorted_ids}
use kynovo.Raft.Cluster.{three, voter, two_entries, server}
use kynovo.Raft.Ids.Search.{IsAscending}
use kynovo.Raft.Ids.Sort.{make_sorted_ids_lem}
use kynovo.Raft.Log.{term_at}
use kynovo.Raft.State.{Ctx, follower, leader, allocate}
use kynovo.Raft.Quorum.{quorum_size_of, count_votes, count_match, has_voter_peer}
use kynovo.Raft.Config.{Work, rebuild_peers_normal}
use kynovo.Raft.Peers.{peer_carry, add_voters, add_learners}
use kynovo.Raft.Commit.{may_commit, advance_commit}
use kynovo.Raft.Commit.Bounds.{Committed, advance_commit-Committed, advance_commit_ge}
use kynovo.Raft.Vote.{RequestVote, recv_request_vote, answer_vote, grant, log_ok, wins}
use kynovo.Raft.Vote.Once.{VoteKept, recv_request_vote-VoteKept}
use kynovo.Raft.Vote.Granted.{Granted, recv_request_vote-Granted}
use kynovo.Raft.Election.{IsView, Tally, election_safety}
use kynovo.Raft.Election.View.{rebuild_peers_normal-IsView}
use kynovo.Raft.Append.{RpcEntry, AppendEntries, recv_append_entries}
use kynovo.Raft.Append.Stage
use kynovo.Raft.Append.Stage.{recv_append_entries-Committed}
use kynovo.Raft.Append.Entries.{Established}
use kynovo.Raft.Append.Matching.{recv_append_entries-Established}

three-IsAscending : IsAscending three
unfolding make_sorted_ids
three-IsAscending = (make_sorted_ids_lem true (3 ∷ 1 ∷ 2 ∷ []) three refl).0

-- Two ids that are the same are refused.
duplicate_refused : make_sorted_ids true (2 ∷ 1 ∷ 2 ∷ []) ≡ none
unfolding make_sorted_ids
duplicate_refused = refl

abbrev undecided : Ctx
undecided = record server { role = follower; voted_for = 0 }

abbrev request : RequestVote
request = record {
  term = 2;
  last_log_index = 2;
  last_log_term = 2;
  candidate_id = 3;
  pre_vote = false;
}

recv_request_vote-VoteKept_example : VoteKept undecided (recv_request_vote 3 request undecided).1
recv_request_vote-VoteKept_example = recv_request_vote-VoteKept 3 request undecided

votes_three : (recv_request_vote 3 request undecided).1.voted_for ≡ 3
unfolding recv_request_vote answer_vote grant log_ok term_at
votes_three = refl

recv_request_vote-Granted_example :
    Granted 3 request undecided (recv_request_vote 3 request undecided).1
recv_request_vote-Granted_example =
    recv_request_vote-Granted 3 request undecided (rw votes_three (omega arith))
      (rw votes_three (omega arith))

-- Everybody voted for server 1.
server-Tally : Tally three (λ v. 1) server
unfolding mask_has
server-Tally = record {
  config = refl;
  simple = refl;
  view = λ f. omega arith;
  own = refl;
  cast = ((λ e. refl), ((λ e. refl), tt));
}

server-wins : wins false server ≡ true
unfolding wins quorum_size_of count_votes mask_has
server-wins = refl

election_safety_example : server.id ≡ server.id
election_safety_example =
    election_safety three (λ v. 1) server server server-Tally server-Tally server-wins server-wins

abbrev rebuilt : Work
rebuilt = record {
  members = record server.members {
    peers =
        record (voter 2 false 2) { next_index = 3 }
        ∷ record (voter 3 false 0) { next_index = 3 }
        ∷ [];
  };
  memory = [];
}

rebuild_peers_normal-IsView_example : IsView (record server { members = rebuilt.members })
unfolding rebuild_peers_normal add_voters add_learners peer_carry allocate
rebuild_peers_normal-IsView_example =
    rebuild_peers_normal-IsView 3 [] server rebuilt (omega arith) three-IsAscending refl

abbrev leading : Ctx
leading = record server { role = leader }

advance_commit-Committed_example : Committed leading (advance_commit leading)
advance_commit-Committed_example = advance_commit-Committed leading (omega arith)

may_commit_two : may_commit 2 leading ≡ true
unfolding may_commit quorum_size_of count_match has_voter_peer mask_has
may_commit_two = refl

advance_commit_ge_example : 2 ≤ (advance_commit leading).commit_index
unfolding term_at
advance_commit_ge_example =
    advance_commit_ge leading 2 (omega arith) (omega arith) refl may_commit_two

abbrev sent : ℕ → RpcEntry
sent term = record {
  term = some term;
  kind = some 0;
  bytes = 9 ∷ [];
  cfg_old = [];
  cfg_new = [];
  cfg_learners = [];
}

-- Server 3 leads term 2 and replaces the second entry.
abbrev replacing : AppendEntries
replacing = record {
  term = 2;
  leader_id = 3;
  prev_log_index = 1;
  prev_log_term = 1;
  entries = sent 1 ∷ sent 2 ∷ [];
  leader_commit = 2;
  read_context = 5;
}

recv_append_entries-Committed_example :
    VoteKept undecided (recv_append_entries 3 replacing undecided).1
    × Stage.Committed replacing undecided (recv_append_entries 3 replacing undecided).1
recv_append_entries-Committed_example = recv_append_entries-Committed 3 replacing undecided

recv_append_entries-Established_example :
    Established replacing
      (sent 1 ∷ sent 2 ∷ [])
      2
      two_entries
      (recv_append_entries 3 replacing undecided).1.log
unfolding term_at
recv_append_entries-Established_example =
    recv_append_entries-Established 3 replacing undecided (omega arith) (omega arith) (omega arith)
      refl refl (inr (omega arith, omega arith, omega arith, refl))
      ((refl, refl), ((refl, refl), tt)) refl
