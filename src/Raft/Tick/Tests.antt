-- ===== src/Raft/Tick/Tests.antt =====
-- A leader at concrete inputs: the cluster of Raft/Cluster, with server 1 in office.
use kynovo.Common.{
  ◌∙◌, sym, get_elem?, ℕ, zero, suc, ◌≤◌, ◌<◌, ◌≡◌, ◌≢◌, ◌⊎◌, refl, Bool, true, false, some, List,
  [], ◌∷◌, arith, All, min, ◌+◌,
}
use kynovo.Raft.Ids.{id_valid, mask_has, set_has}
use kynovo.Raft.Log.{term_at, entry_at}
use kynovo.Raft.State.{append_entries, Ctx, follower, leader}
use kynovo.Raft.Cluster.{voter, three, entry, two_entries, server}
use kynovo.Raft.Quorum.{
  update_peer, find_peer, quorum_size_of, count_match, count_votes, has_voter_peer,
}
use kynovo.Raft.Commit.{advance_commit, may_commit}
use kynovo.Raft.Vote.{wins}
use kynovo.Raft.Election.{Tally}
use kynovo.Raft.Election.Commit.{Holding, may_commit-wins}
use kynovo.Raft.Progress.{
  contact, progress, noted, answered, AppendResult, recv_append_entries_result, resume_at,
}
use kynovo.Raft.Progress.Search.{IsOrdered, LastOf, resume_at_lem}
use kynovo.Raft.Reads.{read_round_restart, restart_if, leader_barrier, barrier, check_barriers}
use kynovo.Raft.Reads.Check.{Checked, check_barriers-Checked}
use kynovo.Raft.Client.{Command, client_reconfig, submit, recvfrom_client}
use kynovo.Raft.Client.Submitted.{Taken, submit-Taken}
use kynovo.Raft.Client.OneChange.{SameChange, recvfrom_client-SameChange}
use kynovo.Raft.Send.{grow_sizes, queue_all, send_round, heartbeat}
use kynovo.Raft.Send.Faithful.{IsFaithful, heartbeat-IsFaithful}
use kynovo.Raft.Send.Received.{SameTerms, rpc_of, recv_append_entries-SameTerms}
use kynovo.Raft.Append.{recv_append_entries}
use kynovo.Raft.Tick.{reaches, reached, open_reads}
use kynovo.Raft.Tick.Serving.{Serves, begins, asks, sends, hears, Quorate, open_reads-Quorate}
use kynovo.Raft.Tick.Rounds.{leader_tick}
use kynovo.Raft.Tick.Kept.{Kept}
use kynovo.Raft.Tick.KeptRounds.{leader_tick-Kept}

abbrev leading : Ctx
leading = record server { role = leader; leadership_confirmed = true }

two_entries-IsOrdered : IsOrdered two_entries
unfolding term_at
two_entries-IsOrdered zero j a b c = absurd (omega (arith, a))
two_entries-IsOrdered (suc zero) zero a b c = absurd (omega (arith, b))
two_entries-IsOrdered (suc zero) (suc zero) a b c = omega arith
two_entries-IsOrdered (suc zero) (suc (suc zero)) a b c = omega arith
two_entries-IsOrdered (suc zero) (suc (suc (suc j))) a b c = absurd (omega (arith, c))
two_entries-IsOrdered (suc (suc zero)) zero a b c = absurd (omega (arith, b))
two_entries-IsOrdered (suc (suc zero)) (suc zero) a b c = absurd (omega (arith, b))
two_entries-IsOrdered (suc (suc zero)) (suc (suc zero)) a b c = omega arith
two_entries-IsOrdered (suc (suc zero)) (suc (suc (suc j))) a b c = absurd (omega (arith, c))
two_entries-IsOrdered (suc (suc (suc i))) j a b c = absurd (omega (arith, b, c))

-- Server 2 holds both entries and has voted for server 1.
leading-Holding : Holding three (λ v. mask_has (1 ∷ 2 ∷ []) v) 2 leading
unfolding mask_has
leading-Holding = record {
  config = refl;
  simple = refl;
  view = λ f. omega arith;
  own = λ a b. refl;
  alone = λ a. refl;
  matched = ((λ e. refl), ((λ e. absurd (false_ne_true e)), tt));
}
  where
    false_ne_true : ◌≢◌ {A = Bool} false true
    false_ne_true e = cc

server-Tally : Tally three (λ v. 1) server
unfolding mask_has
server-Tally = record {
  config = refl;
  simple = refl;
  view = λ f. omega arith;
  own = refl;
  cast = ((λ e. refl), ((λ e. refl), tt));
}

leading-may_commit : may_commit 2 leading ≡ true
unfolding may_commit quorum_size_of count_match has_voter_peer mask_has
leading-may_commit = refl

server-wins : wins false server ≡ true
unfolding wins quorum_size_of count_votes mask_has
server-wins = refl

may_commit-wins_example :
    (v : ℕ) × (set_has three v ≡ true) × (mask_has (1 ∷ 2 ∷ []) v ≡ true) × (1 ≡ server.id)
may_commit-wins_example =
    may_commit-wins three (λ v. mask_has (1 ∷ 2 ∷ []) v) (λ v. 1) 2 leading server leading-Holding
      server-Tally leading-may_commit server-wins

abbrev success : ℕ → AppendResult
success context = record {
  term = 2;
  success = true;
  rejected = 0;
  last_log_index = 2;
  conflict_term = 0;
  conflict_first_index = 0;
  read_context = context;
}

abbrev conflict : AppendResult
conflict = record (success 0) {
  success = false;
  rejected = 3;
  conflict_term = 1;
  conflict_first_index = 2;
}

resume_at_lem_example :
    ((i : ℕ) × LastOf two_entries 1 i × (resume_at two_entries conflict ≡ i + 1))
    ⊎ (((i : ℕ) → 0 < i → i ≤ 2 → term_at two_entries i ≢ 1)
        × (resume_at two_entries conflict ≡ min 2 3))
resume_at_lem_example = resume_at_lem two_entries conflict two_entries-IsOrdered

-- One read is ready and one waits for the next entry.
abbrev reading : Ctx
reading = record leading {
  last_applied = 1;
  waiting = record leading.waiting {
    read_barriers =
        record { cookie = 7; target_index = 1; needs_gen = 0 }
        ∷ record { cookie = 8; target_index = 2; needs_gen = 0 }
        ∷ [];
  };
}

check_barriers-Checked_example : Checked reading (check_barriers reading)
check_barriers-Checked_example = check_barriers-Checked reading

abbrev commands : List Command
commands =
    record { cookie = 7; bytes = some (1 ∷ []) } ∷ record { cookie = 8; bytes = some [] } ∷ []

submit-Taken_example : Taken commands leading (submit commands leading)
submit-Taken_example = submit-Taken commands leading

-- The second entry is a membership change that is not committed.
abbrev changing : Ctx
changing = record leading {
  change = record leading.change { config_pending = true; config_index = 2 };
}

recvfrom_client-SameChange_example :
    SameChange changing (recvfrom_client (client_reconfig 9 (1 ∷ 2 ∷ [])) changing).1
recvfrom_client-SameChange_example =
    recvfrom_client-SameChange (client_reconfig 9 (1 ∷ 2 ∷ [])) changing refl (omega arith)

heartbeat-IsFaithful_example : All (IsFaithful leading) (heartbeat leading).output.msgs
heartbeat-IsFaithful_example = heartbeat-IsFaithful leading

-- A follower with the first entry is sent the second.
abbrev behind : Ctx
behind = record server { role = follower; log = record two_entries { entries = entry 1 ∷ [] } }

sent-IsFaithful : IsFaithful leading (append_entries 3 2 1 1 1 (entry 2 ∷ []) 0 0)
unfolding IsFaithful term_at entry_at
sent-IsFaithful = (refl, refl, refl, refl, omega arith, refl, one)
  where
    one : (j : ℕ) → j < 1 → get_elem? (entry 2 ∷ []) j ≡ entry_at two_entries (1 + 1 + j)
    one zero h = refl
    one (suc j) h = absurd (omega (arith, h))

behind-SameTerms : SameTerms 0 1 behind.log two_entries
unfolding term_at
behind-SameTerms zero a b = refl
behind-SameTerms (suc zero) a b = refl
behind-SameTerms (suc (suc i)) a b = absurd (omega (arith, b))

recv_append_entries-SameTerms_example :
    SameTerms 0 2
      (recv_append_entries 1 (rpc_of 2 1 1 1 (entry 2 ∷ []) 0 0) behind).1.log
      two_entries
recv_append_entries-SameTerms_example =
    recv_append_entries-SameTerms leading behind 0 1 3 2 1 1 1 (entry 2 ∷ []) 0 0 sent-IsFaithful
      (omega arith) (omega arith) (omega arith) refl refl (omega arith) (omega arith) (omega arith)
      behind-SameTerms ((omega arith, omega arith), tt) refl

-- A read, a heartbeat, and the answer of server 2.
abbrev round_done : Ctx
round_done = recv_append_entries_result 2 (success 1) (heartbeat (barrier 7 leading).1)

round_done-Serves : Serves ((2, success 1) ∷ []) round_done
round_done-Serves =
    hears [] (heartbeat (barrier 7 leading).1) 2 (success 1)
      (sends [] (barrier 7 leading).1 (asks [] leading 7 (begins leading (refl, (refl, tt)))))

-- The answers of servers 1 and 2 open the read.
round_before : round_done.waiting.read_barrier_gen ≡ 0
unfolding barrier leader_barrier restart_if read_round_restart heartbeat send_round queue_all
    recv_append_entries_result answered noted advance_commit id_valid mask_has find_peer term_at
    may_commit quorum_size_of update_peer progress contact has_voter_peer count_match grow_sizes
round_before = refl

round_opens : (open_reads round_done).waiting.read_barrier_gen ≡ 1
unfolding barrier leader_barrier restart_if read_round_restart heartbeat send_round queue_all
    recv_append_entries_result answered noted advance_commit id_valid mask_has find_peer term_at
    may_commit quorum_size_of update_peer progress contact has_voter_peer count_match grow_sizes
    open_reads reached reaches
round_opens = refl

open_reads-Quorate_example :
    Quorate false ((2, success 1) ∷ []) round_done
    × (round_done.members.config_joint ≡ true → Quorate true ((2, success 1) ∷ []) round_done)
open_reads-Quorate_example =
    open_reads-Quorate ((2, success 1) ∷ []) round_done round_done-Serves
      (λ e. one_ne_zero (sym round_opens ∙ e ∙ round_before))
  where
    one_ne_zero : ◌≢◌ {A = ℕ} 1 0
    one_ne_zero e = omega (arith, e)

-- A joint configuration that nobody has acknowledged is given up.
abbrev overdue : Ctx
overdue = record leading {
  members = record leading.members { config_joint = true; peers = voter 2 false 0 ∷ [] };
  change = record leading.change { config_pending = true; config_index = 2; joint_elapsed = 1500 };
}

leader_tick-Kept_example : Kept overdue (leader_tick 10 overdue)
leader_tick-Kept_example = leader_tick-Kept 10 overdue (omega arith)
