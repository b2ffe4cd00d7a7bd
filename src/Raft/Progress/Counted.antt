-- ===== src/Raft/Progress/Counted.antt =====
-- What the leader of code/raft.h counts after raft_recv_append_entries_result.
use kynovo.Common.{ℕ, ◌≤◌, ◌<◌, ◌≡◌, ◌⊎◌, ◌&&◌, Bool, true, leb, of_bool, All}
use kynovo.Raft.Log.{Log, last_index, term_at}
use kynovo.Raft.State.{Ctx, Peer, is_leader}
use kynovo.Raft.Quorum.{is_voter, count_match}
use kynovo.Raft.Step.{step_down}
use kynovo.Raft.Commit.{may_commit}
use kynovo.Raft.Progress.{AppendResult}

abbrev matches : Bool → ℕ → Peer → ℕ
matches old i p = of_bool (is_voter old p && leb i p.match_index)

-- What an answer of the leader's own term leaves: no entry is held by fewer than before, every match
-- stays within the log and rises no further than a success acknowledges, and the commit index stays, or
-- moves up to an entry of the own term that a
-- majority now holds.
pub record Counted (result : AppendResult) (r out : Ctx) : Type 0 where
  pub term : out.current_term ≡ r.current_term
  pub log : out.log ≡ r.log
  pub held : (old : Bool) (i : ℕ) → count_match old i r ≤ count_match old i out
  pub bounded :
      All (λ p. p.match_index ≤ last_index r.log) r.members.peers
      → All (λ p. p.match_index ≤ last_index r.log) out.members.peers
  pub acked :
      (n : ℕ)
      → (result.success ≡ true → result.last_log_index ≤ n)
      → All (λ p. p.match_index ≤ n) r.members.peers
      → All (λ p. p.match_index ≤ n) out.members.peers
  pub started :
      All (λ p. 0 < p.next_index) r.members.peers → All (λ p. 0 < p.next_index) out.members.peers
  pub commit :
      (out.commit_index ≡ r.commit_index)
      ⊎ ((r.commit_index < out.commit_index)
          × (out.commit_index ≤ last_index r.log)
          × (term_at r.log out.commit_index ≡ r.current_term)
          × (may_commit out.commit_index out ≡ true))

-- What an answer does: nothing, when the node is no leader, the answer is of another term or from no
-- peer; the leader steps down before a higher term; or the answer counts.
abbrev pub Answered : AppendResult → Ctx → Ctx → Type 0
Answered result r out =
    (out ≡ r)
    ⊎ (((r.current_term < result.term) × (out ≡ step_down result.term 0 r))
        ⊎ ((result.term ≡ r.current_term) × (is_leader r.role ≡ true) × Counted result r out))
