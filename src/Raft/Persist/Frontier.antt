-- ===== src/Raft/Persist/Frontier.antt =====
-- What raft_persist_complete of code/raft.h does to the durable frontier and to the commit index.
use kynovo.Common.{ℕ, ◌≤◌, ◌<◌, ◌≡◌, ◌⊎◌, true}
use kynovo.Raft.Log.{last_index, term_at}
use kynovo.Raft.State.{Ctx}
use kynovo.Raft.Commit.{may_commit}
use kynovo.Raft.Persist.{reported}

-- The frontier never falls and what is confirmed stays within the log, but durable_index is not capped
-- by the log's tip; the log is the same, and the
-- commit index stays, or moves up to an entry of the own term that a majority holds, the node itself
-- counted by its new frontier.
pub record Advanced (index : ℕ) (r out : Ctx) : Type 0 where
  pub log : out.log ≡ r.log
  pub term : out.current_term ≡ r.current_term
  pub durable : out.durable ≡ reported index (last_index r.log) r.durable
  pub rises :
      (r.durable.durable_index ≤ out.durable.durable_index)
      × (r.durable.durable_confirm ≤ out.durable.durable_confirm)
      × (r.durable.persist_synced_index ≤ out.durable.persist_synced_index)
  pub within :
      r.durable.durable_confirm ≤ last_index r.log
      → r.durable.persist_synced_index ≤ last_index r.log
      → (out.durable.durable_confirm ≤ last_index r.log)
        × (out.durable.persist_synced_index ≤ last_index r.log)
  pub commit :
      (out.commit_index ≡ r.commit_index)
      ⊎ ((r.commit_index < out.commit_index)
          × (out.commit_index ≤ last_index r.log)
          × (term_at r.log out.commit_index ≡ r.current_term)
          × (may_commit out.commit_index out ≡ true))

abbrev pub after_report : ℕ → Ctx → Ctx
after_report index r = record r { durable = reported index (last_index r.log) r.durable }
