-- ===== src/Raft/Persist.antt =====
-- Reports of the caller and the nudge of a leadership transfer: raft_persist_complete and
-- raft_recv_timeout_now of code/raft.h.
pub mod Frontier
use kynovo.Common.{
  ℕ, ◌+◌, min, max, Bool, true, false, not, ◌&&◌, ◌||◌, ltb, leb, ◌==◌, if◌then◌else◌,
}
use kynovo.Raft.Ids.{id_valid}
use kynovo.Raft.Log.{last_index, term_at}
use kynovo.Raft.State.{
  Ctx, Durable, Rc, ok, fail, is_leader, is_follower, phase_ready, phase_running, phase_draining,
  term_max, next_gen,
}
use kynovo.Raft.Commit.{advance_commit}
use kynovo.Raft.Step.{step_down, become_candidate}

-- `if(x > y) y = x`
abbrev pub raise : ℕ → ℕ → ℕ
raise x y = if ltb y x then x else y

-- A report covers the log as it was when the write began, so it counts up to the present tip only.
abbrev pub reported : ℕ → ℕ → Durable → Durable
reported index tip d =
    let confirmed = min index tip in
    record d {
      persist_gen = next_gen d;
      durable_index = raise index d.durable_index;
      durable_confirm = raise confirmed d.durable_confirm;
      persist_synced_index = raise confirmed d.persist_synced_index;
    }

unfoldable pub persist_complete : ℕ → Ctx → Rc × Ctx
persist_complete index r =
    let r' = record r { durable = reported index (last_index r.log) r.durable } in
    if not (r.phase == phase_running || r.phase == phase_draining)
    then (fail, r)
    else (ok, if is_leader r.role then advance_commit r' else r')

-- raft_timeout_now
pub record TimeoutNow : Type 0 where
  pub term : ℕ
  pub last_log_index : ℕ
  pub last_log_term : ℕ
  pub leader_id : ℕ

-- A follower of the leader that asks, with the same tip, stands at once.
unfoldable pub stand_now : TimeoutNow → Ctx → Rc × Ctx
unfolding term_at
stand_now rpc r =
    let tip = last_index r.log in
    if is_follower r.role
      && rpc.leader_id == r.leader_id
      && tip == rpc.last_log_index
      && term_at r.log tip == rpc.last_log_term
    then become_candidate r
    else (ok, r)

unfoldable pub recv_timeout_now : ℕ → TimeoutNow → Ctx → Rc × Ctx
unfolding stand_now
recv_timeout_now from rpc r =
    if not (id_valid from)
    then (ok, r)
    else if ltb r.phase phase_ready
    then (fail, r)
    else if leb (term_max + 1) rpc.term
    then (ok, r)
    else if ltb rpc.term r.current_term
    then (ok, r)
    else if ltb r.current_term rpc.term
    then stand_now rpc (step_down rpc.term rpc.leader_id r)
    else stand_now rpc r
