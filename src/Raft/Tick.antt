-- ===== src/Raft/Tick.antt =====
-- A leader's time: raft_leader_tick of code/raft.h, part by part. A part whose code is `fail` ends the
-- tick.
pub mod Rounds
pub mod Fresh
pub mod Calls
pub mod Kept
pub mod KeptChange
pub mod KeptTick
pub mod KeptRounds
pub mod Between
pub mod Serving
mod Tests
use mathlib.Core.List.{map}
use kynovo.Common.{
  ℕ, zero, suc, ◌+◌, ◌-◌, ◌*◌, ◌^◌, Bool, true, false, not, ◌&&◌, ◌||◌, Option, none, some, List,
  [], ◌∷◌, ◌++◌, ltb, leb, ◌==◌, if◌then◌else◌, of_bool, count_if, add32, u32_mod, u64_mod, ◌%◌,
}
use kynovo.Raft.Ids.{Mask, mask_eq}
use kynovo.Raft.Log.{Log, entry_config, last_index, term_at, config_at}
use kynovo.Raft.State.{
  Ctx, Peer, Change, Rc, ok, fail, Status, failed, catchup_ready, catchup_failed, Round, round,
  caught_up, gave_up, ReadIndexPending, Message, read_index_result, is_leader, term_max, allocate,
  set_memory,
}
use kynovo.Raft.Quorum.{self_in, quorum_size_of}
use kynovo.Raft.Config.{◌⨟◌, apply_config_from_log}
use kynovo.Raft.Durable.{log_cut}
use kynovo.Raft.Step.{result_of, step_down}
use kynovo.Raft.Lead.{append_entry, persist, find_existing_final_config}
use kynovo.Raft.Commit.{advance_commit}
use kynovo.Raft.Progress.{is_nil}
use kynovo.Raft.Reads.{emit}
use kynovo.Raft.Reconfig.{
  set_change, undo, catchup_clear, tell_client, new_servers_caught_up, deferred_catchup_abort,
}
use kynovo.Raft.Reconfig.Requests.{maybe_advance_reconfig}
use kynovo.Raft.Send.{heartbeat}

-- It stays at its maximum.
unfoldable pub elapsed_add : ℕ → ℕ → ℕ
elapsed_add cur add = let next = add32 cur add in if ltb next cur then u32_mod - 1 else next

-- RAFT_CATCHUP_ROUNDS
abbrev pub catchup_rounds : ℕ
catchup_rounds = 10

abbrev pub next_round : ℕ → Change → Change
next_round start c = record c {
  catchup_round = c.catchup_round + 1;
  catchup_start_index = start;
  catchup_elapsed = 0;
}

-- The last round has to be short.
unfoldable pub finish_catchup : Ctx → Rc × Ctx
unfolding maybe_advance_reconfig deferred_catchup_abort
finish_catchup r =
    if ltb r.change.catchup_elapsed r.election_min_ms
    then maybe_advance_reconfig r
    else (ok, deferred_catchup_abort r)

unfoldable pub catchup_step : ℕ → Ctx → Rc × Ctx
unfolding finish_catchup new_servers_caught_up elapsed_add
catchup_step ms r =
    if r.change.catchup_round == 0
    then (ok, set_change (next_round (last_index r.log)) r)
    else if new_servers_caught_up r.members.config_old r.change.catchup_new
        r.change.catchup_start_index r
    then (if leb catchup_rounds r.change.catchup_round
        then finish_catchup r
        else (ok, set_change (next_round (last_index r.log)) r))
    else (ok, set_change (λ c. record c { catchup_elapsed = elapsed_add c.catchup_elapsed ms }) r)

-- Ten election times are the deadline of a catch-up and of an uncommitted joint entry.
abbrev pub is_overdue : ℕ → Ctx → Bool
is_overdue elapsed r = leb (r.election_min_ms * 10) elapsed

unfoldable pub give_up_catchup : Ctx → Rc × Ctx
unfolding deferred_catchup_abort
give_up_catchup r =
    if r.change.catchup_active && is_overdue r.change.catchup_total_elapsed r
    then (ok, deferred_catchup_abort r)
    else (ok, r)

unfoldable pub tick_catchup : ℕ → Ctx → Rc × Ctx
unfolding catchup_step give_up_catchup elapsed_add
tick_catchup ms r =
    if r.change.catchup_active
    then catchup_step ms (
        set_change
          (λ c. record c { catchup_total_elapsed = elapsed_add c.catchup_total_elapsed ms }) r)
      ⨟ give_up_catchup
    else (ok, r)

-- `raft_result_emit` without room made before: a result that finds none is counted.
unfoldable pub emit_or_drop : Status → Ctx → ℕ × ℕ → Ctx
unfolding allocate
emit_or_drop status r (cookie, idx) =
    let (got, memory) = allocate r.output.memory in
    if got then emit (result_of r status cookie) (set_memory r memory) else record r {
      output = record r.output {
        memory = memory;
        result_dropped = (r.output.result_dropped + 1) % u64_mod;
      };
    }

-- The commands before the first one at or behind an index, and those from it on.
unfoldable pub before_index : ℕ → List (ℕ × ℕ) → List (ℕ × ℕ)
before_index idx [] = []
before_index idx ((c, i) ∷ ps) =
    let rest = before_index idx ps in if leb idx i then [] else (c, i) ∷ rest

unfoldable pub from_index : ℕ → List (ℕ × ℕ) → List (ℕ × ℕ)
from_index idx [] = []
from_index idx ((c, i) ∷ ps) =
    let rest = from_index idx ps in if leb idx i then (c, i) ∷ ps else rest

unfoldable pub emit_all : Status → List (ℕ × ℕ) → Ctx → Ctx
unfolding emit_or_drop
emit_all status [] r = r
emit_all status (p ∷ ps) r = emit_all status ps (emit_or_drop status r p)

unfoldable pub fail_pending : ℕ → Ctx → Ctx
unfolding before_index from_index emit_all
fail_pending idx r =
    let r' = emit_all failed (from_index idx r.waiting.client_pending) r in
    record r' {
      waiting = record r'.waiting { client_pending = before_index idx r.waiting.client_pending };
    }

unfoldable pub any_reached : ℕ → List Peer → Bool
any_reached idx [] = false
any_reached idx (p ∷ ps) = leb idx p.match_index || any_reached idx ps

abbrev pub joint_clear : Change → Change
joint_clear c = record (catchup_clear c) {
  config_pending = false;
  config_index = 0;
  joint_elapsed = 0;
}

abbrev pub bump : Ctx → Ctx
bump r = record (persist r) {
  current_term = if ltb r.current_term term_max then r.current_term + 1 else r.current_term;
  voted_for = 0;
}

-- The entry leaves the log, and the term goes up so that its place is not used again.
unfoldable pub abort_joint : Ctx → Ctx
unfolding fail_pending
abort_joint r =
    let idx = r.change.config_index in
    let r1 = bump (set_change joint_clear (log_cut (idx - 1) (fail_pending idx r))) in
    (apply_config_from_log (step_down r1.current_term 0 r1)).1

abbrev pub set_joint_elapsed : ℕ → Ctx → Ctx
set_joint_elapsed t r = set_change (λ c. record c { joint_elapsed = t }) r

unfoldable pub overdue_joint : Ctx → Rc × Ctx
unfolding abort_joint any_reached
overdue_joint r =
    let idx = r.change.config_index in
    if not (any_reached idx r.members.peers) && term_at r.log idx == r.current_term
    then (fail, abort_joint r)
    else (ok, set_joint_elapsed 0 r)

unfoldable pub tick_joint : ℕ → Ctx → Rc × Ctx
unfolding overdue_joint elapsed_add
tick_joint ms r =
    let r' = set_joint_elapsed (elapsed_add r.change.joint_elapsed ms) r in
    if r.members.config_joint && r.change.config_pending && ltb r.commit_index r.change.config_index
    then (if is_overdue r'.change.joint_elapsed r' then overdue_joint r' else (ok, r'))
    else (ok, set_joint_elapsed 0 r)

abbrev pub in_config : Bool → Peer → Bool
in_config old p = if old then p.in_old_config else p.in_new_config

-- A peer that is being sent a snapshot counts as heard of.
abbrev pub heard : Peer → Bool
heard p = p.quorum_acked || ltb 0 p.pending_snapshot_offset

abbrev pub fresh_ack : Peer → Bool
fresh_ack p = p.read_index_acked && not p.is_learner

-- The node itself, if it is a voter, and the peers of one configuration that pass a test are a quorum.
unfoldable pub reaches : (Peer → Bool) → Bool → Ctx → Bool
reaches test old r =
    leb (quorum_size_of old r) (
      of_bool (self_in old r) + count_if (λ p. of_bool (test p && in_config old p)) r.members.peers)

unfoldable pub reached : (Peer → Bool) → Ctx → Bool
unfolding reaches
reached test r =
    if r.members.config_joint
    then reaches test true r && reaches test false r
    else reaches test false r

-- checkQuorum restarts the election time,
unfoldable pub check_quorum : Ctx → Ctx
unfolding reached
check_quorum r = if reached heard r then record r { election_elapsed = 0 } else r

-- a round of fresh answers opens the reads that wait for it,
unfoldable pub open_reads : Ctx → Ctx
unfolding reached
open_reads r =
    if not (is_nil r.waiting.read_barriers) && reached fresh_ack r
    then record r {
      waiting = record r.waiting { read_barrier_gen = add32 r.waiting.read_barrier_gen 1 };
    }
    else r

-- and a leader that heard of no quorum for an election time steps down.
unfoldable pub tick_quorum : Ctx → Rc × Ctx
unfolding check_quorum open_reads
tick_quorum r =
    let r' = open_reads (check_quorum r) in
    if leb r'.election_deadline r'.election_elapsed
    then (fail, step_down r'.current_term 0 r')
    else (ok, r')
