-- ===== src/Raft/Lead.antt =====
-- Becoming the leader: raft_become_leader of code/raft.h.
use mathlib.Core.List.{map}
use kynovo.Common.{
  ℕ, zero, suc, ◌+◌, ◌-◌, Bool, true, false, not, ◌&&◌, Option, none, some, [], ltb, leb, ◌==◌,
  if◌then◌else◌, length,
}
use kynovo.Raft.Ids.{Mask, mask_eq}
use kynovo.Raft.Log
use kynovo.Raft.Log.{Log, Entry, entry_config, last_index, noop, config_at}
use kynovo.Raft.State.{Ctx, Peer, round, follower, leader, Rc, ok, fail, allocate, set_memory}
use kynovo.Raft.Config.{apply_config_from_log}
use kynovo.Raft.Durable.{log_cut}
use kynovo.Raft.Step.{forget_votes}

-- `raft_log_append`: out of memory the log is unchanged. (Its allocations count as one.)
unfoldable pub append_entry : Entry → Ctx → Rc × Ctx
unfolding allocate Log.append
append_entry e r =
    let (got, memory) = allocate r.output.memory in
    if got
    then (ok, record (set_memory r memory) { log = Log.append r.log e })
    else (fail, set_memory r memory)

abbrev is_final : Option (Mask × Mask × Mask) → Bool
is_final none = false
is_final (some (c_old, c_new, c_learners)) = mask_eq c_old c_new

-- The C_new of a joint configuration entry.
abbrev joint_new : Option (Mask × Mask × Mask) → Option Mask
joint_new none = none
joint_new (some (c_old, c_new, c_learners)) = if mask_eq c_old c_new then none else some c_new

-- Upwards from `idx`, with `n` entries left: the first final configuration entry. An index in the
-- snapshot has no entry, and is passed over.
final_from : ℕ → ℕ → Log → ℕ
unfolding config_at
final_from zero idx log = 0
final_from (suc n) idx log =
    let rest = final_from n (idx + 1) log in if is_final (config_at log idx) then idx else rest

-- 0 if there is none.
unfoldable pub find_existing_final_config : ℕ → Log → ℕ
unfolding final_from
find_existing_final_config after log = final_from (last_index log - after) (after + 1) log

-- Downwards, with `n` entries above the base left: the last joint configuration entry and its C_new.
last_joint : ℕ → Log → Option (ℕ × Mask)
unfolding config_at
last_joint zero log = none
last_joint (suc n) log =
    let rest = last_joint n log in
    let idx = log.last_included_index + suc n in
    elim (joint_new (config_at log idx)) [ none ↦ rest | some c_new ↦ some (idx, c_new) ]

abbrev clear_pending : Ctx → Ctx
clear_pending r = record r { change = record r.change { config_pending = false; config_index = 0 } }

abbrev pub persist : Ctx → Ctx
persist r = record r { durable = record r.durable { persist_needed = true } }

finalized : Rc × Ctx → Ctx
finalized (ok, r) = persist r
finalized (fail, r) = clear_pending (log_cut (r.change.config_index - 1) r)

finalize_appended : Rc × Ctx → Ctx
unfolding finalized
finalize_appended (ok, r) = finalized (apply_config_from_log r)
finalize_appended (fail, r) = clear_pending r

-- Append C_new and apply it; a failure leaves neither the entry nor a pending change behind.
unfoldable pub finalize : Mask → Ctx → Ctx
unfolding finalize_appended
finalize c_new r = finalize_appended (
    append_entry
      (record {
        term = r.current_term;
        kind = entry_config;
        bytes = [];
        cfg_old = c_new;
        cfg_new = c_new;
        cfg_learners = r.members.config_learners;
      })
      (record r {
        change = record r.change { config_pending = true; config_index = last_index r.log + 1 };
      }))

-- No joint entry in the log: a joint snapshot was committed, any other joint configuration is stale.
finish_snapshot : Ctx → Ctx
unfolding finalize find_existing_final_config
finish_snapshot r =
    if ltb 0 r.log.last_included_index && not (mask_eq r.snapshot.cfg_old r.snapshot.cfg_new)
    then (if find_existing_final_config 0 r.log == 0 then finalize r.members.config_new r else r)
    else r

-- A committed joint entry with no C_new after it is finalized; an uncommitted one is taken up again.
finish_joint : ℕ → Mask → Ctx → Ctx
unfolding finalize find_existing_final_config
finish_joint idx c_new r =
    if leb idx r.commit_index && find_existing_final_config idx r.log == 0
    then finalize c_new r
    else if ltb r.commit_index idx && not r.change.config_pending
    then record r {
      change = record r.change { config_pending = true; config_index = idx; joint_elapsed = 0 };
    }
    else r

unfoldable pub resume_joint : Ctx → Ctx
unfolding finish_snapshot finish_joint last_joint
resume_joint r =
    if r.members.config_joint
    then elim (last_joint (length r.log.entries) r.log) [
      | none ↦ finish_snapshot r
      | some (idx, c_new) ↦ finish_joint idx c_new r
    ]
    else r

abbrev lead_peer : ℕ → Peer → Peer
lead_peer next p = record p {
  next_index = next;
  match_index = 0;
  missed_rounds = 0;
  pending_snapshot_offset = 0;
  pending_snapshot_last_index = 0;
  catchup_round = round 0;
  catchup_round_elapsed = 0;
}

-- The first entry of the new term could not be appended: back to follower, with no vote and no tally.
abbrev give_up : Ctx → Ctx
give_up r = record r {
  role = follower;
  ready_leader_change = true;
  voted_for = 0;
  in_pre_vote = false;
  members = record r.members { peers = map forget_votes r.members.peers };
}

abbrev take_office : Ctx → Ctx
take_office r = record r {
  role = leader;
  leader_id = r.id;
  ready_leader_change = true;
  heartbeat_elapsed = 0;
  election_elapsed = 0;
  leader_contact_elapsed = 0;
  leadership_confirmed = false;
  in_pre_vote = false;
  durable = record r.durable { persist_needed = true };
  members = record r.members { peers = map (lead_peer (last_index r.log + 1)) r.members.peers };
}

lead : Rc × Ctx → Rc × Ctx
lead (fail, r) = (fail, give_up r)
lead (ok, r) = (ok, resume_joint (take_office r))

unfoldable pub become_leader : Ctx → Rc × Ctx
unfolding lead append_entry
become_leader r = lead (append_entry (noop r.current_term) r)
