-- ===== src/Raft/Tick/KeptRounds.antt =====
-- The second half of raft_leader_tick of code/raft.h, and so the tick, keep what is committed.
use mathlib.Core.Path.{subst}
use kynovo.Common.{
  ℕ, ◌+◌, ◌-◌, ◌≤◌, ◌≡◌, refl, sym, ap, inl, inr, Bool, true, false, not, ◌||◌, Option, none, some,
  List, [], ◌∷◌, ◌==◌, arith, ltb, leb, if◌then◌else◌, Bool-cases,
}
use kynovo.Raft.Ids.{Mask, mask_eq}
use kynovo.Raft.Log.{Entry, entry_config, last_index, config_at}
use kynovo.Raft.State.{
  catchup_ready, catchup_failed, Ctx, Peer, Rc, ok, fail, Round, round, caught_up, gave_up,
  allocate, is_leader,
}
use kynovo.Raft.Config.{◌⨟◌, apply_config_from_log}
use kynovo.Raft.Durable.{log_cut}
use kynovo.Raft.Lead.{append_entry, find_existing_final_config}
use kynovo.Raft.Commit.{advance_commit}
use kynovo.Raft.Append.Entries.{appended, append_entry-ok, append_entry-fail}
use kynovo.Raft.Append.Keeps.{Same-apply_config}
use kynovo.Raft.Reconfig.{undo, tell_client}
use kynovo.Raft.Send.{heartbeat, send_round, grow_sizes, queue_all}
use kynovo.Raft.Send.Faithful.{new_round, Told-then, grow_sizes-Told, queue_all-Told}
use kynovo.Raft.Tick.{elapsed_add, catchup_rounds, tick_catchup, tick_joint, tick_quorum}
use kynovo.Raft.Tick.Rounds.{
  at_round, track, untrack, settle_final, finalize_joint, finalize_masks, maybe_finalize_joint,
  needs_heartbeat, tick_heartbeat, flush_answers, tick_reads, learner_loop, learner_step,
  tell_outcome, tick_learners, leader_tick,
}
use kynovo.Raft.Tick.Kept.{
  IsWithin, Kept, Kept-quiet, Kept-refl, Kept-trans, seq-Kept, undo-Kept, append_entry-Kept,
  log_cut-Kept, apply_config-Kept,
}
use kynovo.Raft.Tick.KeptChange.{Quiet, Quiet-Kept, Quiet-trans, tell_client-Quiet}
use kynovo.Raft.Tick.KeptTick.{
  if-Kept, tick_catchup-Kept, tick_joint-Kept, tick_quorum-Kept, advance_commit-Kept,
}

settle_final-Kept :
    (joint : ℕ) (r : Ctx)
    → IsWithin r
    → r.commit_index ≤ r.change.config_index - 1
    → Kept r (settle_final joint r).1
unfolding settle_final
settle_final-Kept joint r w h =
    let idx = r.change.config_index - 1 in
    let m = (apply_config_from_log r).1 in
    let applied = apply_config-Kept r w in
    seq-Kept r (undo (log_cut idx) (apply_config_from_log r)) _
      (undo-Kept r (log_cut idx) (apply_config_from_log r) applied (
        Kept-trans r m (log_cut idx m) applied
          (log_cut-Kept idx m applied.within (omega (arith, h, (Same-apply_config r).commit)))))
      (λ c wc. Kept-quiet c _ wc refl refl)

append_final-Kept :
    (joint : ℕ) (e : Entry) (r : Ctx)
    → IsWithin r
    → r.change.config_index ≡ last_index r.log + 1
    → Kept r (append_entry e r ⨟ settle_final joint).1
unfolding appended
append_final-Kept joint e r w at = elim (Bool-cases (allocate r.output.memory).0) [
  | inr full ↦
      subst (λ o. Kept r (o ⨟ settle_final joint).1) (sym (append_entry-fail e r full))
        (Kept-quiet r _ w refl refl)
  | inl got ↦
      let m = appended e r in
      let kept : Kept r m =
        subst (λ (o : Rc × Ctx). Kept r o.1) (append_entry-ok e r got) (append_entry-Kept e r w) in
      subst (λ o. Kept r (o ⨟ settle_final joint).1) (sym (append_entry-ok e r got))
        (Kept-trans r m _ kept (settle_final-Kept joint m kept.within (omega (arith, w, at))))
]

finalize_joint-Kept :
    (joint : ℕ) (c_new : Mask) (r : Ctx) → IsWithin r → Kept r (finalize_joint joint c_new r).1
unfolding finalize_joint
finalize_joint-Kept joint c_new r w =
    let existing = find_existing_final_config joint r.log in
    let found = track existing r in
    let r1 = track (last_index r.log + 1) r in
    let e : Entry = record {
      term = r.current_term;
      kind = entry_config;
      bytes = [];
      cfg_old = c_new;
      cfg_new = c_new;
      cfg_learners = r.members.config_learners;
    } in
    let out = append_entry e r1 ⨟ settle_final joint in
    let kept =
      Kept-trans r r1 out.1 (Kept-quiet r r1 w refl refl) (append_final-Kept joint e r1 w refl) in
    if-Kept r (ltb 0 existing) (apply_config_from_log found) (undo untrack out)
      (Kept-trans r found (apply_config_from_log found).1 (Kept-quiet r found w refl refl)
        (apply_config-Kept found w))
      (undo-Kept r untrack out kept (
        Kept-trans r out.1 (untrack out.1) kept
          (Kept-quiet out.1 (untrack out.1) kept.within refl refl)))

finalize_masks-Kept :
    (idx : ℕ) (r : Ctx) (masks : Option (Mask × Mask × Mask))
    → IsWithin r
    → Kept r (finalize_masks idx r masks).1
unfolding finalize_masks
finalize_masks-Kept idx r none w = Kept-refl r w
finalize_masks-Kept idx r (some (c_old, c_new, c_learners)) w =
    if-Kept r (mask_eq c_old c_new) (ok, r) (finalize_joint idx c_new r) (Kept-refl r w)
      (finalize_joint-Kept idx c_new r w)

maybe_finalize_joint-Kept : (r : Ctx) → IsWithin r → Kept r (maybe_finalize_joint r).1
unfolding maybe_finalize_joint
maybe_finalize_joint-Kept r w =
    let idx = r.change.config_index in
    let same = Kept-refl r w in
    let joint = finalize_masks-Kept idx r (config_at r.log idx) w in
    let last =
      if ltb r.commit_index idx then (ok, r) else finalize_masks idx r (config_at r.log idx) in
    let k =
      if-Kept r (ltb r.commit_index idx) (ok, r) (finalize_masks idx r (config_at r.log idx)) same
        joint in
    let closed = not r.members.config_joint || not r.change.config_pending || idx == 0 in
    if-Kept r (not (is_leader r.role)) (ok, r) (if closed then (ok, r) else last) same
      (if-Kept r closed (ok, r) last same k)

send_round-Quiet : (r : Ctx) → Quiet r (send_round r)
unfolding send_round
send_round-Quiet r =
    let told =
      Told-then r r.output (grow_sizes r) (λ c. (queue_all (grow_sizes r).members.peers 0 c).1)
        (grow_sizes-Told r) (λ o. queue_all-Told r (grow_sizes r).members.peers 0 o) in
    (ap (λ c. c.log) told.same, ap (λ c. c.commit_index) told.same)

heartbeat-Quiet : (r : Ctx) → Quiet r (heartbeat r)
unfolding heartbeat
heartbeat-Quiet r = send_round-Quiet (new_round r)

tick_heartbeat-Kept : (r : Ctx) → IsWithin r → Kept r (tick_heartbeat r).1
unfolding tick_heartbeat
tick_heartbeat-Kept r w = by_need (needs_heartbeat r)
  where
    by_need : (b : Bool) → Kept r (if b then heartbeat r else r)
    by_need true = Quiet-Kept r (heartbeat r) w (heartbeat-Quiet r)
    by_need false = Kept-refl r w

tick_reads-Kept : (r : Ctx) → IsWithin r → Kept r (tick_reads r).1
unfolding tick_reads flush_answers
tick_reads-Kept r w = Quiet-Kept r _ w (ground arith, ground arith)

tell_outcome-Quiet : (p : Peer) (r : Ctx) → Quiet r (tell_outcome p r).1.1
unfolding tell_outcome
tell_outcome-Quiet p r =
    let status =
      if ltb p.catchup_round_elapsed r.election_min_ms then catchup_ready else catchup_failed in
    by_rc _ (tell_client status p.catchup_cookie r).0 (tell_client status p.catchup_cookie r).1
      (tell_client-Quiet status p.catchup_cookie r)
  where
    by_rc :
        (outcome : Peer) (rc : Rc) (c : Ctx)
        → Quiet r c
        → Quiet r
            (elim rc as (λ x. Rc × (Peer × Ctx)) [
              | ok ↦ (ok, (outcome, c))
              | fail ↦ (fail, (p, c))
            ]).1.1
    by_rc outcome ok c q = q
    by_rc outcome fail c q = q

if-Quiet :
    (r : Ctx) (b : Bool) (x y : Rc × (Peer × Ctx))
    → Quiet r x.1.1
    → Quiet r y.1.1
    → Quiet r (if b then x else y).1.1
if-Quiet r true x y p q = p
if-Quiet r false x y p q = q

learner_step-Quiet : (ms : ℕ) (p : Peer) (r : Ctx) (n : Round) → Quiet r (learner_step ms p r n).1.1
unfolding learner_step
learner_step-Quiet ms p r caught_up = (refl, refl)
learner_step-Quiet ms p r gave_up = (refl, refl)
learner_step-Quiet ms p r (round n) =
    let same : Quiet r r = (refl, refl) in
    let first = at_round 1 (last_index r.log) p in
    let next = at_round (n + 1) (last_index r.log) p in
    let late : Peer = record p { catchup_round_elapsed = elapsed_add p.catchup_round_elapsed ms } in
    let last : Rc × (Peer × Ctx) =
      if leb catchup_rounds n then tell_outcome p r else (ok, (next, r)) in
    let there = leb p.catchup_round_start_index p.match_index in
    if-Quiet r (n == 0) (ok, (first, r)) (if there then last else (ok, (late, r))) same
      (if-Quiet r there last (ok, (late, r))
        (if-Quiet r (leb catchup_rounds n) (tell_outcome p r) (ok, (next, r))
          (tell_outcome-Quiet p r) same)
        same)

learner_loop-Quiet :
    (ms : ℕ) (ps : List Peer) (r : Ctx) (out : Rc × Ctx)
    → Quiet r out.1
    → Quiet r (learner_loop ms ps out).1
unfolding learner_loop
learner_loop-Quiet ms [] r (rc, m) q = q
learner_loop-Quiet ms (p ∷ ps) r (fail, m) q = q
learner_loop-Quiet ms (p ∷ ps) r (ok, m) q =
    let step = if p.is_learner then learner_step ms p m p.catchup_round else (ok, (p, m)) in
    learner_loop-Quiet ms ps r (step.0, step.1.1)
      (Quiet-trans r m step.1.1 q (
        if-Quiet m p.is_learner (learner_step ms p m p.catchup_round) (ok, (p, m))
          (learner_step-Quiet ms p m p.catchup_round) (refl, refl)))

tick_learners-Kept : (ms : ℕ) (r : Ctx) → IsWithin r → Kept r (tick_learners ms r).1
unfolding tick_learners
tick_learners-Kept ms r w =
    Quiet-Kept r _ w (learner_loop-Quiet ms r.members.peers r (ok, r) (refl, refl))

-- A tick of a leader whose commit index is within its log never lowers the commit index, keeps it
-- within the log, and leaves the log up to the old commit index as it was, whatever it appends,
-- aborts or finalizes and whatever the allocator does.
pub leader_tick-Kept :
    (ms : ℕ) (r : Ctx) → r.commit_index ≤ last_index r.log → Kept r (leader_tick ms r)
unfolding leader_tick
leader_tick-Kept ms r w =
    let commit = λ (m : Ctx). maybe_finalize_joint (advance_commit m) in
    let t1 = tick_catchup ms r in
    let t2 = t1 ⨟ tick_joint ms in
    let t3 = t2 ⨟ tick_quorum in
    let t4 = t3 ⨟ commit in
    let t5 = t4 ⨟ tick_heartbeat in
    let t6 = t5 ⨟ tick_reads in
    let k3 =
      seq-Kept r t2 tick_quorum
        (seq-Kept r t1 (tick_joint ms) (tick_catchup-Kept ms r w) (tick_joint-Kept ms))
        tick_quorum-Kept in
    let k4 = seq-Kept r t3 commit k3 (λ m wm.
      let k = advance_commit-Kept m wm in
      Kept-trans m (advance_commit m) (commit m).1 k
        (maybe_finalize_joint-Kept (advance_commit m) k.within)) in
    let k5 = seq-Kept r t4 tick_heartbeat k4 tick_heartbeat-Kept in
    seq-Kept r t6 (tick_learners ms) (seq-Kept r t5 tick_reads k5 tick_reads-Kept)
      (tick_learners-Kept ms)
