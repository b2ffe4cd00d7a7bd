-- ===== src/Raft/Tick/Rounds.antt =====
-- The second half of raft_leader_tick of code/raft.h, from the commit index on, and the tick itself.
use mathlib.Core.List.{map}
use kynovo.Common.{
  ◌-◌, ℕ, ◌+◌, Bool, true, false, not, ◌&&◌, ◌||◌, Option, none, some, List, [], ◌∷◌, ◌++◌, ltb,
  leb, ◌==◌, if◌then◌else◌,
}
use kynovo.Raft.Ids.{Mask, mask_eq}
use kynovo.Raft.Log.{entry_config, last_index, config_at}
use kynovo.Raft.State.{
  Ctx, Peer, Rc, ok, fail, catchup_ready, catchup_failed, Round, round, caught_up, gave_up,
  ReadIndexPending, Message, read_index_result, is_leader, allocate, set_memory,
}
use kynovo.Raft.Config.{◌⨟◌, apply_config_from_log}
use kynovo.Raft.Durable.{log_cut}
use kynovo.Raft.Lead.{append_entry, persist, find_existing_final_config}
use kynovo.Raft.Commit.{advance_commit}
use kynovo.Raft.Progress.{is_nil}
use kynovo.Raft.Reconfig.{set_change, undo, tell_client}
use kynovo.Raft.Send.{heartbeat}
use kynovo.Raft.Tick.{
  elapsed_add, catchup_rounds, fresh_ack, reached, tick_catchup, tick_joint, tick_quorum,
}

abbrev pub track : ℕ → Ctx → Ctx
track idx r = set_change (λ c. record c { config_pending = true; config_index = idx }) r

abbrev pub untrack : Ctx → Ctx
untrack r = set_change (λ c. record c { config_pending = false; config_index = 0 }) r

-- The first command that waits for the joint entry now waits for the final one.
repoint : ℕ → ℕ → List (ℕ × ℕ) → List (ℕ × ℕ)
repoint joint final [] = []
repoint joint final ((c, i) ∷ ps) =
    let rest = repoint joint final ps in if i == joint then (c, final) ∷ ps else (c, i) ∷ rest

unfoldable pub settle_final : ℕ → Ctx → Rc × Ctx
unfolding repoint
settle_final joint r =
    let final = r.change.config_index in
    undo (log_cut (final - 1)) (apply_config_from_log r) ⨟ (λ r'. (
      ok,
      record (persist r') {
        waiting = record r'.waiting {
          client_pending = repoint joint final r'.waiting.client_pending;
        };
      },
    ))

-- `raft_finalize_joint`
unfoldable pub finalize_joint : ℕ → Mask → Ctx → Rc × Ctx
unfolding settle_final find_existing_final_config append_entry
finalize_joint joint c_new r =
    let existing = find_existing_final_config joint r.log in
    let r1 = track (last_index r.log + 1) r in
    if ltb 0 existing
    then apply_config_from_log (track existing r)
    else undo untrack (
        append_entry
          (record {
            term = r.current_term;
            kind = entry_config;
            bytes = [];
            cfg_old = c_new;
            cfg_new = c_new;
            cfg_learners = r.members.config_learners;
          })
          r1
        ⨟ settle_final joint)

unfoldable pub finalize_masks : ℕ → Ctx → Option (Mask × Mask × Mask) → Rc × Ctx
unfolding finalize_joint
finalize_masks idx r none = (ok, r)
finalize_masks idx r (some (c_old, c_new, c_learners)) =
    if mask_eq c_old c_new then (ok, r) else finalize_joint idx c_new r

-- A joint entry that is committed is followed by the final one.
unfoldable pub maybe_finalize_joint : Ctx → Rc × Ctx
unfolding finalize_masks
maybe_finalize_joint r =
    let idx = r.change.config_index in
    if not (is_leader r.role)
    then (ok, r)
    else if not r.members.config_joint || not r.change.config_pending || idx == 0
    then (ok, r)
    else if ltb r.commit_index idx
    then (ok, r)
    else finalize_masks idx r (config_at r.log idx)

abbrev pub needs_heartbeat : Ctx → Bool
needs_heartbeat r =
    leb r.heartbeat_ms r.heartbeat_elapsed
    || (not (is_nil r.waiting.read_barriers) && not r.leadership_confirmed)

unfoldable pub tick_heartbeat : Ctx → Rc × Ctx
unfolding heartbeat
tick_heartbeat r = (ok, if needs_heartbeat r then heartbeat r else r)

abbrev pub read_answer : Ctx → ReadIndexPending → Message
read_answer r p = read_index_result p.from r.current_term r.commit_index p.context

-- The followers that asked are answered with the commit index of this moment.
unfoldable pub flush_answers : Ctx → Ctx
unfolding allocate
flush_answers r =
    let (got, memory) = allocate r.output.memory in
    let w = r.waiting in
    if got
    then record r {
      output = record r.output {
        memory = memory;
        msgs = r.output.msgs ++ map (read_answer r) w.read_index_pending;
      };
      waiting = record w { read_index_pending = []; read_index_heartbeat_sent = false };
    }
    else set_memory r memory

unfoldable pub tick_reads : Ctx → Rc × Ctx
unfolding flush_answers reached
tick_reads r =
    if not (is_nil r.waiting.read_index_pending) && reached fresh_ack r && r.leadership_confirmed
    then (ok, flush_answers r)
    else (ok, r)

abbrev pub at_round : ℕ → ℕ → Peer → Peer
at_round n start p = record p {
  catchup_round = round n;
  catchup_round_start_index = start;
  catchup_round_elapsed = 0;
}

-- The outcome of the last round is told; without memory the loop ends.
unfoldable pub tell_outcome : Peer → Ctx → Rc × (Peer × Ctx)
unfolding tell_client
tell_outcome p r =
    let short = ltb p.catchup_round_elapsed r.election_min_ms in
    let (rc, r') =
      tell_client (if short then catchup_ready else catchup_failed) p.catchup_cookie r in
    let outcome : Peer = record p { catchup_round = if short then caught_up else gave_up } in
    elim rc [ ok ↦ (ok, (outcome, r')) | fail ↦ (fail, (p, r')) ]

unfoldable pub learner_step : ℕ → Peer → Ctx → Round → Rc × (Peer × Ctx)
unfolding tell_outcome elapsed_add
learner_step ms p r caught_up = (ok, (p, r))
learner_step ms p r gave_up = (ok, (p, r))
learner_step ms p r (round n) =
    if n == 0
    then (ok, (at_round 1 (last_index r.log) p, r))
    else if leb p.catchup_round_start_index p.match_index
    then (if leb catchup_rounds n
        then tell_outcome p r
        else (ok, (at_round (n + 1) (last_index r.log) p, r)))
    else (ok, (record p { catchup_round_elapsed = elapsed_add p.catchup_round_elapsed ms }, r))

unfoldable pub learner_loop : ℕ → List Peer → Rc × Ctx → List Peer × Ctx
unfolding learner_step
learner_loop ms [] (rc, r) = ([], r)
learner_loop ms (p ∷ ps) (fail, r) = (p ∷ ps, r)
learner_loop ms (p ∷ ps) (ok, r) =
    let (rc, (p', r')) =
      if p.is_learner then learner_step ms p r p.catchup_round else (ok, (p, r)) in
    let (rest, r'') = learner_loop ms ps (rc, r') in (p' ∷ rest, r'')

unfoldable pub tick_learners : ℕ → Ctx → Rc × Ctx
unfolding learner_loop
tick_learners ms r =
    let (peers, r') = learner_loop ms r.members.peers (ok, r) in
    (ok, record r' { members = record r'.members { peers = peers } })

unfoldable pub leader_tick : ℕ → Ctx → Ctx
unfolding tick_catchup tick_joint tick_quorum maybe_finalize_joint tick_heartbeat tick_reads
    tick_learners
leader_tick ms r =
    (tick_catchup ms r
      ⨟ tick_joint ms
      ⨟ tick_quorum
      ⨟ (λ r'. maybe_finalize_joint (advance_commit r'))
      ⨟ tick_heartbeat
      ⨟ tick_reads
      ⨟ tick_learners ms).1
