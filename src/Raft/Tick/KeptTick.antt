-- ===== src/Raft/Tick/KeptTick.antt =====
-- The first half of raft_leader_tick of code/raft.h keeps what is committed.
use mathlib.Core.Path.{subst}
use kynovo.Common.{
  ℕ, ◌-◌, ◌<◌, ◌≡◌, refl, sym, inl, inr, Bool, true, false, not, ◌&&◌, List, [], ◌∷◌, ◌==◌, arith,
  ltb, leb, if◌then◌else◌, Bool-cases,
}
use kynovo.Raft.Log.{term_at}
use kynovo.Raft.State.{Ctx, Rc, ok, fail, Status, failed}
use kynovo.Raft.Config.{◌⨟◌}
use kynovo.Raft.Durable.{log_cut}
use kynovo.Raft.Step.{step_down}
use kynovo.Raft.Commit.{advance_commit}
use kynovo.Raft.Commit.Bounds.{advance_commit-Committed}
use kynovo.Raft.Reconfig.{set_change, new_servers_caught_up, deferred_catchup_abort}
use kynovo.Raft.Log.Agree.{Agrees-refl}
use kynovo.Raft.Tick.{
  set_joint_elapsed, any_reached, tick_catchup, catchup_step, finish_catchup, give_up_catchup,
  tick_joint, overdue_joint, abort_joint, fail_pending, emit_all, emit_or_drop, from_index,
  joint_clear, bump, tick_quorum, check_quorum, open_reads, is_overdue, elapsed_add, catchup_rounds,
}
use kynovo.Raft.Tick.Kept.{
  IsWithin, Kept, Kept-quiet, Kept-refl, Kept-trans, seq-Kept, log_cut-Kept, apply_config-Kept,
  step_down-Kept,
}
use kynovo.Raft.Tick.KeptChange.{
  Quiet, Quiet-Kept, Quiet-trans, maybe_advance_reconfig-Kept, deferred_catchup_abort-Quiet,
}

pub if-Kept :
    (r : Ctx) (b : Bool) (x y : Rc × Ctx) → Kept r x.1 → Kept r y.1 → Kept r (if b then x else y).1
if-Kept r true x y k l = k
if-Kept r false x y k l = l

finish_catchup-Kept : (r : Ctx) → IsWithin r → Kept r (finish_catchup r).1
unfolding finish_catchup
finish_catchup-Kept r w = elim (Bool-cases (ltb r.change.catchup_elapsed r.election_min_ms)) [
  | inl short ↦ rw short (maybe_advance_reconfig-Kept r w)
  | inr long ↦ rw long (Quiet-Kept r _ w (deferred_catchup_abort-Quiet r))
]

catchup_step-Kept : (ms : ℕ) (r : Ctx) → IsWithin r → Kept r (catchup_step ms r).1
unfolding catchup_step
catchup_step-Kept ms r w = elim (Bool-cases (r.change.catchup_round == 0)) [
  | inl first ↦ rw first (Kept-quiet r _ w refl refl)
  | inr later ↦
      elim (Bool-cases (
        new_servers_caught_up r.members.config_old r.change.catchup_new r.change.catchup_start_index
          r)) [
            | inr behind ↦ rw (later, behind) (Kept-quiet r _ w refl refl)
            | inl there ↦ elim (Bool-cases (leb catchup_rounds r.change.catchup_round)) [
              | inl last ↦ rw (later, there, last) (finish_catchup-Kept r w)
              | inr more ↦ rw (later, there, more) (Kept-quiet r _ w refl refl)
            ]
          ]
]

give_up_catchup-Kept : (r : Ctx) → IsWithin r → Kept r (give_up_catchup r).1
unfolding give_up_catchup
give_up_catchup-Kept r w =
    if-Kept r (r.change.catchup_active && is_overdue r.change.catchup_total_elapsed r)
      (ok, deferred_catchup_abort r) (ok, r)
      (Quiet-Kept r (deferred_catchup_abort r) w (deferred_catchup_abort-Quiet r)) (Kept-refl r w)

pub tick_catchup-Kept : (ms : ℕ) (r : Ctx) → IsWithin r → Kept r (tick_catchup ms r).1
unfolding tick_catchup
tick_catchup-Kept ms r w =
    let m : Ctx =
      set_change (λ c. record c { catchup_total_elapsed = elapsed_add c.catchup_total_elapsed ms })
        r in
    if-Kept r r.change.catchup_active (catchup_step ms m ⨟ give_up_catchup) (ok, r)
      (seq-Kept r (catchup_step ms m) give_up_catchup
        (Kept-trans r m (catchup_step ms m).1 (Kept-quiet r m w refl refl)
          (catchup_step-Kept ms m w))
        give_up_catchup-Kept)
      (Kept-refl r w)

emit_or_drop-Quiet : (status : Status) (r : Ctx) (p : ℕ × ℕ) → Quiet r (emit_or_drop status r p)
unfolding emit_or_drop
emit_or_drop-Quiet status r (cookie, idx) = (ground arith, ground arith)

emit_all-Quiet : (status : Status) (ps : List (ℕ × ℕ)) (r : Ctx) → Quiet r (emit_all status ps r)
unfolding emit_all
emit_all-Quiet status [] r = (refl, refl)
emit_all-Quiet status (p ∷ ps) r =
    Quiet-trans r (emit_or_drop status r p) (emit_all status ps (emit_or_drop status r p))
      (emit_or_drop-Quiet status r p) (emit_all-Quiet status ps (emit_or_drop status r p))

fail_pending-Quiet : (idx : ℕ) (r : Ctx) → Quiet r (fail_pending idx r)
unfolding fail_pending
fail_pending-Quiet idx r = emit_all-Quiet failed (from_index idx r.waiting.client_pending) r

-- What was not committed leaves the log.
abort_joint-Kept :
    (r : Ctx) → IsWithin r → r.commit_index < r.change.config_index → Kept r (abort_joint r)
unfolding abort_joint
abort_joint-Kept r w h =
    let idx = r.change.config_index in
    let told = fail_pending idx r in
    let quiet = fail_pending-Quiet idx r in
    let k1 = Quiet-Kept r told w quiet in
    let k2 =
      Kept-trans r told (log_cut (idx - 1) told) k1
        (log_cut-Kept (idx - 1) told k1.within (omega (arith, h, quiet.1))) in
    let r1 = bump (set_change joint_clear (log_cut (idx - 1) told)) in
    let k3 = Kept-trans r (log_cut (idx - 1) told) r1 k2 (Kept-quiet _ r1 k2.within refl refl) in
    let down = step_down r1.current_term 0 r1 in
    let k4 = Kept-trans r r1 down k3 (step_down-Kept r1.current_term 0 r1 k3.within) in
    Kept-trans r down _ k4 (apply_config-Kept down k4.within)

overdue_joint-Kept :
    (r : Ctx) → IsWithin r → r.commit_index < r.change.config_index → Kept r (overdue_joint r).1
unfolding overdue_joint
overdue_joint-Kept r w h =
    if-Kept r
      (not (any_reached r.change.config_index r.members.peers)
        && term_at r.log r.change.config_index == r.current_term)
      (fail, abort_joint r) (ok, set_joint_elapsed 0 r) (abort_joint-Kept r w h)
      (Kept-quiet r (set_joint_elapsed 0 r) w refl refl)

pub tick_joint-Kept : (ms : ℕ) (r : Ctx) → IsWithin r → Kept r (tick_joint ms r).1
unfolding tick_joint
tick_joint-Kept ms r w =
    let m = set_joint_elapsed (elapsed_add r.change.joint_elapsed ms) r in
    let closed = set_joint_elapsed 0 r in
    let quiet = Kept-quiet r closed w refl refl in
    elim (Bool-cases (ltb r.commit_index r.change.config_index)) [
      | inl above ↦
          let k = Kept-quiet r m w refl refl in
          if-Kept r
            (r.members.config_joint
              && r.change.config_pending
              && ltb r.commit_index r.change.config_index)
            (if is_overdue m.change.joint_elapsed m then overdue_joint m else (ok, m)) (ok, closed)
            (if-Kept r (is_overdue m.change.joint_elapsed m) (overdue_joint m) (ok, m)
              (Kept-trans r m (overdue_joint m).1 k
                (overdue_joint-Kept m w (ground (arith, above))))
              k)
            quiet
      | inr below ↦
          let never : (r.members.config_joint
                && r.change.config_pending
                && ltb r.commit_index r.change.config_index)
              ≡ false =
            ground (arith, below) in
          subst
            (λ (b : Bool).
              Kept r
                (if b
                  then (if is_overdue m.change.joint_elapsed m then overdue_joint m else (ok, m))
                  else (ok, closed)).1)
            (sym never) quiet
    ]

check_quorum-Quiet : (r : Ctx) → Quiet r (check_quorum r)
unfolding check_quorum
check_quorum-Quiet r = (ground arith, ground arith)

open_reads-Quiet : (r : Ctx) → Quiet r (open_reads r)
unfolding open_reads
open_reads-Quiet r = (ground arith, ground arith)

pub tick_quorum-Kept : (r : Ctx) → IsWithin r → Kept r (tick_quorum r).1
unfolding tick_quorum
tick_quorum-Kept r w =
    let m = open_reads (check_quorum r) in
    let k = Quiet-Kept r m w (
      Quiet-trans r (check_quorum r) m (check_quorum-Quiet r)
        (open_reads-Quiet (check_quorum r))) in
    if-Kept r (leb m.election_deadline m.election_elapsed) (fail, step_down m.current_term 0 m)
      (ok, m)
      (Kept-trans r m (step_down m.current_term 0 m) k (step_down-Kept m.current_term 0 m k.within))
      k

pub advance_commit-Kept : (r : Ctx) → IsWithin r → Kept r (advance_commit r)
advance_commit-Kept r w = elim (advance_commit-Committed r w) [
  | inl e ↦ subst (Kept r) (sym e) (Kept-refl r w)
  | inr (i, e, above, room, own, major) ↦ subst (Kept r) (sym e) record {
    commit = omega (arith, above);
    within = room;
    agrees = Agrees-refl r.commit_index r.log;
  }
]
