-- ===== src/Raft/Tick/Between.antt =====
-- The calls of code/raft.h that may come between those that serve reads: they keep the answers of the
-- present round.
use mathlib.Core.Path.{subst}
use kynovo.Common.{
  ℕ, sym, refl, List, Bool, true, false, not, ◌||◌, ◌==◌, inl, inr, Bool-cases, if◌then◌else◌,
}
use kynovo.Raft.Ids.{id_valid}
use kynovo.Raft.State.{Ctx, is_leader, phase_running, phase_draining, allocate}
use kynovo.Raft.Commit.{advance_commit}
use kynovo.Raft.Commit.Bounds.{advance_commit-shape}
use kynovo.Raft.Progress.{is_nil}
use kynovo.Raft.Client.{Command, commands_ok, enqueue, submit}
use kynovo.Raft.Persist.{persist_complete}
use kynovo.Raft.Persist.Frontier.{after_report}
use kynovo.Raft.Reads.{check_barriers}
use kynovo.Raft.Reads.Check.{check_barriers-Checked}
use kynovo.Raft.Tick.Calls.{KeepsRound, same-KeepsRound}

pub advance_commit-KeepsRound : (r : Ctx) → KeepsRound r (advance_commit r)
unfolding KeepsRound
advance_commit-KeepsRound r = elim (advance_commit-shape r) [
  | inl e ↦ subst (KeepsRound r) (sym e) (same-KeepsRound r)
  | inr (i, e) ↦ subst (KeepsRound r) (sym e) (inl (refl, refl, refl))
]

pub persist_complete-KeepsRound : (index : ℕ) (r : Ctx) → KeepsRound r (persist_complete index r).1
unfolding persist_complete KeepsRound
persist_complete-KeepsRound index r =
    elim (Bool-cases (not (r.phase == phase_running || r.phase == phase_draining))) [
      | inl idle ↦ rw idle (same-KeepsRound r)
      | inr runs ↦ rw runs (by_role (is_leader r.role))
    ]
  where
    by_role :
        (leads : Bool)
        → KeepsRound r
            (if leads then advance_commit (after_report index r) else after_report index r)
    by_role true = advance_commit-KeepsRound (after_report index r)
    by_role false = inl (refl, refl, refl)

enqueue-KeepsRound : (cs : List Command) (r : Ctx) → KeepsRound r (enqueue cs r).1
unfolding enqueue KeepsRound
enqueue-KeepsRound cs r =
    let (got, memory) = allocate r.output.memory in
    elim (Bool-cases got) [
      | inr full ↦ rw full (inl (refl, refl, refl))
      | inl room ↦ elim (Bool-cases (allocate memory).0) [
        | inl room' ↦ rw (room, room') (inl (refl, refl, refl))
        | inr full ↦ rw (room, full) (inl (refl, refl, refl))
      ]
    ]

pub submit-KeepsRound : (cs : List Command) (r : Ctx) → KeepsRound r (submit cs r).1
unfolding submit
submit-KeepsRound cs r = elim (Bool-cases (is_nil cs)) [
  | inl nothing ↦ rw nothing (same-KeepsRound r)
  | inr some_commands ↦ elim (Bool-cases (not (r.phase == phase_running))) [
    | inl idle ↦ rw (some_commands, idle) (same-KeepsRound r)
    | inr runs ↦ elim (Bool-cases (not (is_leader r.role))) [
      | inl other ↦ rw (some_commands, runs, other) (same-KeepsRound r)
      | inr leads ↦ elim (Bool-cases (id_valid r.transfer.target)) [
        | inl moving ↦ rw (some_commands, runs, leads, moving) (same-KeepsRound r)
        | inr stays ↦ elim (Bool-cases (not (commands_ok cs))) [
          | inl bad ↦ rw (some_commands, runs, leads, stays, bad) (same-KeepsRound r)
          | inr good ↦ rw (some_commands, runs, leads, stays, good) (enqueue-KeepsRound cs r)
        ]
      ]
    ]
  ]
]

pub check_barriers-KeepsRound : (r : Ctx) → KeepsRound r (check_barriers r)
unfolding KeepsRound
check_barriers-KeepsRound r =
    let c = check_barriers-Checked r in subst (KeepsRound r) (sym c.ctx) (inl (refl, refl, refl))
