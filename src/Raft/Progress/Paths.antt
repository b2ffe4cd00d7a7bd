-- ===== src/Raft/Progress/Paths.antt =====
-- The paths of raft_recv_append_entries_result of code/raft.h.
use kynovo.Common.{ℕ, ◌≤◌, ◌<◌, ◌≡◌, ◌⊎◌, inl, inr, refl, true, not, arith, ltb, Bool-cases}
use kynovo.Raft.Ids.{id_valid}
use kynovo.Raft.State.{Ctx, is_leader, term_max}
use kynovo.Raft.Quorum.{find_peer}
use kynovo.Raft.Step.{step_down}
use kynovo.Raft.Progress.{AppendResult, answered, recv_append_entries_result}

-- The call does nothing, or steps down before a higher term, or takes an answer of its own term.
abbrev pub Course : ℕ → AppendResult → Ctx → Ctx → Type 0
Course from x r out =
    (out ≡ r)
    ⊎ (((r.current_term < x.term) × (x.term ≤ term_max) × (out ≡ step_down x.term 0 r))
        ⊎ ((x.term ≡ r.current_term)
            × (is_leader r.role ≡ true)
            × (out ≡ answered from x r (find_peer from r.members.peers))))

pub recv_append_entries_result_path :
    (from : ℕ) (x : AppendResult) (r : Ctx) → Course from x r (recv_append_entries_result from x r)
unfolding recv_append_entries_result
recv_append_entries_result_path from x r = elim (Bool-cases (not (id_valid from))) [
  | inl bad ↦ rw bad (inl refl)
  | inr good ↦ elim (Bool-cases (not (is_leader r.role))) [
    | inl other ↦ rw (good, other) (inl refl)
    | inr leads ↦ elim (Bool-cases (ltb term_max x.term)) [
      | inl over ↦ rw (good, leads, over) (inl refl)
      | inr within ↦ elim (Bool-cases (ltb r.current_term x.term)) [
        | inl newer ↦
            rw (good, leads, within, newer)
              (inr (inl (ground (arith, newer), ground (arith, within), refl)))
        | inr not_newer ↦ elim (Bool-cases (ltb x.term r.current_term)) [
          | inl older ↦ rw (good, leads, within, not_newer, older) (inl refl)
          | inr not_older ↦
              rw (good, leads, within, not_newer, not_older)
                (inr (inr (ground (arith, not_newer, not_older), ground (arith, leads), refl)))
        ]
      ]
    ]
  ]
]
