-- ===== src/Raft/Tick/Calls.antt =====
-- What the calls of a leader of code/raft.h that serves reads do to the answers of the present round.
use mathlib.Core.List.{map}
use mathlib.Core.Path.{subst}
use kynovo.Common.{
  ℕ, ◌+◌, ◌≤◌, ◌≡◌, ◌⊎◌, ◌∙◌, inl, inr, refl, sym, Bool, true, false, not, List, [], ◌∷◌, arith,
  ltb, leb, ◌==◌, Bool-cases, All,
}
use kynovo.Raft.Ids.{id_valid}
use kynovo.Raft.State.{
  Ctx, Peer, is_leader, is_follower, phase_running, phase_ready, term_max, allocate,
}
use kynovo.Raft.Step.{step_down}
use kynovo.Raft.Progress.{is_nil}
use kynovo.Raft.Reads.{
  clear_acked, ReadIndexReq, restart_if, read_round_restart, barrier, leader_barrier,
  follower_barrier, may_serve, enqueue_read, recv_read_index,
}
use kynovo.Raft.Send.Faithful.{new_round, Told-then, grow_sizes-Told, queue_all-Told}
use kynovo.Raft.Send.{
  grow_sizes, heartbeat, send_round, queue_all, queue_append_entries, queue_snapshot, queue_entries,
  new_window,
}
use kynovo.Raft.Tick.Fresh.{
  Answer, AllAnswered, IsHeard, none_acked, clear_acked_lem, step_down-IsHeard,
}

-- The peers, the term and the round are the same, or all the answers are forgotten.
unfoldable pub KeepsRound : Ctx → Ctx → Type 0
KeepsRound r out =
    ((out.members.peers ≡ r.members.peers)
      × (out.current_term ≡ r.current_term)
      × (out.waiting.read_context ≡ r.waiting.read_context))
    ⊎ (out.members.peers ≡ map clear_acked r.members.peers)

pub KeepsRound-IsHeard :
    (got : List Answer) (r out : Ctx) → KeepsRound r out → IsHeard got r → IsHeard got out
unfolding KeepsRound
KeepsRound-IsHeard got r out (inl (peers, term, context)) h = rw (peers, term, context) h
KeepsRound-IsHeard got r out (inr cleared) h =
    none_acked _ _ got _ (
      subst (All (λ p. p.read_index_acked ≡ false)) (sym cleared) (clear_acked_lem r.members.peers))

restart_if-KeepsRound : (first : Bool) (r : Ctx) → KeepsRound r (restart_if first r)
unfolding KeepsRound restart_if read_round_restart
restart_if-KeepsRound true r = inr refl
restart_if-KeepsRound false r = inl (refl, refl, refl)

leader_barrier-KeepsRound : (cookie : ℕ) (r : Ctx) → KeepsRound r (leader_barrier cookie r).1
unfolding KeepsRound leader_barrier
leader_barrier-KeepsRound cookie r = elim (Bool-cases (id_valid r.transfer.target)) [
  | inl moving ↦ rw moving (inl (refl, refl, refl))
  | inr stays ↦ elim (Bool-cases (not (may_serve r))) [
    | inl removed ↦ rw (stays, removed) (inl (refl, refl, refl))
    | inr voter ↦ elim (Bool-cases (allocate r.output.memory).0) [
      | inl got ↦ rw (stays, voter, got) (restart_if-KeepsRound (is_nil r.waiting.read_barriers) _)
      | inr full ↦ rw (stays, voter, full) (inl (refl, refl, refl))
    ]
  ]
]

follower_barrier-KeepsRound : (cookie : ℕ) (r : Ctx) → KeepsRound r (follower_barrier cookie r).1
unfolding KeepsRound follower_barrier
follower_barrier-KeepsRound cookie r = inl (ground arith, ground arith, ground arith)

pub same-KeepsRound : (r : Ctx) → KeepsRound r r
unfolding KeepsRound
same-KeepsRound r = inl (refl, refl, refl)

pub barrier-KeepsRound : (cookie : ℕ) (r : Ctx) → KeepsRound r (barrier cookie r).1
unfolding barrier
barrier-KeepsRound cookie r = elim (Bool-cases (cookie == 0)) [
  | inl null ↦ rw null (same-KeepsRound r)
  | inr real ↦ elim (Bool-cases (not (r.phase == phase_running))) [
    | inl idle ↦ rw (real, idle) (same-KeepsRound r)
    | inr runs ↦ elim (Bool-cases (is_leader r.role)) [
      | inl leads ↦ rw (real, runs, leads) (leader_barrier-KeepsRound cookie r)
      | inr other ↦ elim (Bool-cases (is_follower r.role)) [
        | inl follows ↦ rw (real, runs, other, follows) (follower_barrier-KeepsRound cookie r)
        | inr stands ↦ rw (real, runs, other, stands) (same-KeepsRound r)
      ]
    ]
  ]
]

enqueue_read-KeepsRound :
    (from : ℕ) (rpc : ReadIndexReq) (r : Ctx) → KeepsRound r (enqueue_read from rpc r)
unfolding KeepsRound enqueue_read
enqueue_read-KeepsRound from rpc r = elim (Bool-cases (allocate r.output.memory).0) [
  | inl got ↦ rw got (restart_if-KeepsRound (is_nil r.waiting.read_index_pending) _)
  | inr full ↦ rw full (inl (refl, refl, refl))
]

-- A request does nothing, or makes the leader step down before a higher term, or is queued.
recv_read_index_path :
    (from : ℕ) (rpc : ReadIndexReq) (r : Ctx)
    → ((recv_read_index from rpc r).1 ≡ r)
      ⊎ (((rpc.term ≤ term_max) × ((recv_read_index from rpc r).1 ≡ step_down rpc.term 0 r))
          ⊎ ((recv_read_index from rpc r).1 ≡ enqueue_read from rpc r))
unfolding recv_read_index
recv_read_index_path from rpc r = elim (Bool-cases (ltb r.phase phase_ready)) [
  | inl early ↦ rw early (inl refl)
  | inr runs ↦ elim (Bool-cases (not (id_valid from))) [
    | inl bad ↦ rw (runs, bad) (inl refl)
    | inr good ↦ elim (Bool-cases (not (is_leader r.role))) [
      | inl other ↦ rw (runs, good, other) (inl refl)
      | inr leads ↦ elim (Bool-cases (ltb rpc.term r.current_term)) [
        | inl older ↦ rw (runs, good, leads, older) (inl refl)
        | inr not_older ↦ elim (Bool-cases (ltb r.current_term rpc.term)) [
          | inl newer ↦ elim (Bool-cases (leb (term_max + 1) rpc.term)) [
            | inl over ↦ rw (runs, good, leads, not_older, newer, over) (inl refl)
            | inr within ↦
                rw (runs, good, leads, not_older, newer, within)
                  (inr (inl (ground (arith, within), refl)))
          ]
          | inr same ↦ elim (Bool-cases (not (may_serve r))) [
            | inl removed ↦ rw (runs, good, leads, not_older, same, removed) (inl refl)
            | inr voter ↦ rw (runs, good, leads, not_older, same, voter) (inr (inr refl))
          ]
        ]
      ]
    ]
  ]
]

pub recv_read_index-IsHeard :
    (got : List Answer) (from : ℕ) (rpc : ReadIndexReq) (r : Ctx)
    → IsHeard got r
    → IsHeard got (recv_read_index from rpc r).1
recv_read_index-IsHeard got from rpc r h = elim (recv_read_index_path from rpc r) [
  | inl e ↦ subst (IsHeard got) (sym e) h
  | inr (inl (within, e)) ↦ subst (IsHeard got) (sym e) (step_down-IsHeard got rpc.term 0 r within)
  | inr (inr e) ↦
      subst (IsHeard got) (sym e)
        (KeepsRound-IsHeard got r _ (enqueue_read-KeepsRound from rpc r) h)
]

queue_append_entries_lem :
    (p : Peer) (offset : ℕ) (r : Ctx)
    → ((queue_append_entries p offset r).peer.id ≡ p.id)
      × ((queue_append_entries p offset r).peer.read_index_acked ≡ p.read_index_acked)
unfolding queue_append_entries queue_snapshot queue_entries
queue_append_entries_lem p offset r = (ground arith, ground arith)

module _ (term context : ℕ) (got : List Answer) where
  queue_all-Answered :
      (ps : List Peer) (offset : ℕ) (r : Ctx)
      → AllAnswered term context got ps
      → AllAnswered term context got (queue_all ps offset r).0
  unfolding queue_all
  queue_all-Answered [] offset r h = tt
  queue_all-Answered (p ∷ ps) offset r h =
      let q = queue_append_entries p offset r in
      let (same, acked) = queue_append_entries_lem p offset r in
      (λ e. rw same (h.0 (sym acked ∙ e)), queue_all-Answered ps q.offset q.ctx h.1)

  new_window-Answered :
      (ps : List Peer)
      → AllAnswered term context got ps
      → AllAnswered term context got (map new_window ps)
  new_window-Answered [] h = tt
  new_window-Answered (p ∷ ps) h = (h.0, new_window-Answered ps h.1)

send_round-IsHeard : (got : List Answer) (r : Ctx) → IsHeard got r → IsHeard got (send_round r)
unfolding send_round
send_round-IsHeard got r h =
    let g = (grow_sizes-Told r).same in
    let told =
      Told-then r r.output (grow_sizes r) (λ c. (queue_all (grow_sizes r).members.peers 0 c).1)
        (grow_sizes-Told r) (λ o. queue_all-Told r (grow_sizes r).members.peers 0 o) in
    subst
      (λ c.
        AllAnswered c.current_term c.waiting.read_context got
          (queue_all (grow_sizes r).members.peers 0 (grow_sizes r)).0)
      (sym told.same)
      (queue_all-Answered r.current_term r.waiting.read_context got (grow_sizes r).members.peers 0
        (grow_sizes r)
        (subst (λ c. AllAnswered r.current_term r.waiting.read_context got c.members.peers) (sym g)
          h))

pub heartbeat-IsHeard : (got : List Answer) (r : Ctx) → IsHeard got r → IsHeard got (heartbeat r)
unfolding heartbeat
heartbeat-IsHeard got r h =
    send_round-IsHeard got (new_round r) (new_window-Answered _ _ got r.members.peers h)
