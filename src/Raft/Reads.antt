-- ===== src/Raft/Reads.antt =====
-- Linearizable reads of code/raft.h: raft_barrier, raft_check_barriers, and the ReadIndex round of a
-- follower (raft_recv_read_index, raft_recv_read_index_result). A function's guard against a null
-- pointer has no counterpart.
pub mod Check
use mathlib.Core.List.{map}
use kynovo.Common.{
  drop, take, ◌++◌, max, true, leb, ◌%◌, ◌&&◌, not, ◌∷◌, ltb, ◌==◌, ◌||◌, ◌+◌, [], Bool, ℕ, List,
  false, if◌then◌else◌, add32, u64_mod,
}
use kynovo.Raft.Ids.{mask_has, id_valid}
use kynovo.Raft.State.{
  is_follower, term_max, phase_running, phase_ready, ready, set_memory, fail, is_leader, ok, Rc,
  Ctx, Peer, Waiting, Barrier, ReadIndexPending, ClientResult, allocate,
}
use kynovo.Raft.Step.{result_of, step_down}
use kynovo.Raft.Progress.{is_nil}

abbrev set_waiting : (Waiting → Waiting) → Ctx → Ctx
set_waiting f r = record r { waiting = f r.waiting }

-- A voter of either configuration may serve reads.
abbrev pub may_serve : Ctx → Bool
may_serve r = mask_has r.members.config_old r.id || mask_has r.members.config_new r.id

-- Not 0, which stands for no round.
abbrev next_context : ℕ → ℕ
next_context c = let c' = (c + 1) % u64_mod in if c' == 0 then 1 else c'

abbrev pub clear_acked : Peer → Peer
clear_acked p = record p { read_index_acked = false }

unfoldable pub read_round_restart : Ctx → Ctx
read_round_restart r = record r {
  members = record r.members { peers = map clear_acked r.members.peers };
  waiting = record r.waiting {
    read_context = next_context r.waiting.read_context;
    read_index_heartbeat_sent = false;
  };
}

-- The heartbeat is due at the next tick.
abbrev pub hurry : Ctx → Ctx
hurry r = record r { heartbeat_elapsed = r.heartbeat_ms }

unfoldable pub restart_if : Bool → Ctx → Ctx
unfolding read_round_restart
restart_if true r = read_round_restart r
restart_if false r = r

abbrev pub own_barrier : ℕ → Ctx → Barrier
own_barrier cookie r = record {
  cookie = cookie;
  target_index = r.commit_index;
  needs_gen = add32 r.waiting.read_barrier_gen 1;
}

-- The first barrier of a batch starts a round.
unfoldable pub leader_barrier : ℕ → Ctx → Rc × Ctx
unfolding allocate restart_if
leader_barrier cookie r =
    let (got, memory) = allocate r.output.memory in
    let r' =
      set_waiting (λ w. record w { read_barriers = w.read_barriers ++ own_barrier cookie r ∷ [] })
        (set_memory r memory) in
    if id_valid r.transfer.target
    then (fail, r)
    else if not (may_serve r)
    then (fail, r)
    else if got
    then (ok, hurry (restart_if (is_nil r.waiting.read_barriers) r'))
    else (fail, set_memory r memory)

unfoldable pub follower_barrier : ℕ → Ctx → Rc × Ctx
unfolding allocate
follower_barrier cookie r =
    let (got, memory) = allocate r.output.memory in
    if not (id_valid r.leader_id)
    then (fail, r)
    else if got
    then (
      ok,
      set_waiting
          (λ w. record w {
            follower_read_pending = w.follower_read_pending ++ cookie ∷ [];
            follower_read_waiting = w.follower_read_frozen == 0 || w.follower_read_waiting;
          })
          (set_memory r memory),
    )
    else (fail, set_memory r memory)

unfoldable pub barrier : ℕ → Ctx → Rc × Ctx
unfolding leader_barrier follower_barrier
barrier cookie r =
    if cookie == 0
    then (fail, r)
    else if not (r.phase == phase_running)
    then (fail, r)
    else if is_leader r.role
    then leader_barrier cookie r
    else if is_follower r.role
    then follower_barrier cookie r
    else (fail, r)

-- The test of `raft_check_barriers`.
unfoldable pub barrier_ready : Ctx → Barrier → Bool
barrier_ready r b =
    if is_leader r.role
    then r.leadership_confirmed
      && leb b.needs_gen r.waiting.read_barrier_gen
      && leb (max b.target_index r.commit_index) r.last_applied
    else leb b.target_index r.last_applied

-- The loop's state: the barriers that stay, whether it was left for want of memory, and the context.
pub record Scan : Type 0 where
  pub kept : List Barrier
  pub stopped : Bool
  pub ctx : Ctx

abbrev stay : Barrier → Scan → Scan
stay b s = record s { kept = s.kept ++ b ∷ [] }

abbrev pub emit : ClientResult → Ctx → Ctx
emit x r = record r { output = record r.output { results = r.output.results ++ x ∷ [] } }

unfoldable pub check_step : Barrier → Scan → Scan
unfolding barrier_ready allocate
check_step b s =
    let (got, memory) = allocate s.ctx.output.memory in
    if s.stopped || not (barrier_ready s.ctx b)
    then stay b s
    else if got
    then record s { ctx = emit (result_of s.ctx ready b.cookie) (set_memory s.ctx memory) }
    else stay b (record s { stopped = true; ctx = set_memory s.ctx memory })

unfoldable pub check_scan : List Barrier → Scan → Scan
unfolding check_step
check_scan [] s = s
check_scan (b ∷ bs) s = check_scan bs (check_step b s)

unfoldable pub check_barriers : Ctx → Ctx
unfolding check_scan
check_barriers r =
    let s = check_scan r.waiting.read_barriers (record { kept = []; stopped = false; ctx = r }) in
    set_waiting (λ w. record w { read_barriers = s.kept }) s.ctx

-- raft_read_index_req and raft_read_index_result
pub record ReadIndexReq : Type 0 where
  pub term : ℕ
  pub context : ℕ

pub record ReadIndexResult : Type 0 where
  pub term : ℕ
  pub read_index : ℕ
  pub context : ℕ

-- The first request of a batch starts a round.
unfoldable pub enqueue_read : ℕ → ReadIndexReq → Ctx → Ctx
unfolding restart_if allocate
enqueue_read from rpc r =
    let (got, memory) = allocate r.output.memory in
    let r' =
      set_waiting
        (λ w. record w {
          read_index_pending =
              w.read_index_pending ++ record { from = from; context = rpc.context } ∷ [];
        })
        (set_memory r memory) in
    if got then hurry (restart_if (is_nil r.waiting.read_index_pending) r') else set_memory r memory

unfoldable pub recv_read_index : ℕ → ReadIndexReq → Ctx → Rc × Ctx
unfolding enqueue_read
recv_read_index from rpc r =
    if ltb r.phase phase_ready
    then (fail, r)
    else if not (id_valid from)
    then (ok, r)
    else if not (is_leader r.role)
    then (ok, r)
    else if ltb rpc.term r.current_term
    then (ok, r)
    else if ltb r.current_term rpc.term
    then (ok, if leb (term_max + 1) rpc.term then r else step_down rpc.term 0 r)
    else if not (may_serve r)
    then (ok, r)
    else (ok, enqueue_read from rpc r)

abbrev pub answered_barrier : ReadIndexResult → ℕ → Barrier
answered_barrier result cookie = record {
  cookie = cookie;
  target_index = result.read_index;
  needs_gen = 0;
}

-- The batch that was sent turns into barriers; the reads behind it start the next round.
unfoldable pub resolve_batch : ReadIndexResult → Ctx → Rc × Ctx
unfolding allocate
resolve_batch result r =
    let (got, memory) = allocate r.output.memory in
    let w = r.waiting in
    let n = w.follower_read_frozen in
    if got
    then (
      ok,
      record (set_memory r memory) {
        waiting = record w {
          read_barriers =
              w.read_barriers ++ map (answered_barrier result) (take n w.follower_read_pending);
          follower_read_pending = drop n w.follower_read_pending;
          follower_read_frozen = 0;
          follower_read_elapsed = 0;
          follower_read_waiting =
              not (is_nil (drop n w.follower_read_pending)) || w.follower_read_waiting;
        };
      },
    )
    else (fail, set_memory r memory)

unfoldable pub recv_read_index_result : ℕ → ReadIndexResult → Ctx → Rc × Ctx
unfolding resolve_batch
recv_read_index_result from result r =
    if ltb r.phase phase_ready
    then (fail, r)
    else if not (id_valid from)
    then (ok, r)
    else if r.waiting.follower_read_frozen == 0
    then (ok, r)
    else if not (result.context == r.waiting.follower_read_context)
    then (ok, r)
    else if ltb term_max result.term
    then (ok, r)
    else if ltb r.current_term result.term
    then (ok, step_down result.term 0 r)
    else if ltb result.term r.current_term
    then (ok, r)
    else resolve_batch result r
