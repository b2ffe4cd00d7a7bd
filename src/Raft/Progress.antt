-- ===== src/Raft/Progress.antt =====
-- A follower's progress at the leader: raft_recv_append_entries_result of code/raft.h.
pub mod Search
pub mod Bounds
pub mod Paths
pub mod Counted
use kynovo.Common.{
  ℕ, zero, suc, ◌+◌, ◌-◌, ◌/◌, min, Bool, true, false, not, ◌&&◌, ◌||◌, Option, none, some, List,
  [], ◌∷◌, ltb, leb, ◌==◌, if◌then◌else◌,
}
use kynovo.Raft.Ids.{id_valid}
use kynovo.Raft.Log.{Log, last_index, term_at}
use kynovo.Raft.State.{Ctx, Peer, Waiting, is_leader, term_max}
use kynovo.Raft.Quorum.{find_peer, update_peer}
use kynovo.Raft.Step.{step_down}
use kynovo.Raft.Commit.{advance_commit}

-- raft_append_entries_result
pub record AppendResult : Type 0 where
  pub term : ℕ
  pub success : Bool
  pub rejected : ℕ
  pub last_log_index : ℕ
  pub conflict_term : ℕ
  pub conflict_first_index : ℕ
  pub read_context : ℕ

abbrev pub is_nil {ℓ} : {A : Type ℓ} → List A → Bool
is_nil [] = true
is_nil (x ∷ xs) = false

-- An answer to the heartbeat of the reads' round.
abbrev pub answers_read : AppendResult → Waiting → Peer → Bool
answers_read result w p =
    result.success
    && result.read_context == w.read_context
    && (not (is_nil w.read_index_pending) || not (is_nil w.read_barriers))
    && w.read_index_heartbeat_sent
    && not p.read_index_acked
    && not p.is_learner

unfoldable pub contact : AppendResult → Waiting → Peer → Peer
contact result w p =
    let p' = if answers_read result w p then record p { read_index_acked = true } else p in
    if p.is_learner then p' else record p' { quorum_acked = true; missed_rounds = 0 }

-- The binary search for the first index whose term exceeds `t`; an interval needs no more rounds than
-- it has indices.
unfoldable pub term_search : Log → ℕ → ℕ → ℕ → ℕ → ℕ
term_search log t zero a b = a
term_search log t (suc fuel) a b =
    let mid = a + (b - a) / 2 in
    let below = term_search log t fuel a mid in
    let above = term_search log t fuel (mid + 1) b in
    if ltb a b then (if ltb t (term_at log mid) then below else above) else a

abbrev pub past_term : Log → ℕ → ℕ
past_term log t =
    term_search log t (last_index log - log.last_included_index) (log.last_included_index + 1)
      (last_index log + 1)

-- Where to go on after a conflict: behind the last entry of the follower's term, or at its first.
unfoldable pub resume_at : Log → AppendResult → ℕ
resume_at log result =
    let a = past_term log result.conflict_term in
    let next =
      if ltb (log.last_included_index + 1) a && term_at log (a - 1) == result.conflict_term
      then a
      else result.conflict_first_index in
    if ltb (last_index log + 1) next then last_index log + 1 else next

abbrev pub after_success : Log → AppendResult → Peer → Peer
after_success log result p =
    let new_match = min result.last_log_index (last_index log) in
    if leb p.match_index new_match
    then record p { match_index = new_match; next_index = new_match + 1 }
    else p

abbrev pub after_refusal : Log → AppendResult → Peer → Peer
after_refusal log result p =
    if ltb 0 result.conflict_term && ltb 0 result.conflict_first_index
    then record p { next_index = resume_at log result }
    else if ltb 0 result.rejected
    then record p { next_index = result.rejected }
    else if ltb 1 p.next_index
    then record p { next_index = p.next_index - 1 }
    else p

unfoldable pub progress : Log → AppendResult → Peer → Peer
progress log result p =
    if result.success then after_success log result p else after_refusal log result p

abbrev pub with_peers : (List Peer → List Peer) → Ctx → Ctx
with_peers f r = record r { members = record r.members { peers = f r.members.peers } }

unfoldable pub noted : ℕ → AppendResult → Ctx → Ctx
unfolding progress contact
noted from result r =
    with_peers (update_peer from (λ p. progress r.log result (contact result r.waiting p))) r

unfoldable pub answered : ℕ → AppendResult → Ctx → Option Peer → Ctx
unfolding noted
answered from result r none = r
answered from result r (some p) =
    if p.is_learner then noted from result r else advance_commit (noted from result r)

-- The source's code is 0 on every path.
unfoldable pub recv_append_entries_result : ℕ → AppendResult → Ctx → Ctx
unfolding answered
recv_append_entries_result from result r =
    if not (id_valid from)
    then r
    else if not (is_leader r.role)
    then r
    else if ltb term_max result.term
    then r
    else if ltb r.current_term result.term
    then step_down result.term 0 r
    else if ltb result.term r.current_term
    then r
    else answered from result r (find_peer from r.members.peers)
