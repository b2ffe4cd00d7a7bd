-- ===== src/Raft/Tick/Serving.antt =====
-- A leader of code/raft.h that serves reads, as a sequence of calls, and what opens the reads.
use mathlib.Core.Path.{subst}
use kynovo.Common.{
  and_left, and_right, leb→le, ℕ, ◌+◌, ◌≤◌, ◌≡◌, ◌≢◌, ◌⊎◌, ◌∙◌, inl, inr, refl, sym, ap, Bool, true,
  false, ◌&&◌, List, [], ◌∷◌, arith, Bool-cases, of_bool, count_if, All, add32,
}
use kynovo.Raft.State.{Ctx, Peer}
use kynovo.Raft.Election.{count_if-le-All}
use kynovo.Raft.Quorum.{is_voter, quorum_size_of, self_in}
use kynovo.Raft.Progress.{AppendResult, recv_append_entries_result}
use kynovo.Raft.Progress.{is_nil}
use kynovo.Raft.Reads.{ReadIndexReq, barrier, recv_read_index, check_barriers}
use kynovo.Raft.Commit.{advance_commit}
use kynovo.Raft.Persist.{persist_complete}
use kynovo.Raft.Client.{Command, submit}
use kynovo.Raft.Tick.Between.{
  advance_commit-KeepsRound, check_barriers-KeepsRound, persist_complete-KeepsRound,
  submit-KeepsRound,
}
use kynovo.Raft.Send.{heartbeat}
use kynovo.Raft.Tick.{fresh_ack, in_config, reaches, reached, open_reads}
use kynovo.Raft.Tick.Fresh.{
  Answer, confirmed, AllAnswered, IsHeard, none_acked, recv_append_entries_result-IsHeard,
}
use kynovo.Raft.Tick.Calls.{
  KeepsRound-IsHeard, barrier-KeepsRound, recv_read_index-IsHeard, heartbeat-IsHeard,
}

-- The calls that serve reads at a leader, from a context in which nobody has answered on, with all the
-- answers that it was given, the last one first. Other calls do not come between them.
pub data Serves : List Answer → Ctx → Type 0 where
  begins : (r : Ctx) → All (λ p. p.read_index_acked ≡ false) r.members.peers → Serves [] r
  asks : (got : List Answer) (r : Ctx) (cookie : ℕ) → Serves got r → Serves got (barrier cookie r).1
  requests :
      (got : List Answer) (r : Ctx) (from : ℕ) (rpc : ReadIndexReq)
      → Serves got r
      → Serves got (recv_read_index from rpc r).1
  sends : (got : List Answer) (r : Ctx) → Serves got r → Serves got (heartbeat r)
  opens : (got : List Answer) (r : Ctx) → Serves got r → Serves got (open_reads r)
  commits : (got : List Answer) (r : Ctx) → Serves got r → Serves got (advance_commit r)
  resolves : (got : List Answer) (r : Ctx) → Serves got r → Serves got (check_barriers r)
  reports :
      (got : List Answer) (r : Ctx) (index : ℕ)
      → Serves got r
      → Serves got (persist_complete index r).1
  takes :
      (got : List Answer) (r : Ctx) (cs : List Command) → Serves got r → Serves got (submit cs r).1
  hears :
      (got : List Answer) (r : Ctx) (from : ℕ) (x : AppendResult)
      → Serves got r
      → Serves ((from, x) ∷ got) (recv_append_entries_result from x r)

-- The reads stay closed, or a round of fresh answers opens them.
open_reads_cases :
    (r : Ctx)
    → (open_reads r ≡ r)
      ⊎ ((reached fresh_ack r ≡ true)
          × (open_reads r ≡ record r {
            waiting = record r.waiting { read_barrier_gen = add32 r.waiting.read_barrier_gen 1 };
          }))
unfolding open_reads
open_reads_cases r = elim (Bool-cases (is_nil r.waiting.read_barriers)) [
  | inl nobody ↦ rw nobody (inl refl)
  | inr waits ↦ elim (Bool-cases (reached fresh_ack r)) [
    | inl yea ↦ rw (waits, yea) (inr (refl, refl))
    | inr nay ↦ rw (waits, nay) (inl refl)
  ]
]

open_reads-IsHeard : (got : List Answer) (r : Ctx) → IsHeard got r → IsHeard got (open_reads r)
open_reads-IsHeard got r h = elim (open_reads_cases r) [
  | inl e ↦ subst (IsHeard got) (sym e) h
  | inr (yea, e) ↦ subst (IsHeard got) (sym e) h
]

Serves-IsHeard : (got : List Answer) (r : Ctx) → Serves got r → IsHeard got r
Serves-IsHeard got r (begins _ silent) =
    none_acked r.current_term r.waiting.read_context [] r.members.peers silent
Serves-IsHeard _ _ (asks got r cookie s) =
    KeepsRound-IsHeard got r _ (barrier-KeepsRound cookie r) (Serves-IsHeard got r s)
Serves-IsHeard _ _ (requests got r from rpc s) =
    recv_read_index-IsHeard got from rpc r (Serves-IsHeard got r s)
Serves-IsHeard _ _ (sends got r s) = heartbeat-IsHeard got r (Serves-IsHeard got r s)
Serves-IsHeard _ _ (opens got r s) = open_reads-IsHeard got r (Serves-IsHeard got r s)
Serves-IsHeard _ _ (commits got r s) =
    KeepsRound-IsHeard got r _ (advance_commit-KeepsRound r) (Serves-IsHeard got r s)
Serves-IsHeard _ _ (resolves got r s) =
    KeepsRound-IsHeard got r _ (check_barriers-KeepsRound r) (Serves-IsHeard got r s)
Serves-IsHeard _ _ (reports got r index s) =
    KeepsRound-IsHeard got r _ (persist_complete-KeepsRound index r) (Serves-IsHeard got r s)
Serves-IsHeard _ _ (takes got r cs s) =
    KeepsRound-IsHeard got r _ (submit-KeepsRound cs r) (Serves-IsHeard got r s)
Serves-IsHeard _ _ (hears got r from x s) =
    recv_append_entries_result-IsHeard got from x r (Serves-IsHeard got r s)

-- The voters of a configuration who have answered the present round, with the node itself, are a
-- quorum.
abbrev pub Quorate : Bool → List Answer → Ctx → Type 0
Quorate old got r =
    quorum_size_of old r
    ≤ of_bool (self_in old r)
      + count_if
          (λ p.
            of_bool (is_voter old p && confirmed r.current_term r.waiting.read_context got p.id))
          r.members.peers

acks-le :
    (term context : ℕ) (got : List Answer) (old : Bool) (ps : List Peer)
    → AllAnswered term context got ps
    → All
        (λ p.
          of_bool (fresh_ack p && in_config old p)
          ≤ of_bool (is_voter old p && confirmed term context got p.id))
        ps
acks-le term context got old [] h = tt
acks-le term context got old (p ∷ ps) h =
    (one (Bool-cases p.read_index_acked), acks-le term context got old ps h.1)
  where
    one :
        (p.read_index_acked ≡ true) ⊎ (p.read_index_acked ≡ false)
        → of_bool (fresh_ack p && in_config old p)
          ≤ of_bool (is_voter old p && confirmed term context got p.id)
    one (inl acked) = rw (acked, h.0 acked) (ground arith)
    one (inr not_yet) = rw not_yet (ground arith)

reaches-Quorate :
    (old : Bool) (got : List Answer) (r : Ctx)
    → IsHeard got r
    → reaches fresh_ack old r ≡ true
    → Quorate old got r
unfolding reaches
reaches-Quorate old got r h e =
    let counted = count_if-le-All _ _ r.members.peers (acks-le _ _ got old r.members.peers h) in
    omega (arith, counted, leb→le _ _ e)

reached-Quorate :
    (got : List Answer) (r : Ctx)
    → IsHeard got r
    → reached fresh_ack r ≡ true
    → Quorate false got r × (r.members.config_joint ≡ true → Quorate true got r)
unfolding reached
reached-Quorate got r h e = elim (Bool-cases r.members.config_joint) [
  | inr simple ↦ (
    reaches-Quorate false got r h (simp simple at e),
    λ joint. absurd (true_ne_false (sym joint ∙ simple)),
  )
  | inl joint ↦
      let both : (reaches fresh_ack true r && reaches fresh_ack false r) ≡ true = simp joint at e in
      (
        reaches-Quorate false got r h (and_right _ _ both),
        λ j. reaches-Quorate true got r h (and_left _ _ both),
      )
]
  where
    true_ne_false : ◌≢◌ {A = Bool} true false
    true_ne_false h = cc

-- From a leader at which nobody has answered the present round, after any sequence of barriers,
-- ReadIndex requests, heartbeats, answers to AppendEntries, commits, checks of the barriers, reports
-- of a durable index, submitted commands and earlier openings, the reads that wait
-- are opened only when, in the present configuration and in a joint one in both, a quorum of the voters has answered the present round successfully in the
-- present term, the node itself counting as one.
pub open_reads-Quorate :
    (got : List Answer) (r : Ctx)
    → Serves got r
    → (open_reads r).waiting.read_barrier_gen ≢ r.waiting.read_barrier_gen
    → Quorate false got r × (r.members.config_joint ≡ true → Quorate true got r)
open_reads-Quorate got r s moved = elim (open_reads_cases r) [
  | inl e ↦ absurd (moved (ap (λ c. c.waiting.read_barrier_gen) e))
  | inr (yea, e) ↦ reached-Quorate got r (Serves-IsHeard got r s) yea
]
