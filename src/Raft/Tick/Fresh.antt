-- ===== src/Raft/Tick/Fresh.antt =====
-- Rounds of reads (Raft dissertation, section 6.4) at a leader of code/raft.h: which answers open the
-- reads that wait.
use mathlib.Core.List.{map}
use mathlib.Core.Path.{subst}
use kynovo.Common.{
  ℕ, ◌≤◌, ◌≡◌, ◌≢◌, ◌∙◌, inl, inr, refl, sym, Bool, true, false, ◌&&◌, ◌||◌, Option, none, some,
  List, [], ◌∷◌, arith, ◌==◌, if◌then◌else◌, Bool-cases, All, All-map,
}
use kynovo.Raft.State.{Ctx, Peer, Waiting, term_max}
use kynovo.Raft.Log.{Log}
use kynovo.Raft.Progress.Paths.{recv_append_entries_result_path}
use kynovo.Raft.Commit.Bounds.{advance_commit-shape}
use kynovo.Raft.Step.Fields.{step_down-SameCore}
use kynovo.Raft.Quorum.{update_peer, find_peer}
use kynovo.Raft.Commit.{advance_commit}
use kynovo.Raft.Step.{clear_votes, step_down, become_follower}
use kynovo.Raft.Progress.{
  AppendResult, answers_read, contact, progress, noted, answered, recv_append_entries_result,
}
use kynovo.Raft.Reads.{clear_acked}

-- An answer to AppendEntries with its sender.
abbrev pub Answer : Type 0
Answer = ℕ × AppendResult

-- A success of the sender in a term and a round.
abbrev pub confirms : ℕ → ℕ → ℕ → Answer → Bool
confirms term context id (from, x) =
    from == id && x.success && x.term == term && x.read_context == context

abbrev pub confirmed : ℕ → ℕ → List Answer → ℕ → Bool
confirmed term context [] id = false
confirmed term context (a ∷ got) id = confirms term context id a || confirmed term context got id

-- Every peer that counts got having answered the round has an answer in the list, of the present term
-- and round.
abbrev pub AllAnswered : ℕ → ℕ → List Answer → List Peer → Type 0
AllAnswered term context got ps =
    All (λ p. p.read_index_acked ≡ true → confirmed term context got p.id ≡ true) ps

abbrev pub IsHeard : List Answer → Ctx → Type 0
IsHeard got r = AllAnswered r.current_term r.waiting.read_context got r.members.peers

progress_lem :
    (log : Log) (x : AppendResult) (p : Peer)
    → ((progress log x p).id ≡ p.id) × ((progress log x p).read_index_acked ≡ p.read_index_acked)
unfolding progress
progress_lem log x p = (ground arith, ground arith)

contact_lem :
    (x : AppendResult) (w : Waiting) (p : Peer)
    → ((contact x w p).id ≡ p.id)
      × ((contact x w p).read_index_acked ≡ (p.read_index_acked || answers_read x w p))
unfolding contact
contact_lem x w p = (ground arith, ground arith)

module _ (term context : ℕ) (got : List Answer) where
  -- One answer more.
  later :
      (a : Answer) (ps : List Peer)
      → AllAnswered term context got ps
      → AllAnswered term context (a ∷ got) ps
  later a [] h = tt
  later a (p ∷ ps) h = ((λ e. or_right (confirms term context p.id a) _ (h.0 e)), later a ps h.1)
    where
      or_right : (a b : Bool) → b ≡ true → (a || b) ≡ true
      or_right a b e = ground (arith, e)

  update_peer-Answered :
      (log : Log) (from : ℕ) (x : AppendResult) (w : Waiting) (ps : List Peer)
      → x.term ≡ term
      → w.read_context ≡ context
      → AllAnswered term context got ps
      → AllAnswered term context
          ((from, x) ∷ got)
          (update_peer from (λ p. progress log x (contact x w p)) ps)
  unfolding update_peer
  update_peer-Answered log from x w [] t c h = tt
  update_peer-Answered log from x w (p ∷ ps) t c h = elim (Bool-cases (p.id == from)) [
    | inr other ↦
        rw other ((later (from, x) (p ∷ ps) h).0, update_peer-Answered log from x w ps t c h.1)
    | inl same ↦ rw same (here same, later (from, x) ps h.1)
  ]
    where
      here :
          (p.id == from) ≡ true
          → (progress log x (contact x w p)).read_index_acked ≡ true
          → confirmed term context ((from, x) ∷ got) (progress log x (contact x w p)).id ≡ true
      here same acked =
          let (id1, acked1) = progress_lem log x (contact x w p) in
          let (id2, acked2) = contact_lem x w p in
          let either : (p.read_index_acked || answers_read x w p) ≡ true =
            sym acked2 ∙ sym acked1 ∙ acked in
          rw (id1, id2)
            (elim (Bool-cases p.read_index_acked) [
              | inl before ↦ ground (arith, h.0 before)
              | inr not_yet ↦ ground (arith, either, not_yet, same, t, c)
            ])

-- Nobody has answered.
pub none_acked :
    (term context : ℕ) (got : List Answer) (ps : List Peer)
    → All (λ p. p.read_index_acked ≡ false) ps
    → AllAnswered term context got ps
none_acked term context got ps h =
    All-map _ _ ps (λ p e acked. absurd (true_ne_false (sym acked ∙ e))) h
  where
    true_ne_false : ◌≢◌ {A = Bool} true false
    true_ne_false e = cc

-- Becoming a follower forgets the answers.
clear_votes_lem : (ps : List Peer) → All (λ p. p.read_index_acked ≡ false) (map clear_votes ps)
clear_votes_lem [] = tt
clear_votes_lem (p ∷ ps) = (refl, clear_votes_lem ps)

pub clear_acked_lem : (ps : List Peer) → All (λ p. p.read_index_acked ≡ false) (map clear_acked ps)
clear_acked_lem [] = tt
clear_acked_lem (p ∷ ps) = (refl, clear_acked_lem ps)

pub step_down-IsHeard :
    (got : List Answer) (term leader : ℕ) (r : Ctx)
    → term ≤ term_max
    → IsHeard got (step_down term leader r)
unfolding become_follower
step_down-IsHeard got term leader r h =
    let core = step_down-SameCore term leader r h in
    none_acked _ _ got _ (
      subst (λ m. All (λ p. p.read_index_acked ≡ false) m.peers) (sym core.members)
        (clear_votes_lem r.members.peers))

advance_commit-IsHeard :
    (got : List Answer) (r : Ctx) → IsHeard got r → IsHeard got (advance_commit r)
advance_commit-IsHeard got r h = elim (advance_commit-shape r) [
  | inl e ↦ subst (IsHeard got) (sym e) h
  | inr (i, e) ↦ subst (IsHeard got) (sym e) h
]

answered-IsHeard :
    (got : List Answer) (from : ℕ) (x : AppendResult) (r : Ctx) (found : Option Peer)
    → x.term ≡ r.current_term
    → IsHeard got r
    → IsHeard ((from, x) ∷ got) (answered from x r found)
unfolding answered noted
answered-IsHeard got from x r none t h = later _ _ got (from, x) r.members.peers h
answered-IsHeard got from x r (some p) t h =
    by_kind p.is_learner (noted from x r)
      (update_peer-Answered _ _ got r.log from x r.waiting r.members.peers t refl h)
  where
    by_kind :
        (learner : Bool) (mid : Ctx)
        → IsHeard ((from, x) ∷ got) mid
        → IsHeard ((from, x) ∷ got) (if learner then mid else advance_commit mid)
    by_kind true mid g = g
    by_kind false mid g = advance_commit-IsHeard ((from, x) ∷ got) mid g

pub recv_append_entries_result-IsHeard :
    (got : List Answer) (from : ℕ) (x : AppendResult) (r : Ctx)
    → IsHeard got r
    → IsHeard ((from, x) ∷ got) (recv_append_entries_result from x r)
recv_append_entries_result-IsHeard got from x r h =
    let P = IsHeard ((from, x) ∷ got) in
    elim (recv_append_entries_result_path from x r) [
      | inl e ↦ subst P (sym e) (later _ _ got (from, x) r.members.peers h)
      | inr (inl (newer, within, e)) ↦
          subst P (sym e) (step_down-IsHeard ((from, x) ∷ got) x.term 0 r within)
      | inr (inr (same, leads, e)) ↦
          subst P (sym e) (answered-IsHeard got from x r (find_peer from r.members.peers) same h)
    ]
