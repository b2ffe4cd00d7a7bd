-- ===== src/Raft/Send/Received.antt =====
-- A heartbeat of code/raft.h at its follower: raft_queue_append_entries, then raft_recv_append_entries.
use kynovo.Common.{
  get_elem?-past, ℕ, zero, suc, ◌+◌, ◌-◌, ◌≤◌, ◌<◌, ◌≡◌, ◌⊎◌, refl, sym, ap, ◌∙◌, inl, inr, false,
  some, List, [], ◌∷◌, map, arith, length, get_elem?, ltb, leb, ◌==◌, Bool-cases, All,
}
use kynovo.Raft.Log.{Log, Entry, last_index, term_of, term_at, entry_at}
use kynovo.Raft.Log.Agree.{term_at-Agrees}
use kynovo.Raft.State.{Ctx, append_entries, is_leader, term_max}
use kynovo.Raft.Append.{RpcEntry, AppendEntries, recv_append_entries}
use kynovo.Raft.Append.Entries.{HeldFrom}
use kynovo.Raft.Append.Matching.{IsFine, recv_append_entries-Established}
use kynovo.Raft.Send.Faithful.{IsFaithful}

abbrev pub rpc_entry : Entry → RpcEntry
rpc_entry e = record {
  term = some e.term;
  kind = some e.kind;
  bytes = e.bytes;
  cfg_old = e.cfg_old;
  cfg_new = e.cfg_new;
  cfg_learners = e.cfg_learners;
}

-- The message as its receiver reads it.
abbrev pub rpc_of : (term id prev prev_term : ℕ) → List Entry → (commit context : ℕ) → AppendEntries
rpc_of term id prev prev_term es commit context = record {
  term = term;
  leader_id = id;
  prev_log_index = prev;
  prev_log_term = prev_term;
  entries = map rpc_entry es;
  leader_commit = commit;
  read_context = context;
}

-- Two logs have the same terms from one index to another.
abbrev pub SameTerms : ℕ → ℕ → Log → Log → Type 0
SameTerms low high a b = (i : ℕ) → low ≤ i → i ≤ high → term_at a i ≡ term_at b i

-- Known kinds, and terms below the cap.
abbrev pub IsSound : List Entry → Type 0
IsSound es = All (λ e. (e.kind ≤ 2) × (e.term ≤ term_max)) es

IsSound-IsFine : (es : List Entry) → IsSound es → IsFine (map rpc_entry es)
IsSound-IsFine [] h = tt
IsSound-IsFine (e ∷ es) ((kind, term), h) = ((ground arith, ground arith), IsSound-IsFine es h)

-- An entry's term, above the base.
term_at-entry_at :
    (log : Log) (idx : ℕ)
    → log.last_included_index < idx
    → term_at log idx ≡ term_of (entry_at log idx)
unfolding term_at entry_at term_of
term_at-entry_at log idx h =
    let above : leb idx log.last_included_index ≡ false = ground arith in
    elim (Bool-cases (ltb (last_index log) idx)) [
      | inr inside ↦ rw (above, inside) refl
      | inl past ↦
          rw
            (
              above,
              past,
              get_elem?-past log.entries (idx - log.last_included_index - 1)
                  (ground (arith, past, h)),
            )
            refl
    ]

HeldFrom-terms :
    (rpc : AppendEntries) (es : List Entry) (idx : ℕ) (log : Log) (j : ℕ)
    → j < length es
    → HeldFrom rpc (map rpc_entry es) idx log
    → term_at log (idx + j) ≡ term_of (get_elem? es j)
unfolding term_of
HeldFrom-terms rpc [] idx log j h held = absurd (omega (arith, h))
HeldFrom-terms rpc (e ∷ es) idx log zero h held = ap (term_at log) (omega arith) ∙ held.0
HeldFrom-terms rpc (e ∷ es) idx log (suc j) h held =
    ap (term_at log) (omega arith) ∙ HeldFrom-terms rpc es (idx + 1) log j (omega (arith, h)) held.1

-- A faithful message of a leader that a follower of the same term receives, when the follower's terms
-- from `low` up to the entry before the message's are the leader's: then they are the leader's up to
-- the message's last entry.
pub recv_append_entries-SameTerms :
    (leader f : Ctx) (low from to term id prev prev_term : ℕ) (es : List Entry) (commit context : ℕ)
    → IsFaithful leader (append_entries to term id prev prev_term es commit context)
    → 0 < from
    → 0 < id
    → term ≤ term_max
    → term ≡ f.current_term
    → is_leader f.role ≡ false
    → f.log.last_included_index ≤ prev
    → prev ≤ last_index f.log
    → low ≤ prev
    → SameTerms low prev f.log leader.log
    → IsSound es
    → f.output.memory ≡ []
    → SameTerms low
        (prev + length es)
        (recv_append_entries from (rpc_of term id prev prev_term es commit context) f).1.log
        leader.log
unfolding IsFaithful
recv_append_entries-SameTerms leader f low from to term id prev prev_term es commit context
      (t, i, c, x, base, last, found) vf vl top same role bottom high start agree sound memory =
    let rpc = rpc_of term id prev prev_term es commit context in
    let matches : ((prev ≡ 0) × (f.log.last_included_index ≡ 0))
        ⊎ ((0 < prev)
            × (prev ≤ last_index f.log)
            × (f.log.last_included_index ≤ prev)
            × (term_at f.log prev ≡ prev_term)) =
      elim (Bool-cases (prev == 0)) [
        | inl first ↦ inl (ground (arith, first), ground (arith, first, bottom))
        | inr later ↦
            inr (ground (arith, later), high, bottom, agree prev start (omega arith) ∙ sym last)
      ] in
    let est =
      recv_append_entries-Established from rpc f vf vl top same role matches
        (IsSound-IsFine es sound) memory in
    λ idx above within. elim (Bool-cases (leb idx prev)) [
      | inl old ↦
          term_at-Agrees (prev + 1 - 1) idx f.log _ est.kept (ground (arith, old))
            (omega (arith, high))
          ∙ agree idx above (ground (arith, old))
      | inr new ↦
          let j = idx - prev - 1 in
          let at : idx ≡ prev + 1 + j = ground (arith, new) in
          let inside : j < length es = ground (arith, new, within) in
          ap (term_at (recv_append_entries from rpc f).1.log) at
          ∙ HeldFrom-terms rpc es (prev + 1) _ j inside est.held
          ∙ ap term_of (found j inside)
          ∙ sym (term_at-entry_at leader.log (prev + 1 + j) (omega (arith, base)))
          ∙ ap (term_at leader.log) (sym at)
    ]
