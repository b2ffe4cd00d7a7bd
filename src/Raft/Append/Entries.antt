-- ===== src/Raft/Append/Entries.antt =====
-- What the entry loop of raft_recv_append_entries leaves in the log.
use kynovo.Common.{
  ℕ, ◌+◌, ◌-◌, ◌≤◌, ◌<◌, ◌≡◌, ap, ◌∙◌, inl, inr, Bool, true, false, ◌&&◌, ◌||◌, List, [], ◌∷◌,
  arith, ltb, leb, ◌==◌, Bool-cases, length,
}
use kynovo.Raft.Log.{Log, Entry, last_index, term_at, append}
use kynovo.Raft.Log.Agree.{
  Agrees, Agrees-refl, Agrees-le, Agrees-trans, term_at-Agrees, append-Agrees, last_index-append,
  term_at-append, truncate_lem,
}
use kynovo.Raft.State.{Ctx, ok, fail, allocate, set_memory}
use kynovo.Raft.Durable.{log_cut, durable_clamp}
use kynovo.Raft.Lead.{append_entry}
use kynovo.Raft.Append.{
  append_step, RpcEntry, AppendEntries, entry_term, to_entry, over_cap, bad_kind, Outcome, done,
  reject, broken, append_next, append_all, skip_held,
}

-- From index `idx` on, the log has entries of the terms that the message gives.
abbrev pub HeldFrom : AppendEntries → List RpcEntry → ℕ → Log → Type 0
HeldFrom rpc [] idx log = Unit
HeldFrom rpc (e ∷ es) idx log = (term_at log idx ≡ entry_term rpc e) × HeldFrom rpc es (idx + 1) log

-- The log after a loop that came to its end: the entries of the message from `idx` on, and below it
-- the log as it was.
pub record Established (rpc : AppendEntries) (es : List RpcEntry) (idx : ℕ) (a b : Log)
    : Type 0 where
  pub held : HeldFrom rpc es idx b
  pub kept : Agrees (idx - 1) a b
  pub reach : idx + length es ≤ last_index b + 1

next-done :
    (es : List RpcEntry) (rest : Outcome) (r : Ctx) (ch oom : Bool) (out : Ctx)
    → append_next es rest r ≡ done ch oom out
    → rest ≡ done ch oom out
unfolding append_next
next-done [] rest r ch oom out h = h
next-done (e ∷ es) rest r ch oom out h = elim (Bool-cases (over_cap e)) [
  | inl over ↦ cc (rw over at h)
  | inr under ↦ rw under at h
]

unfoldable pub appended : Entry → Ctx → Ctx
appended e r = record (set_memory r (allocate r.output.memory).1) { log = append r.log e }

pub append_entry-ok :
    (e : Entry) (r : Ctx)
    → (allocate r.output.memory).0 ≡ true
    → append_entry e r ≡ (ok, appended e r)
unfolding append_entry appended
append_entry-ok e r got = rw got

pub append_entry-fail :
    (e : Entry) (r : Ctx)
    → (allocate r.output.memory).0 ≡ false
    → append_entry e r ≡ (fail, set_memory r (allocate r.output.memory).1)
unfolding append_entry
append_entry-fail e r got = rw got

log_of : Outcome → Log
log_of (done a b c) = c.log
log_of (reject a c) = c.log
log_of (broken c) = c.log

-- Nothing more to append.
done-Established :
    (rpc : AppendEntries) (idx : ℕ) (r : Ctx) (a b ch : Bool) (out : Ctx)
    → idx ≤ last_index r.log + 1
    → done a b r ≡ done ch false out
    → Established rpc [] idx r.log out.log
unfolding log_of
done-Established rpc idx r a b ch out high h =
    let same : r.log ≡ out.log = ap log_of h in
    record { held = tt; kept = rw (← same) (Agrees-refl _ _); reach = rw (← same) (omega arith) }

-- Of an appending loop that ends with memory left, the first step.
append_all-cons :
    (rpc : AppendEntries) (e : RpcEntry) (es : List RpcEntry) (changed : Bool) (r : Ctx) (ch : Bool)
    (out : Ctx)
    → append_all rpc (e ∷ es) changed r ≡ done ch false out
    → append_all rpc es changed (appended (to_entry rpc e) r) ≡ done ch false out
unfolding append_all append_step
append_all-cons rpc e es changed r ch out h = elim (Bool-cases (allocate r.output.memory).0) [
  | inl got ↦
      next-done es (append_all rpc es changed (appended (to_entry rpc e) r))
        (appended (to_entry rpc e) r) ch false out
        (rw (append_entry-ok (to_entry rpc e) r got, append_step) at h)
  | inr got ↦ cc (rw (append_entry-fail (to_entry rpc e) r got, append_step) at h)
]

last_index-appended : (e : Entry) (r : Ctx) → last_index (appended e r).log ≡ last_index r.log + 1
unfolding appended
last_index-appended e r = last_index-append r.log e

term_at-appended :
    (e : Entry) (r : Ctx) → term_at (appended e r).log (last_index r.log + 1) ≡ e.term
unfolding appended
term_at-appended e r = term_at-append r.log e

Agrees-appended : (e : Entry) (r : Ctx) → Agrees (last_index r.log) r.log (appended e r).log
unfolding appended
Agrees-appended e r = append-Agrees r.log e

append_all-Established :
    (rpc : AppendEntries) (es : List RpcEntry) (changed : Bool) (r : Ctx) (ch : Bool) (out : Ctx)
    → append_all rpc es changed r ≡ done ch false out
    → Established rpc es (last_index r.log + 1) r.log out.log
unfolding append_all
append_all-Established rpc [] changed r ch out h =
    done-Established rpc (last_index r.log + 1) r changed false ch out (omega arith) h
append_all-Established rpc (e ∷ es) changed r ch out h =
    let r1 = appended (to_entry rpc e) r in
    let tip = last_index-appended (to_entry rpc e) r in
    let rest =
      append_all-Established rpc es changed r1 ch out
        (append_all-cons rpc e es changed r ch out h) in
    let kept =
      Agrees-le (last_index r1.log) (last_index r1.log + 1 - 1) r1.log out.log (omega arith)
        rest.kept in
    record {
      held = (
        term_at-Agrees (last_index r1.log) (last_index r.log + 1) r1.log out.log kept (omega arith)
              (omega arith)
            ∙ term_at-appended (to_entry rpc e) r,
        rw (← tip) rest.held,
      );
      kept =
          Agrees-trans (last_index r.log + 1 - 1) r.log r1.log out.log
            (Agrees-le (last_index r.log + 1 - 1) (last_index r.log) r.log r1.log (omega arith)
              (Agrees-appended (to_entry rpc e) r))
            (Agrees-le (last_index r.log + 1 - 1) (last_index r1.log) r1.log out.log (omega arith)
              kept);
      reach = omega (arith, rest.reach);
    }

log_cut_lem :
    (idx : ℕ) (r : Ctx)
    → r.log.last_included_index ≤ idx
    → idx < last_index r.log
    → Agrees idx r.log (log_cut idx r).log × (last_index (log_cut idx r).log ≡ idx)
unfolding log_cut durable_clamp
log_cut_lem idx r low high =
    let (b, e, agrees, tip) = truncate_lem r.log idx low high in rw (e, log_cut) (agrees, tip)

-- A loop that cut the log at `idx` and appended.
cut-Established :
    (rpc : AppendEntries) (es : List RpcEntry) (idx : ℕ) (r : Ctx) (ch : Bool) (out : Ctx)
    → r.log.last_included_index < idx
    → idx ≤ last_index r.log
    → append_all rpc es true (log_cut (idx - 1) r) ≡ done ch false out
    → Established rpc es idx r.log out.log
cut-Established rpc es idx r ch out low high h =
    let (agrees, tip) = log_cut_lem (idx - 1) r (omega arith) (omega arith) in
    let a = append_all-Established rpc es true (log_cut (idx - 1) r) ch out h in
    let at : last_index (log_cut (idx - 1) r).log + 1 ≡ idx = omega arith in
    let a' = rw at at a in
    record { held = a'.held; kept = Agrees-trans (idx - 1) _ _ _ agrees a'.kept; reach = a'.reach }

-- The end of the loop, started at an index above the base and not past the tip's successor.
pub skip_held-Established :
    (rpc : AppendEntries) (es : List RpcEntry) (idx : ℕ) (r : Ctx) (ch : Bool) (out : Ctx)
    → r.log.last_included_index < idx
    → idx ≤ last_index r.log + 1
    → skip_held rpc (last_index r.log) es idx r ≡ done ch false out
    → Established rpc es idx r.log out.log
unfolding skip_held
skip_held-Established rpc [] idx r ch out low high h =
    done-Established rpc idx r false false ch out high h
skip_held-Established rpc (e ∷ es) idx r ch out low high h =
    elim (Bool-cases (bad_kind e || over_cap e)) [
      | inl bad ↦ cc (rw bad at h)
      | inr fine ↦
          elim (Bool-cases (
            leb idx (last_index r.log)
            && ltb r.log.last_included_index idx
            && term_at r.log idx == entry_term rpc e)) [
              | inl held ↦
                  let a =
                    skip_held-Established rpc es (idx + 1) r ch out (omega arith) (ground arith)
                      (rw (fine, held) at h) in
                  let kept = Agrees-le idx (idx + 1 - 1) r.log out.log (omega arith) a.kept in
                  record {
                    held = (
                      term_at-Agrees idx idx r.log out.log kept (omega arith) (ground arith)
                          ∙ ground arith,
                      a.held,
                    );
                    kept = Agrees-le (idx - 1) idx r.log out.log (omega arith) kept;
                    reach = omega (arith, a.reach);
                  }
              | inr differs ↦ elim (Bool-cases (ltb (last_index r.log) idx)) [
                | inl past ↦
                    let at : last_index r.log + 1 ≡ idx = ground arith in
                    rw at at (
                      append_all-Established rpc (e ∷ es) false r ch out
                        (rw (fine, differs, past) at h))
                | inr within ↦ elim (Bool-cases (ltb (idx - 1) r.log.last_included_index)) [
                  | inl under ↦ absurd (ground arith)
                  | inr above ↦
                      cut-Established rpc (e ∷ es) idx r ch out low (ground arith)
                        (rw (fine, differs, within, above) at h)
                ]
              ]
            ]
    ]
