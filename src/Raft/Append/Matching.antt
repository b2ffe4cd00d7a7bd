-- ===== src/Raft/Append/Matching.antt =====
-- The log matching property of raft_recv_append_entries, with the memory that the loop asks for.
use kynovo.Common.{
  ℕ, ◌+◌, ◌-◌, ◌≤◌, ◌<◌, min, ◌≡◌, refl, ap, ◌∙◌, ◌⊎◌, inl, inr, Bool, true, false, not, ◌&&◌, ◌||◌,
  List, [], ◌∷◌, arith, ltb, leb, ◌==◌, if◌then◌else◌, Bool-cases, Option-cases, length, All,
}
use kynovo.Raft.Ids.{id_valid}
use kynovo.Raft.Log.{Log, Entry, last_index, term_at, truncate}
use kynovo.Raft.State.{Ctx, append_result, Rc, ok, fail, allocate, is_leader, term_max}
use kynovo.Raft.Config.{apply_config_from_log, latest_config, is_base, base_config}
use kynovo.Raft.Durable.{log_cut, durable_clamp}
use kynovo.Raft.Step.Fields.{send-SameCore}
use kynovo.Raft.Append.{
  id_valid, RpcEntry, AppendEntries, entry_term, to_entry, over_cap, bad_kind, Outcome, done,
  append_next, append_step, append_all, skip_held, learn_commit, acknowledge, set_persist, settle,
  after_entries, check_prev, follow, accept, recv_append_entries, commit_cap,
}
use kynovo.Raft.Append.Entries.{Established, skip_held-Established, appended, append_entry-ok}

-- A kind that the source knows and a term below the cap, in every entry.
abbrev pub IsFine : List RpcEntry → Type 0
IsFine es = All (λ e. (bad_kind e ≡ false) × (over_cap e ≡ false)) es

append_next-fine :
    (es : List RpcEntry) (rest : Outcome) (r : Ctx) → IsFine es → append_next es rest r ≡ rest
unfolding append_next
append_next-fine [] rest r fine = refl
append_next-fine (e ∷ es) rest r fine = rw (fine.0.1)

has_memory : (r : Ctx) → r.output.memory ≡ [] → (allocate r.output.memory).0 ≡ true
unfolding allocate
has_memory r m = ap (λ b. (allocate b).0) m

memory-appended : (e : Entry) (r : Ctx) → r.output.memory ≡ [] → (appended e r).output.memory ≡ []
unfolding allocate appended
memory-appended e r m = ap (λ b. (allocate b).1) m

-- With memory left the inner loop comes to its end.
append_all-done :
    (rpc : AppendEntries) (es : List RpcEntry) (ch : Bool) (r : Ctx)
    → IsFine es
    → r.output.memory ≡ []
    → (out : Ctx) × (append_all rpc es ch r ≡ done ch false out)
unfolding append_all append_step
append_all-done rpc [] ch r fine m = (r, refl)
append_all-done rpc (e ∷ es) ch r fine m =
    let (out, h) =
      append_all-done rpc es ch (appended (to_entry rpc e) r) fine.1
        (memory-appended (to_entry rpc e) r m) in
    (
      out,
      rw
          (
            append_entry-ok (to_entry rpc e) r (has_memory r m),
            append_step,
            append_next-fine es _ _ fine.1,
          )
          h,
    )

memory-log_cut : (idx : ℕ) (r : Ctx) → (log_cut idx r).output.memory ≡ r.output.memory
unfolding log_cut durable_clamp
memory-log_cut idx r = elim (Option-cases (truncate r.log idx)) [
  | inl e ↦ rw (e, log_cut)
  | inr (b, e) ↦ rw (e, log_cut)
]

skip_held-done :
    (rpc : AppendEntries) (es : List RpcEntry) (idx : ℕ) (r : Ctx)
    → IsFine es
    → r.output.memory ≡ []
    → r.log.last_included_index < idx
    → (ch : Bool) × (out : Ctx) × (skip_held rpc (last_index r.log) es idx r ≡ done ch false out)
unfolding skip_held
skip_held-done rpc [] idx r fine m low = (false, r, refl)
skip_held-done rpc (e ∷ es) idx r fine m low =
    elim (Bool-cases (
      leb idx (last_index r.log)
      && ltb r.log.last_included_index idx
      && term_at r.log idx == entry_term rpc e)) [
        | inl held ↦
            let (ch, out, h) = skip_held-done rpc es (idx + 1) r fine.1 m (omega arith) in
            (ch, out, rw (ok_entry, held) h)
        | inr differs ↦ elim (Bool-cases (ltb (last_index r.log) idx)) [
          | inl past ↦
              let (out, h) = append_all-done rpc (e ∷ es) false r fine m in
              (false, out, rw (ok_entry, differs, past) h)
          | inr within ↦
              let above : ltb (idx - 1) r.log.last_included_index ≡ false = ground arith in
              let (out, h) =
                append_all-done rpc (e ∷ es) true (log_cut (idx - 1) r) fine
                  (memory-log_cut (idx - 1) r ∙ m) in
              (true, out, rw (ok_entry, differs, within, above) h)
        ]
      ]
  where
    ok_entry : (bad_kind e || over_cap e) ≡ false
    ok_entry = ground arith

log-apply_config : (r : Ctx) → (apply_config_from_log r).1.log ≡ r.log
unfolding apply_config_from_log
log-apply_config r = elim (Option-cases (latest_config (length r.log.entries) r.log)) [
  | inr (c, e) ↦ rw (e, apply_config_from_log)
  | inl e ↦ elim (Bool-cases (is_base r.members (base_config r))) [
    | inl b ↦ rw (e, b, apply_config_from_log)
    | inr b ↦ rw (e, b, apply_config_from_log)
  ]
]

log-acknowledge : (rpc : AppendEntries) (r : Ctx) → (acknowledge rpc r).log ≡ r.log
unfolding acknowledge
log-acknowledge rpc r =
    elim (Bool-cases (
      length rpc.entries == 0
      && not r.durable.persist_needed
      && leb r.durable.term_dirty_gen r.durable.persist_gen)) [
        | inl now ↦
            rw now
              (send-SameCore
                (append_result r.leader_id r.current_term true 0
                  (min r.durable.durable_confirm rpc.prev_log_index) 0 0 rpc.read_context)
                r).log
        | inr later ↦ elim (Bool-cases r.durable.persist_needed) [
          | inl wait ↦ rw later (simp wait)
          | inr none_needed ↦ rw later (simp none_needed)
        ]
      ]

log-set_persist : (b : Bool) (r : Ctx) → (set_persist b r).log ≡ r.log
log-set_persist true r = refl
log-set_persist false r = refl

log-learn_commit : (rpc : AppendEntries) (r : Ctx) → (learn_commit rpc r).log ≡ r.log
unfolding learn_commit
log-learn_commit rpc r =
    elim (Bool-cases
      (ltb r.commit_index rpc.leader_commit && ltb r.commit_index (commit_cap rpc r))) [
        | inl more ↦ rw more
        | inr no_more ↦ rw no_more
      ]

log-settle :
    (rpc : AppendEntries) (ch : Bool) (o : Rc × Ctx) → (settle rpc ch false o).1.log ≡ o.1.log
unfolding settle
log-settle rpc ch (fail, s) = refl
log-settle rpc ch (ok, s) =
    log-acknowledge rpc (set_persist (ltb 0 (length rpc.entries) || ch) (learn_commit rpc s))
    ∙ log-set_persist (ltb 0 (length rpc.entries) || ch) (learn_commit rpc s)
    ∙ log-learn_commit rpc s

log-after :
    (rpc : AppendEntries) (ch : Bool) (s : Ctx)
    → (after_entries rpc (done ch false s)).1.log ≡ s.log
unfolding after_entries
log-after rpc ch s =
    log-settle rpc ch _ ∙ applied (ltb 0 (length rpc.entries) || ch || s.members.config_apply_stale)
  where
    applied : (b : Bool) → (if b then apply_config_from_log s else (ok, s)).1.log ≡ s.log
    applied true = log-apply_config s
    applied false = refl

-- The previous entry is the one that the message names: the log reaches it, it is not below the base,
-- and its term is the message's; or the message starts at the beginning of a log with no base.
abbrev pub MatchesPrev : AppendEntries → Log → Type 0
MatchesPrev rpc log =
    ((rpc.prev_log_index ≡ 0) × (log.last_included_index ≡ 0))
    ⊎ ((0 < rpc.prev_log_index)
        × (rpc.prev_log_index ≤ last_index log)
        × (log.last_included_index ≤ rpc.prev_log_index)
        × (term_at log rpc.prev_log_index ≡ rpc.prev_log_term))

check_prev-matches :
    (rpc : AppendEntries) (r : Ctx)
    → MatchesPrev rpc r.log
    → check_prev rpc r
      ≡ after_entries rpc (skip_held rpc (last_index r.log) rpc.entries (rpc.prev_log_index + 1) r)
unfolding check_prev
check_prev-matches rpc r (inl (e, b)) =
    let first : (rpc.prev_log_index == 0) ≡ true = ground arith in simp first
check_prev-matches rpc r (inr (pos, reach, base, term)) =
    let later : (rpc.prev_log_index == 0) ≡ false = ground arith in
    let within : ltb (last_index r.log) rpc.prev_log_index ≡ false = ground arith in
    let above : ltb rpc.prev_log_index r.log.last_included_index ≡ false = ground arith in
    let same : (term_at r.log rpc.prev_log_index == rpc.prev_log_term) ≡ true = ground arith in
    rw (later, within, above, same)

prev_bounds :
    (rpc : AppendEntries) (log : Log)
    → MatchesPrev rpc log
    → (log.last_included_index ≤ rpc.prev_log_index) × (rpc.prev_log_index ≤ last_index log)
prev_bounds rpc log (inl (e, b)) = omega arith
prev_bounds rpc log (inr (pos, reach, base, term)) = (base, reach)

check_prev-Established :
    (rpc : AppendEntries) (r : Ctx)
    → MatchesPrev rpc r.log
    → IsFine rpc.entries
    → r.output.memory ≡ []
    → Established rpc rpc.entries (rpc.prev_log_index + 1) r.log (check_prev rpc r).1.log
check_prev-Established rpc r match fine m =
    let (low, high) = prev_bounds rpc r.log match in
    let (ch, out, h) =
      skip_held-done rpc rpc.entries (rpc.prev_log_index + 1) r fine m (omega arith) in
    let est =
      skip_held-Established rpc rpc.entries (rpc.prev_log_index + 1) r ch out (omega arith)
        (omega arith) h in
    rw (check_prev-matches rpc r match, h, log-after) est

-- A follower or candidate that receives a message of its own term from a valid leader, whose previous
-- entry matches, with entries of known kinds and terms below the cap, and that does not run out of
-- memory, ends with a log that holds the message's terms from the index after the previous entry on,
-- reaches the last of them, and is unchanged up to the previous entry.
pub recv_append_entries-Established :
    (from : ℕ) (rpc : AppendEntries) (r : Ctx)
    → 0 < from
    → 0 < rpc.leader_id
    → rpc.term ≤ term_max
    → rpc.term ≡ r.current_term
    → is_leader r.role ≡ false
    → MatchesPrev rpc r.log
    → IsFine rpc.entries
    → r.output.memory ≡ []
    → Established rpc rpc.entries
        (rpc.prev_log_index + 1)
        r.log
        (recv_append_entries from rpc r).1.log
unfolding recv_append_entries accept follow id_valid
recv_append_entries-Established from rpc r vf vl cap term role match fine m =
    let valid : (not (ltb 0 from) || not (ltb 0 rpc.leader_id)) ≡ false = ground arith in
    let capped : leb (term_max + 1) rpc.term ≡ false = ground arith in
    let same : ltb r.current_term rpc.term ≡ false = ground arith in
    let not_old : ltb rpc.term r.current_term ≡ false = ground arith in
    rw (valid, capped, same, not_old)
      (simp role (check_prev-Established rpc (follow rpc r) match fine m))
