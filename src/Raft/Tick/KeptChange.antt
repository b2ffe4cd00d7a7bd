-- ===== src/Raft/Tick/KeptChange.antt =====
-- Membership changes of code/raft.h keep what is committed: raft_commit_config_entry and
-- raft_maybe_advance_reconfig.
use mathlib.Core.Path.{subst}
use kynovo.Common.{
  sym, ℕ, ◌+◌, ◌-◌, ◌≤◌, ◌≡◌, refl, ◌∙◌, inl, inr, Bool, true, false, not, ◌||◌, Option, none, some,
  [], ◌∷◌, ◌==◌, arith, if◌then◌else◌, Bool-cases,
}
use kynovo.Raft.Ids.{Mask}
use kynovo.Raft.Log.{Entry, last_index}
use kynovo.Raft.State.{
  Ctx, Peer, Rc, ok, fail, Status, catchup_failed, allocate, set_memory, is_leader,
}
use kynovo.Raft.Quorum.{find_peer}
use kynovo.Raft.Config.{◌⨟◌, apply_config_from_log}
use kynovo.Raft.Durable.{log_cut}
use kynovo.Raft.Lead.{append_entry}
use kynovo.Raft.Reconfig.{
  catchup_clear, undo, set_change, pend, pending_only_clear, tell_client, awaited, promote_one,
  promote, config_entry, settle_config, commit_config_entry, copy_set, copy_old, copy_learners,
  sorted_copy, deferred_catchup_abort,
}
use kynovo.Raft.Reconfig.Requests.{advance_sorted, drop_pending, maybe_advance_reconfig}
use kynovo.Raft.Append.Entries.{appended, append_entry-ok, append_entry-fail}
use kynovo.Raft.Append.Keeps.{Same-apply_config}
use kynovo.Raft.Tick.Kept.{
  IsWithin, Kept, Kept-quiet, Kept-refl, Kept-trans, seq-Kept, undo-Kept, append_entry-Kept,
  log_cut-Kept, apply_config-Kept,
}

-- The log and the commit index are as they were.
abbrev pub Quiet : Ctx → Ctx → Type 0
Quiet r out = (out.log ≡ r.log) × (out.commit_index ≡ r.commit_index)

pub Quiet-Kept : (r out : Ctx) → IsWithin r → Quiet r out → Kept r out
Quiet-Kept r out w q = Kept-quiet r out w q.0 q.1

pub Quiet-trans : (a b c : Ctx) → Quiet a b → Quiet b c → Quiet a c
Quiet-trans a b c p q = (q.0 ∙ p.0, q.1 ∙ p.1)

pub tell_client-Quiet :
    (status : Status) (cookie : ℕ) (r : Ctx) → Quiet r (tell_client status cookie r).1
unfolding tell_client
tell_client-Quiet status cookie r = (ground arith, ground arith)

pub seq-Quiet :
    (r : Ctx) (out : Rc × Ctx) (f : Ctx → Rc × Ctx)
    → Quiet r out.1
    → ((m : Ctx) → Quiet m (f m).1)
    → Quiet r (out ⨟ f).1
seq-Quiet r (ok, m) f q next = Quiet-trans r m (f m).1 q (next m)
seq-Quiet r (fail, m) f q next = q

promote_one-Quiet : (pid : ℕ) (r : Ctx) (found : Option Peer) → Quiet r (promote_one pid r found).1
unfolding promote_one
promote_one-Quiet pid r none = (refl, refl)
promote_one-Quiet pid r (some p) = elim (Bool-cases (awaited p)) [
  | inr nobody ↦ rw nobody (refl, refl)
  | inl someone ↦ rw someone (
      seq-Quiet r (tell_client _ p.catchup_cookie r) _ (tell_client-Quiet _ p.catchup_cookie r)
        (λ m. (refl, refl)))
]

promote-Quiet : (ids : Mask) (r : Ctx) (out : Rc × Ctx) → Quiet r out.1 → Quiet r (promote ids out)
unfolding promote
promote-Quiet [] r (rc, m) q = q
promote-Quiet (pid ∷ ids) r (fail, m) q = q
promote-Quiet (pid ∷ ids) r (ok, m) q = by_self (pid == m.id) (promote-Quiet ids r)
  where
    by_self :
        (self : Bool)
        → ((out : Rc × Ctx) → Quiet r out.1 → Quiet r (promote ids out))
        → Quiet r (
            promote ids
              (if self then (ok, m) else promote_one pid m (find_peer pid m.members.peers)))
    by_self true rest = rest (ok, m) q
    by_self false rest = rest (promote_one pid m (find_peer pid m.members.peers)) (
        Quiet-trans r m (promote_one pid m (find_peer pid m.members.peers)).1 q
          (promote_one-Quiet pid m (find_peer pid m.members.peers)))

settle_config-Kept :
    (cookie : ℕ) (r : Ctx)
    → IsWithin r
    → r.commit_index ≤ r.change.config_index - 1
    → Kept r (settle_config cookie r).1
unfolding settle_config
settle_config-Kept cookie r w h =
    let idx = r.change.config_index - 1 in
    let p = promote r.change.pending_new (ok, r) in
    let quiet = promote-Quiet r.change.pending_new r (ok, r) (refl, refl) in
    let kept = Quiet-Kept r p w quiet in
    let m = (apply_config_from_log p).1 in
    let applied = Kept-trans r p m kept (apply_config-Kept p kept.within) in
    seq-Kept r (undo (log_cut idx) (apply_config_from_log p)) _
      (undo-Kept r (log_cut idx) (apply_config_from_log p) applied (
        Kept-trans r m _ applied (
          log_cut-Kept idx m applied.within
            (omega (arith, h, quiet.1, (Same-apply_config p).commit)))))
      (λ c wc. Kept-quiet c _ wc refl refl)

-- The entry and what follows from it, at an index behind the log.
append_settle-Kept :
    (cookie : ℕ) (e : Entry) (r : Ctx)
    → IsWithin r
    → r.change.config_index ≡ last_index r.log + 1
    → Kept r (append_entry e r ⨟ settle_config cookie).1
unfolding appended
append_settle-Kept cookie e r w at = elim (Bool-cases (allocate r.output.memory).0) [
  | inr full ↦
      subst (λ o. Kept r (o ⨟ settle_config cookie).1) (sym (append_entry-fail e r full))
        (Kept-quiet r _ w refl refl)
  | inl got ↦
      let m = appended e r in
      let kept : Kept r m =
        subst (λ (o : Rc × Ctx). Kept r o.1) (append_entry-ok e r got) (append_entry-Kept e r w) in
      subst (λ o. Kept r (o ⨟ settle_config cookie).1) (sym (append_entry-ok e r got))
        (Kept-trans r m _ kept (settle_config-Kept cookie m kept.within (omega (arith, w, at))))
]

-- A configuration entry that is appended, and taken back if it cannot be applied.
pub commit_config_entry-Kept :
    (cookie : ℕ) (r : Ctx) → IsWithin r → Kept r (commit_config_entry cookie r).1
unfolding commit_config_entry
commit_config_entry-Kept cookie r w = elim (Bool-cases (allocate r.output.memory).0) [
  | inr full ↦ rw full (Kept-quiet r _ w refl refl)
  | inl got ↦
      let r2 : Ctx =
        set_change (λ c. record c { config_index = last_index r.log + 1 })
          (set_memory r (allocate r.output.memory).1) in
      let kept =
        Kept-trans r r2 _ (Kept-quiet r r2 w refl refl)
          (append_settle-Kept cookie (config_entry r2) r2 w refl) in
      let out = append_entry (config_entry r2) r2 ⨟ settle_config cookie in
      rw got (
        undo-Kept r (set_change pending_only_clear) out kept
          (Kept-trans r out.1 _ kept (Kept-quiet out.1 _ kept.within refl refl)))
]

pub sorted_copy-Quiet : (ids : Mask) (r : Ctx) → Quiet r (sorted_copy ids r).1
unfolding sorted_copy
sorted_copy-Quiet ids r = (refl, refl)

copy_old-Quiet : (ids : Mask) (r : Ctx) → Quiet r (copy_old ids r).1
unfolding copy_old copy_set
copy_old-Quiet ids r = (refl, refl)

copy_learners-Quiet : (ids : Mask) (r : Ctx) → Quiet r (copy_learners ids r).1
unfolding copy_learners copy_set
copy_learners-Quiet ids r = (refl, refl)

advance_sorted-Kept :
    (r m : Ctx) (sorted : Option Mask) → IsWithin r → Quiet r m → Kept r (advance_sorted m sorted).1
unfolding advance_sorted
advance_sorted-Kept r m none w q = Quiet-Kept r m w q
advance_sorted-Kept r m (some sorted) w q =
    let first = copy_old m.members.config_old m in
    let begun =
      Quiet-Kept r first.1 w (Quiet-trans r m first.1 q (copy_old-Quiet m.members.config_old m)) in
    let learners =
      λ (c : Ctx). undo drop_pending (copy_learners c.members.config_learners (pend sorted c)) in
    let commit = λ (c : Ctx). commit_config_entry c.change.catchup_cookie c in
    seq-Kept r (first ⨟ learners ⨟ commit) (λ c. (ok, set_change catchup_clear c))
      (seq-Kept r (first ⨟ learners) commit
        (seq-Kept r first learners begun (λ c wc.
          let out = copy_learners c.members.config_learners (pend sorted c) in
          let kept =
            Quiet-Kept c out.1 wc (copy_learners-Quiet c.members.config_learners (pend sorted c)) in
          undo-Kept c drop_pending out kept (
            Kept-trans c out.1 (drop_pending out.1) kept
              (Kept-quiet out.1 (drop_pending out.1) kept.within refl refl))))
        (λ c wc. commit_config_entry-Kept c.change.catchup_cookie c wc))
      (λ c wc. Kept-quiet c (set_change catchup_clear c) wc refl refl)

pub maybe_advance_reconfig-Kept : (r : Ctx) → IsWithin r → Kept r (maybe_advance_reconfig r).1
unfolding maybe_advance_reconfig
maybe_advance_reconfig-Kept r w =
    elim (Bool-cases (not (is_leader r.role) || not r.change.catchup_active)) [
      | inl idle ↦ rw idle (Kept-refl r w)
      | inr active ↦ rw active (
          advance_sorted-Kept r (sorted_copy r.change.catchup_new r).1
            (sorted_copy r.change.catchup_new r).0 w (sorted_copy-Quiet r.change.catchup_new r))
    ]

pub deferred_catchup_abort-Quiet : (r : Ctx) → Quiet r (deferred_catchup_abort r)
unfolding deferred_catchup_abort
deferred_catchup_abort-Quiet r = tell_client-Quiet catchup_failed r.change.catchup_cookie r
