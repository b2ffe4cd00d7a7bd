-- ===== src/Raft/Tick/Kept.antt =====
-- Steps of a leader of code/raft.h that keep what is committed.
use mathlib.Core.Path.{subst}
use kynovo.Common.{
  ◌⊎◌, ℕ, ◌+◌, ◌≤◌, ◌≡◌, refl, sym, ap, inl, inr, true, false, none, some, arith, ltb, leb,
  Bool-cases, Option-cases, length,
}
use kynovo.Raft.Log.{Log, Entry, last_index, truncate}
use kynovo.Raft.Log.Agree.{
  Agrees, Agrees-refl, Agrees-le, Agrees-trans, append-Agrees, last_index-append, truncate_lem,
}
use kynovo.Raft.State.{Ctx, Rc, ok, fail, allocate, term_max}
use kynovo.Raft.Config.{◌⨟◌, apply_config_from_log, latest_config, is_base, base_config}
use kynovo.Raft.Durable.{log_cut, durable_clamp}
use kynovo.Raft.Lead.{append_entry}
use kynovo.Raft.Reconfig.{undo}
use kynovo.Raft.Step.{step_down, become_follower}
use kynovo.Raft.Step.Fields.{step_down-SameCore}

abbrev pub IsWithin : Ctx → Type 0
IsWithin r = r.commit_index ≤ last_index r.log

-- The commit index does not go back and stays within the log, and the log is unchanged up to it.
pub record Kept (r out : Ctx) : Type 0 where
  pub commit : r.commit_index ≤ out.commit_index
  pub within : IsWithin out
  pub agrees : Agrees r.commit_index r.log out.log

pub Kept-quiet :
    (r out : Ctx) → IsWithin r → out.log ≡ r.log → out.commit_index ≡ r.commit_index → Kept r out
Kept-quiet r out w l c = record {
  commit = omega (arith, c);
  within = omega (arith, w, c, ap last_index l);
  agrees = subst (Agrees r.commit_index r.log) (sym l) (Agrees-refl r.commit_index r.log);
}

pub Kept-refl : (r : Ctx) → IsWithin r → Kept r r
Kept-refl r w = Kept-quiet r r w refl refl

pub Kept-trans : (a b c : Ctx) → Kept a b → Kept b c → Kept a c
Kept-trans a b c s t = record {
  commit = omega (arith, s.commit, t.commit);
  within = t.within;
  agrees =
      Agrees-trans a.commit_index a.log b.log c.log s.agrees
        (Agrees-le a.commit_index b.commit_index b.log c.log s.commit t.agrees);
}

pub seq-Kept :
    (r : Ctx) (out : Rc × Ctx) (f : Ctx → Rc × Ctx)
    → Kept r out.1
    → ((m : Ctx) → IsWithin m → Kept m (f m).1)
    → Kept r (out ⨟ f).1
seq-Kept r (ok, m) f s next = Kept-trans r m (f m).1 s (next m s.within)
seq-Kept r (fail, m) f s next = s

pub undo-Kept :
    (r : Ctx) (g : Ctx → Ctx) (out : Rc × Ctx)
    → Kept r out.1
    → Kept r (g out.1)
    → Kept r (undo g out).1
undo-Kept r g (ok, m) s back = s
undo-Kept r g (fail, m) s back = back

pub append_entry-Kept : (e : Entry) (r : Ctx) → IsWithin r → Kept r (append_entry e r).1
unfolding append_entry
append_entry-Kept e r w = elim (Bool-cases (allocate r.output.memory).0) [
  | inr full ↦ rw full (Kept-quiet r _ w refl refl)
  | inl got ↦ rw got record {
    commit = omega arith;
    within = omega (arith, w, last_index-append r.log e);
    agrees = Agrees-le r.commit_index (last_index r.log) _ _ w (append-Agrees r.log e);
  }
]

truncate-below :
    (log : Log) (idx : ℕ) → ltb idx log.last_included_index ≡ true → truncate log idx ≡ none
unfolding truncate
truncate-below log idx e = rw e refl

truncate-past :
    (log : Log) (idx : ℕ)
    → ltb idx log.last_included_index ≡ false
    → leb (last_index log) idx ≡ true
    → truncate log idx ≡ some log
unfolding truncate
truncate-past log idx e f = rw (e, f) refl

-- What a cut finds to do.
truncate_cases :
    (log : Log) (idx : ℕ)
    → (truncate log idx ≡ none)
      ⊎ ((truncate log idx ≡ some log)
          ⊎ ((b : Log) × (truncate log idx ≡ some b) × Agrees idx log b × (last_index b ≡ idx)))
truncate_cases log idx = elim (Bool-cases (ltb idx log.last_included_index)) [
  | inl below ↦ inl (truncate-below log idx below)
  | inr above ↦ elim (Bool-cases (leb (last_index log) idx)) [
    | inl past ↦ inr (inl (truncate-past log idx above past))
    | inr inside ↦ inr (inr (truncate_lem log idx (ground (arith, above)) (ground (arith, inside))))
  ]
]

pub log_cut-Kept : (idx : ℕ) (r : Ctx) → IsWithin r → r.commit_index ≤ idx → Kept r (log_cut idx r)
unfolding log_cut durable_clamp
log_cut-Kept idx r w h = elim (truncate_cases r.log idx) [
  | inl e ↦ rw (e, log_cut) (Kept-refl r w)
  | inr (inl e) ↦ rw (e, log_cut) (Kept-quiet r _ w refl refl)
  | inr (inr (b, e, agrees, tip)) ↦
      rw (e, log_cut)
        record {
          commit = omega arith;
          within = omega (arith, h, tip);
          agrees = Agrees-le r.commit_index idx r.log b h agrees;
        }
]

pub apply_config-Kept : (r : Ctx) → IsWithin r → Kept r (apply_config_from_log r).1
unfolding apply_config_from_log
apply_config-Kept r w = elim (Option-cases (latest_config (length r.log.entries) r.log)) [
  | inr (c, e) ↦ rw (e, apply_config_from_log) (Kept-quiet r _ w refl refl)
  | inl e ↦ elim (Bool-cases (is_base r.members (base_config r))) [
    | inl b ↦ rw (e, b, apply_config_from_log) (Kept-refl r w)
    | inr b ↦ rw (e, b, apply_config_from_log) (Kept-quiet r _ w refl refl)
  ]
]

step_down-over :
    (term leader : ℕ) (r : Ctx) → leb (term_max + 1) term ≡ true → step_down term leader r ≡ r
unfolding step_down
step_down-over term leader r over = rw over refl

pub step_down-Kept : (term leader : ℕ) (r : Ctx) → IsWithin r → Kept r (step_down term leader r)
unfolding become_follower
step_down-Kept term leader r w = elim (Bool-cases (leb (term_max + 1) term)) [
  | inl over ↦ Kept-quiet r _ w (ap (λ c. c.log) (same over)) (ap (λ c. c.commit_index) (same over))
  | inr under ↦
      let core = step_down-SameCore term leader r (ground (arith, under)) in
      Kept-quiet r _ w core.log core.commit
]
  where
    same : leb (term_max + 1) term ≡ true → step_down term leader r ≡ r
    same over = step_down-over term leader r over
