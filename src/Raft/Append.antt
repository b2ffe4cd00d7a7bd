-- ===== src/Raft/Append.antt =====
-- AppendEntries at a follower: raft_recv_append_entries of code/raft.h.
-- The message's parallel arrays are one list of entries; its length is the entry count, which is not
-- negative. An array that the message lacks is a `none` in each entry.
pub mod Stage
pub mod Entries
pub mod Matching
pub mod Keeps
use kynovo.Common.{
  ℕ, zero, suc, ◌+◌, ◌-◌, ◌*◌, ◌/◌, ◌%◌, ◌^◌, ◌≤◌, ◌<◌, min, max, ◌≡◌, refl, sym, ap, ap₂, ◌∙◌, ◌≢◌,
  ◌↔◌, ◌⊎◌, inl, inr, Bool, true, false, not, ◌&&◌, ◌||◌, Option, none, some, List, [], ◌∷◌, ◌++◌,
  map, append_assoc, append-nil, arith, ltb, leb, ◌==◌, if◌then◌else◌, ltb→lt, lt→ltb, leb→le,
  ==_iff, Bool-cases, Option-cases, of_bool, length, get_elem?, get_or, take, drop, length-append,
  length-take, length-drop, get_or-append_left, get_or-append_self, get_or-take, take-append_left,
  take-take, take-all, count_if, All, u32_mod, u64_mod, add32, mul32,
}
use kynovo.Raft.Ids.{Mask, id_valid}
use kynovo.Raft.Log.{Entry, last_index, term_at}
use kynovo.Raft.State.{
  Ctx, Deferred, is_leader, is_follower, follower, Message, append_result, Rc, ok, fail, send,
  next_gen, term_max,
}
use kynovo.Raft.Config.{apply_config_from_log}
use kynovo.Raft.Durable.{log_cut}
use kynovo.Raft.Step.{step_down}
use kynovo.Raft.Lead.{append_entry}

pub record RpcEntry : Type 0 where
  pub term : Option ℕ
  pub kind : Option ℕ
  pub bytes : List ℕ
  pub cfg_old : Mask
  pub cfg_new : Mask
  pub cfg_learners : Mask

pub record AppendEntries : Type 0 where
  pub term : ℕ
  pub leader_id : ℕ
  pub prev_log_index : ℕ
  pub prev_log_term : ℕ
  pub entries : List RpcEntry
  pub leader_commit : ℕ
  pub read_context : ℕ

-- The message's term where it has no entry terms; a command where it has no kinds.
abbrev pub or_else : Option ℕ → ℕ → ℕ
or_else none d = d
or_else (some x) d = x

abbrev pub entry_term : AppendEntries → RpcEntry → ℕ
entry_term rpc e = or_else e.term rpc.term

abbrev pub to_entry : AppendEntries → RpcEntry → Entry
to_entry rpc e = record {
  term = entry_term rpc e;
  kind = or_else e.kind 0;
  bytes = e.bytes;
  cfg_old = e.cfg_old;
  cfg_new = e.cfg_new;
  cfg_learners = e.cfg_learners;
}

abbrev pub over_cap : RpcEntry → Bool
over_cap e = leb (term_max + 1) (or_else e.term 0)

abbrev pub bad_kind : RpcEntry → Bool
bad_kind e = ltb 2 (or_else e.kind 0)

-- How the entry loop ends: at `append_done` (with the log changed by a cut, or out of memory), at
-- `reply_fail` with a hint, or with -1 at once.
pub data Outcome : Type 0 where
  done : (log_changed append_oom : Bool) → Ctx → Outcome
  reject : (hint : ℕ) → Ctx → Outcome
  broken : Ctx → Outcome

-- The inner loop's check of the entry that comes next: of its term only, not of its kind.
unfoldable pub append_next : List RpcEntry → Outcome → Ctx → Outcome
append_next [] rest r = rest
append_next (e ∷ es) rest r = if over_cap e then broken r else rest

-- The rest of the inner loop, after one append.
unfoldable pub append_step : List RpcEntry → Bool → (Ctx → Outcome) → Rc × Ctx → Outcome
append_step es changed rest (fail, r) = done changed true r
append_step es changed rest (ok, r) = append_next es (rest r) r

-- The inner loop, at an entry whose own checks are over.
unfoldable pub append_all : AppendEntries → List RpcEntry → Bool → Ctx → Outcome
append_all rpc [] changed r = done changed false r
append_all rpc (e ∷ es) changed r =
    append_step es changed (λ s. append_all rpc es changed s) (append_entry (to_entry rpc e) r)

-- The outer loop, at index `eidx` of a log whose tip was `last_idx`.
unfoldable pub skip_held : AppendEntries → ℕ → List RpcEntry → ℕ → Ctx → Outcome
skip_held rpc last_idx [] eidx r = done false false r
skip_held rpc last_idx (e ∷ es) eidx r =
    let rest = skip_held rpc last_idx es (eidx + 1) r in
    if bad_kind e || over_cap e
    then broken r
    else if leb eidx last_idx
        && ltb r.log.last_included_index eidx
        && term_at r.log eidx == entry_term rpc e
    then rest
    else if ltb last_idx eidx
    then append_all rpc (e ∷ es) false r
    else if ltb (eidx - 1) r.log.last_included_index
    then reject (r.log.last_included_index + 1) r
    else append_all rpc (e ∷ es) true (log_cut (eidx - 1) r)

-- The index of the first entry of the run of entries of term `ct` that ends at `cfi`; each round of
-- fuel is a step down, and `cfi` steps reach the base.
first_of_term : ℕ → Ctx → ℕ → ℕ → ℕ
first_of_term zero r ct cfi = cfi
first_of_term (suc fuel) r ct cfi =
    let lower_one = first_of_term fuel r ct (cfi - 1) in
    if ltb (r.log.last_included_index + 1) cfi && term_at r.log (cfi - 1) == ct
    then lower_one
    else cfi

-- The conflicting term and its first index, both 0 where the log has no entry to compare.
unfoldable pub conflict : AppendEntries → Ctx → ℕ × ℕ
unfolding first_of_term
conflict rpc r =
    let prev = rpc.prev_log_index in
    let ct = term_at r.log prev in
    if ltb 0 prev && ltb r.log.last_included_index prev && leb prev (last_index r.log) && ltb 0 ct
    then (ct, first_of_term prev r ct prev)
    else (0, 0)

abbrev pub rejected_hint : ℕ → AppendEntries → Ctx → ℕ
rejected_hint hint rpc r =
    if ltb 0 hint
    then hint
    else if ltb (last_index r.log) rpc.prev_log_index
    then last_index r.log + 1
    else rpc.prev_log_index

-- `reply_fail`: at once if the term is durable, and deferred if not.
unfoldable pub reply_fail : ℕ → AppendEntries → Ctx → Rc × Ctx
unfolding conflict
reply_fail hint rpc r =
    let (ct, cfi) = conflict rpc r in
    if r.durable.persist_needed || ltb r.durable.persist_gen r.durable.term_dirty_gen
    then (
      ok,
      record r {
        deferred = record r.deferred {
          reject_gen = next_gen r.durable;
          reject_last_index = last_index r.log;
          reject_to = r.leader_id;
          reject_read_context = rpc.read_context;
          reject_hint = rejected_hint hint rpc r;
          reject_conflict_term = ct;
          reject_conflict_first_index = cfi;
          reject_pending = true;
        };
      },
    )
    else send
        (append_result r.leader_id r.current_term false (rejected_hint hint rpc r)
          (last_index r.log) ct cfi rpc.read_context)
        r

-- The highest index that this message has established, and that the leader has committed.
abbrev pub commit_cap : AppendEntries → Ctx → ℕ
commit_cap rpc r =
    min rpc.leader_commit (min (rpc.prev_log_index + length rpc.entries) (last_index r.log))

unfoldable pub learn_commit : AppendEntries → Ctx → Ctx
learn_commit rpc r =
    if ltb r.commit_index rpc.leader_commit && ltb r.commit_index (commit_cap rpc r)
    then record r { commit_index = commit_cap rpc r }
    else r

-- A deferred acknowledgement: a new latch starts over, an old one keeps its generation.
abbrev latch : AppendEntries → Ctx → Deferred
latch rpc r =
    let d = r.deferred in
    let d0 : Deferred =
      (if d.append_response then d else record d {
        append_gen = next_gen r.durable;
        append_last_index = none;
        append_confirmed = 0;
      }) in
    record d0 {
      append_confirmed = max d0.append_confirmed (rpc.prev_log_index + length rpc.entries);
      append_response = true;
      append_to = r.leader_id;
      append_read_context = rpc.read_context;
    }

-- The acknowledgement of a heartbeat claims what is durable and established. A message for which
-- there is no room is left out.
unfoldable pub acknowledge : AppendEntries → Ctx → Ctx
acknowledge rpc r =
    if length rpc.entries == 0
      && not r.durable.persist_needed
      && leb r.durable.term_dirty_gen r.durable.persist_gen
    then (send
        (append_result r.leader_id r.current_term true 0
          (min r.durable.durable_confirm rpc.prev_log_index) 0 0 rpc.read_context)
        r).1
    else if r.durable.persist_needed
    then record r { deferred = latch rpc r }
    else r

abbrev pub set_persist : Bool → Ctx → Ctx
set_persist b r = if b then record r { durable = record r.durable { persist_needed = true } } else r

-- From `append_done` on, once the configuration is applied.
unfoldable pub settle : AppendEntries → Bool → Bool → Rc × Ctx → Rc × Ctx
settle rpc changed oom (fail, r) = (fail, r)
settle rpc changed oom (ok, r) = if oom then (fail, r) else (
  ok,
  acknowledge rpc (set_persist (ltb 0 (length rpc.entries) || changed) (learn_commit rpc r)),
)

unfoldable pub after_entries : AppendEntries → Outcome → Rc × Ctx
after_entries rpc (broken r) = (fail, r)
after_entries rpc (reject hint r) = reply_fail hint rpc r
after_entries rpc (done changed oom r) = settle rpc changed oom (
    if ltb 0 (length rpc.entries) || changed || r.members.config_apply_stale
    then apply_config_from_log r
    else (ok, r))

-- The test of the entry before the new ones.
unfoldable pub check_prev : AppendEntries → Ctx → Rc × Ctx
check_prev rpc r =
    let prev = rpc.prev_log_index in
    let go = after_entries rpc (skip_held rpc (last_index r.log) rpc.entries (prev + 1) r) in
    if prev == 0
    then go
    else if ltb (last_index r.log) prev
    then reply_fail 0 rpc r
    else if ltb prev r.log.last_included_index
    then reply_fail (r.log.last_included_index + 1) rpc r
    else if term_at r.log prev == rpc.prev_log_term
    then go
    else reply_fail 0 rpc r

-- What a message of the current term from its leader resets.
unfoldable pub follow : AppendEntries → Ctx → Ctx
follow rpc r = record r {
  in_pre_vote = false;
  ready_leader_change =
      r.ready_leader_change || not (r.leader_id == rpc.leader_id) || not (is_follower r.role);
  leader_id = rpc.leader_id;
  leader_contact_elapsed = 0;
  election_elapsed = 0;
  role = follower;
}

unfoldable pub accept : AppendEntries → Ctx → Rc × Ctx
accept rpc r =
    if ltb rpc.term r.current_term
    then (ok, r)
    else if is_leader r.role
    then (ok, r)
    else check_prev rpc (follow rpc r)

unfoldable pub recv_append_entries : ℕ → AppendEntries → Ctx → Rc × Ctx
recv_append_entries from rpc r =
    if not (id_valid from) || not (id_valid rpc.leader_id)
    then (ok, r)
    else if leb (term_max + 1) rpc.term
    then (ok, r)
    else accept rpc (if ltb r.current_term rpc.term then step_down rpc.term rpc.leader_id r else r)
