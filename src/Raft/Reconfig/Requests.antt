-- ===== src/Raft/Reconfig/Requests.antt =====
-- The requests of code/raft.h that change the members: raft_maybe_advance_reconfig, raft_reconfig,
-- raft_add_learner, raft_remove_learner and raft_transfer.
use kynovo.Common.{
  ℕ, Bool, true, false, not, ◌&&◌, ◌||◌, Option, none, some, [], ◌∷◌, keep, ◌==◌, ltb,
  if◌then◌else◌,
}
use kynovo.Raft.Ids.{Mask, mask_any, mask_eq, mask_has, set_has, id_valid}
use kynovo.Raft.Log.{last_index}
use kynovo.Raft.State.{
  Ctx, Peer, Rc, ok, fail, committed, is_leader, phase_running, allocate, set_memory,
}
use kynovo.Raft.Quorum.{find_peer, update_peer}
use kynovo.Raft.Config.{◌⨟◌, assign, config_pending_clear}
use kynovo.Raft.Progress.{with_peers}
use kynovo.Raft.Reads.{hurry}
use kynovo.Raft.Reconfig.{
  set_change, undo, pend, catchup_clear, zombie_clear, tell_client, sorted_copy, copy_old, copy_new,
  copy_learners, commit_config_entry, new_servers_caught_up, ensure_catchup_peers,
}

abbrev pub drop_pending : Ctx → Ctx
drop_pending r =
    set_change (λ c. record c { pending_old = []; pending_new = []; config_pending = false }) r

abbrev drop_old : Ctx → Ctx
drop_old r = set_change (λ c. record c { pending_old = []; config_pending = false }) r

unfoldable pub advance_sorted : Ctx → Option Mask → Rc × Ctx
unfolding copy_old copy_learners commit_config_entry
advance_sorted r none = (fail, r)
advance_sorted r (some sorted) =
    copy_old r.members.config_old r
    ⨟ (λ r1. undo drop_pending (copy_learners r1.members.config_learners (pend sorted r1)))
    ⨟ (λ r2. commit_config_entry r2.change.catchup_cookie r2)
    ⨟ (λ r3. (ok, set_change catchup_clear r3))

-- The change that was deferred until the new servers had caught up.
unfoldable pub maybe_advance_reconfig : Ctx → Rc × Ctx
unfolding advance_sorted sorted_copy
maybe_advance_reconfig r =
    let (sorted, r') = sorted_copy r.change.catchup_new r in
    if not (is_leader r.role) || not r.change.catchup_active
    then (ok, r)
    else advance_sorted r' sorted

-- What every change needs: a cookie, a leader that runs, no transfer, no joint configuration and no
-- change that is deferred.
unfoldable pub may_change : ℕ → Ctx → Bool
may_change cookie r =
    not (cookie == 0)
    && r.phase == phase_running
    && is_leader r.role
    && not (id_valid r.transfer.target)
    && not r.members.config_joint
    && not r.change.catchup_active

-- A pending change whose entry is not in the log yet is cancelled, with the catch-up it may have.
unfoldable pub cancel_unwritten : Ctx → Ctx
cancel_unwritten r =
    if r.change.config_pending && r.change.config_index == 0
    then set_change config_pending_clear r
    else r

abbrev pub is_pending : Ctx → Bool
is_pending r = r.change.config_pending && ltb 0 r.change.config_index

-- At once, when nobody has to catch up.
unfoldable pub change_now : ℕ → Mask → Ctx → Rc × Ctx
unfolding copy_old copy_learners commit_config_entry
change_now cookie sorted r =
    if is_pending r
    then (fail, r)
    else copy_old r.members.config_old r
      ⨟ (λ r1.
          undo (set_change config_pending_clear)
            (copy_learners r1.members.config_learners (pend sorted r1)))
      ⨟ commit_config_entry cookie

set_catchup : Mask → Ctx → Rc × Ctx
unfolding assign
set_catchup ids r =
    let (rc, s, memory) = assign r.change.catchup_new ids r.output.memory in
    (rc, set_change (λ c. record c { catchup_new = s }) (set_memory r memory))

abbrev forget_catchup : Ctx → Ctx
forget_catchup r = set_change (λ c. record c { catchup_new = []; catchup_cookie = 0 }) r

-- Later, once the new servers have caught up.
unfoldable pub change_later : ℕ → Mask → Ctx → Rc × Ctx
unfolding set_catchup ensure_catchup_peers
change_later cookie ids r =
    if is_pending r
    then (fail, r)
    else set_catchup ids r
      ⨟ (λ r1.
          let r2 = set_change (λ c. record c { catchup_cookie = cookie }) r1 in
          undo forget_catchup (ensure_catchup_peers r2.change.catchup_new r2))
      ⨟ (λ r3. (
        ok,
        hurry (
            set_change
              (λ c. record c {
                catchup_active = true;
                catchup_round = 0;
                catchup_start_index = 0;
                catchup_elapsed = 0;
                catchup_total_elapsed = 0;
              })
              r3),
      ))

unfoldable pub change_sorted : ℕ → Mask → Ctx → Option Mask → Rc × Ctx
unfolding tell_client zombie_clear cancel_unwritten new_servers_caught_up change_now change_later
change_sorted cookie ids r none = (fail, r)
change_sorted cookie ids r (some sorted) =
    if mask_eq sorted r.members.config_old
    then tell_client committed cookie r
    else if new_servers_caught_up r.members.config_old sorted (last_index r.log) r
    then change_now cookie sorted (zombie_clear (cancel_unwritten r))
    else change_later cookie ids (zombie_clear (cancel_unwritten r))

unfoldable pub reconfig : ℕ → Mask → Ctx → Rc × Ctx
unfolding may_change sorted_copy change_sorted
reconfig cookie ids r =
    let (sorted, r') = sorted_copy ids r in
    if may_change cookie r then change_sorted cookie ids r' sorted else (fail, r)

-- The learners with one more, in order.
unfoldable pub with_learner : ℕ → Mask → Mask
with_learner id [] = id ∷ []
with_learner id (x ∷ xs) =
    let rest = with_learner id xs in if ltb x id then x ∷ rest else id ∷ x ∷ xs

-- The voters stay and the learners change. The copy of the learners is made first.
change_learners : ℕ → Mask → Ctx → Rc × Ctx
unfolding copy_old copy_new commit_config_entry allocate
change_learners cookie learners r =
    let (got, memory) =
      if mask_any learners then allocate r.output.memory else (true, r.output.memory) in
    let r0 = set_memory r memory in
    if got
    then copy_old r0.members.config_old r0
      ⨟ (λ r1. undo drop_old (copy_new r1.members.config_old (pend [] r1)))
      ⨟ (λ r2.
          commit_config_entry cookie
            (set_change (λ c. record c { pending_learners = learners }) r2))
    else (fail, r0)

abbrev set_cookie : ℕ → Peer → Peer
set_cookie cookie p = record p { catchup_cookie = cookie }

unfoldable pub add_learner : ℕ → ℕ → Ctx → Rc × Ctx
unfolding may_change zombie_clear cancel_unwritten with_learner change_learners
add_learner cookie id r =
    let r0 = zombie_clear r in
    let r1 = cancel_unwritten r0 in
    if not (may_change cookie r) || not (id_valid id)
    then (fail, r)
    else if mask_has r.members.config_old id || set_has r.members.config_learners id
    then (fail, r)
    else if is_pending r0
    then (fail, r0)
    else change_learners cookie (with_learner id r1.members.config_learners) r1
      ⨟ (λ r2. (ok, with_peers (update_peer id (set_cookie cookie)) r2))

unfoldable pub remove_learner : ℕ → ℕ → Ctx → Rc × Ctx
unfolding may_change zombie_clear cancel_unwritten change_learners
remove_learner cookie id r =
    let r0 = zombie_clear r in
    let r1 = cancel_unwritten r0 in
    if not (may_change cookie r) || not (id_valid id)
    then (fail, r)
    else if not (set_has r.members.config_learners id)
    then (fail, r)
    else if is_pending r0
    then (fail, r0)
    else change_learners cookie (keep (λ x. not (x == id)) r1.members.config_learners) r1

is_learner_peer : Option Peer → Bool
is_learner_peer none = false
is_learner_peer (some p) = p.is_learner

unfoldable pub transfer : ℕ → ℕ → Ctx → Rc × Ctx
unfolding is_learner_peer
transfer cookie target r =
    if cookie == 0
    then (fail, r)
    else if not (r.phase == phase_running) || not (is_leader r.role)
    then (fail, r)
    else if id_valid r.transfer.target || not (id_valid target)
    then (fail, r)
    else if is_learner_peer (find_peer target r.members.peers)
    then (fail, r)
    else (ok, record r { transfer = record { target = target; elapsed = 0; cookie = cookie } })
