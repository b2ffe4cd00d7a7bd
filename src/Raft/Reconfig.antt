-- ===== src/Raft/Reconfig.antt =====
-- Membership changes that a client asks for: raft_reconfig, raft_add_learner, raft_remove_learner and
-- what they rest on in code/raft.h. A failure that leaves things to undo undoes them in the same call.
pub mod Requests
use kynovo.Raft.Log.{entry_config, Entry, last_index}
use kynovo.Common.{
  ◌+◌, none, leb, map, ◌==◌, ◌||◌, ltb, some, ◌-◌, false, ◌∷◌, keep, ◌&&◌, not, [], Bool, ℕ, Option,
  if◌then◌else◌, true, ◌++◌,
}
use kynovo.Raft.Ids.{Mask, mask_any, mask_eq, mask_has, set_has, id_valid, make_sorted_ids}
use kynovo.Raft.State.{
  round, catchup_ready, fail, set_memory, ok, catchup_failed, Rc, Ctx, Peer, Change, ClientResult,
  Status, allocate, caught_up, gave_up,
}
use kynovo.Raft.Quorum.{find_peer, update_peer}
use kynovo.Raft.Config.{◌⨟◌, assign, apply_config_from_log, config_pending_clear}
use kynovo.Raft.Durable.{log_cut}
use kynovo.Raft.Lead.{append_entry, persist}
use kynovo.Raft.Peers.{fresh_peer, has_peer}
use kynovo.Raft.Reads.{emit, hurry}
use kynovo.Raft.Step.{result_of}
use kynovo.Raft.Progress.{is_nil, with_peers}

abbrev pub set_change : (Change → Change) → Ctx → Ctx
set_change f r = record r { change = f r.change }

-- What a failed call takes back.
abbrev pub undo : (Ctx → Ctx) → Rc × Ctx → Rc × Ctx
undo f (ok, r) = (ok, r)
undo f (fail, r) = (fail, f r)

abbrev pub pending_only_clear : Change → Change
pending_only_clear c = record c {
  pending_old = [];
  pending_new = [];
  pending_learners = [];
  config_pending = false;
  config_index = 0;
}

-- `raft_config_zombie_clear`: a change that is committed is no longer pending.
unfoldable pub zombie_clear : Ctx → Ctx
zombie_clear r =
    if r.change.config_pending
      && ltb 0 r.change.config_index
      && leb r.change.config_index r.commit_index
    then set_change pending_only_clear r
    else r

-- `raft_result_ensure`, then the result.
unfoldable pub tell_client : Status → ℕ → Ctx → Rc × Ctx
unfolding allocate
tell_client status cookie r =
    let (got, memory) = allocate r.output.memory in
    if got
    then (ok, emit (result_of r status cookie) (set_memory r memory))
    else (fail, set_memory r memory)

-- A learner that catches up and has someone to be told.
abbrev pub awaited : Peer → Bool
awaited p =
    p.is_learner
    && not (p.catchup_cookie == 0)
    && (elim p.catchup_round [ round n ↦ true | caught_up ↦ false | gave_up ↦ false ])

abbrev pub told_ready : Peer → Peer
told_ready p = record p { catchup_round = caught_up }

-- The -1 of running out of memory leaves the loop.
unfoldable pub promote_one : ℕ → Ctx → Option Peer → Rc × Ctx
unfolding tell_client
promote_one pid r none = (ok, r)
promote_one pid r (some p) =
    if awaited p
    then tell_client catchup_ready p.catchup_cookie r
      ⨟ (λ r'. (ok, with_peers (update_peer pid told_ready) r'))
    else (ok, r)

unfoldable pub promote : Mask → Rc × Ctx → Ctx
unfolding promote_one
promote [] (rc, r) = r
promote (pid ∷ ids) (fail, r) = r
promote (pid ∷ ids) (ok, r) =
    promote ids (if pid == r.id then (ok, r) else promote_one pid r (find_peer pid r.members.peers))

unfoldable pub config_entry : Ctx → Entry
config_entry r = record {
  term = r.current_term;
  kind = entry_config;
  bytes = [];
  cfg_old = r.change.pending_old;
  cfg_new = r.change.pending_new;
  cfg_learners = r.change.pending_learners;
}

-- The last part, once the entry is in the log: the configuration applies at once, and the client waits
-- for the entry.
unfoldable pub settle_config : ℕ → Ctx → Rc × Ctx
unfolding promote
settle_config cookie r =
    let idx = r.change.config_index in
    undo (log_cut (idx - 1)) (apply_config_from_log (promote r.change.pending_new (ok, r))) ⨟ (λ r'.
      (
        ok,
        persist (record r' {
          waiting = record r'.waiting {
            client_pending = r'.waiting.client_pending ++ (cookie, idx) ∷ [];
          };
        }),
      ))

unfoldable pub commit_config_entry : ℕ → Ctx → Rc × Ctx
unfolding allocate config_entry settle_config append_entry
commit_config_entry cookie r =
    let (got, memory) = allocate r.output.memory in
    let r1 = set_memory r memory in
    let r2 = set_change (λ c. record c { config_index = last_index r.log + 1 }) r1 in
    undo (set_change pending_only_clear)
      (if got then append_entry (config_entry r2) r2 ⨟ settle_config cookie else (fail, r1))

reached_all : Mask → Mask → ℕ → Ctx → Bool
reached_all old [] target r = true
reached_all old (pid ∷ ids) target r =
    let rest = reached_all old ids target r in
    if mask_has old pid || pid == r.id then rest else elim (find_peer pid r.members.peers) [
      | none ↦ false
      | some p ↦ leb target p.match_index && rest
    ]

-- `raft_new_servers_caught_up`: every new voter has reached the target.
unfoldable pub new_servers_caught_up : Mask → Mask → ℕ → Ctx → Bool
unfolding reached_all
new_servers_caught_up old new target r =
    if not (mask_any old) || not (mask_any new) then false else reached_all old new target r

-- `raft_ensure_catchup_peers`: the new servers that are no peers yet become peers in no configuration.
unfoldable pub ensure_catchup_peers : Mask → Ctx → Rc × Ctx
unfolding allocate
ensure_catchup_peers new r =
    let missing = keep (λ pid. not (pid == r.id || has_peer pid r.members.peers)) new in
    let (got, memory) = allocate r.output.memory in
    let made = map (λ pid. fresh_peer pid false false false (last_index r.log + 1)) missing in
    if is_nil missing
    then (ok, r)
    else if got
    then (ok, with_peers (λ ps. ps ++ made) (set_memory r memory))
    else (fail, set_memory r memory)

abbrev pub catchup_clear : Change → Change
catchup_clear c = record c {
  catchup_new = [];
  catchup_cookie = 0;
  catchup_active = false;
  catchup_round = 0;
  catchup_start_index = 0;
  catchup_elapsed = 0;
  catchup_total_elapsed = 0;
}

unfoldable pub deferred_catchup_abort : Ctx → Ctx
unfolding tell_client
deferred_catchup_abort r =
    set_change catchup_clear (tell_client catchup_failed r.change.catchup_cookie r).1

-- `raft_set_copy` into one of the sets of the pending change.
unfoldable pub copy_set : (Change → Mask) → (Mask → Change → Change) → Mask → Ctx → Rc × Ctx
unfolding assign
copy_set get put ids r =
    let (rc, s, memory) = assign (get r.change) ids r.output.memory in
    (rc, set_change (put s) (set_memory r memory))

unfoldable pub copy_old : Mask → Ctx → Rc × Ctx
unfolding copy_set
copy_old = copy_set (λ c. c.pending_old) (λ s c. record c { pending_old = s })

unfoldable pub copy_new : Mask → Ctx → Rc × Ctx
unfolding copy_set
copy_new = copy_set (λ c. c.pending_new) (λ s c. record c { pending_new = s })

unfoldable pub copy_learners : Mask → Ctx → Rc × Ctx
unfolding copy_set
copy_learners = copy_set (λ c. c.pending_learners) (λ s c. record c { pending_learners = s })

-- A sorted copy of ids; the allocation is made for a list that is not empty.
unfoldable pub sorted_copy : Mask → Ctx → Option Mask × Ctx
unfolding allocate make_sorted_ids
sorted_copy ids r =
    let (got, memory) =
      if mask_any ids then allocate r.output.memory else (true, r.output.memory) in
    (make_sorted_ids got ids, set_memory r memory)

-- The change from the present voters to others.
abbrev pub pend : Mask → Ctx → Ctx
pend sorted r = set_change (λ c. record c { config_pending = true; pending_new = sorted }) r
