-- ===== src/Raft/Config.antt =====
-- Applying a configuration of the log to the live one: the functions of code/raft.h from
-- raft_config_pending_clear to raft_apply_config_from_log that the handlers call.
use kynovo.Common.{
  ℕ, zero, suc, ◌+◌, Bool, true, false, not, ◌&&◌, Option, none, some, List, [], ◌∷◌, ltb,
  if◌then◌else◌, length,
}
use kynovo.Raft.Ids.{Mask, mask_any, mask_eq, mask_has, make_sorted_ids}
use kynovo.Raft.Log.{Log, last_index, config_at}
use kynovo.Raft.Peers.{add_voters, add_old, add_new, add_learners}
use kynovo.Raft.State.{Ctx, Members, Change, Rc, ok, fail, allocate}

-- The live configuration with the allocator, while it is being changed.
pub record Work : Type 0 where
  pub members : Members
  pub memory : List Bool

abbrev pub stale : Work → Work
stale w = record w { members = record w.members { config_apply_stale = true } }

-- The next step, if the one before it succeeded.
infixl 5 ◌⨟◌
abbrev pub ◌⨟◌ : {A : Type 0} → Rc × A → (A → Rc × A) → Rc × A
(ok, w) ⨟ f = f w
(fail, w) ⨟ f = (fail, w)

-- An empty list needs no memory.
allocate_for : Mask → List Bool → Bool × List Bool
unfolding allocate
allocate_for ids memory = if mask_any ids then allocate memory else (true, memory)

-- `raft_set_assign`: the set that is left, sorted, or the old one on failure.
unfoldable pub assign : Mask → Mask → List Bool → Rc × Mask × List Bool
unfolding allocate_for
assign set ids memory =
    let (got, memory') = allocate_for ids memory in
    elim (make_sorted_ids got ids) [ none ↦ (fail, set, memory') | some s ↦ (ok, s, memory') ]

unfoldable pub set_old : Mask → Work → Rc × Work
unfolding assign
set_old ids w =
    let (rc, s, memory) = assign w.members.config_old ids w.memory in
    (rc, record { members = record w.members { config_old = s }; memory = memory })

unfoldable pub set_new : Mask → Work → Rc × Work
unfolding assign
set_new ids w =
    let (rc, s, memory) = assign w.members.config_new ids w.memory in
    (rc, record { members = record w.members { config_new = s }; memory = memory })

unfoldable pub set_learners : Mask → Work → Rc × Work
unfolding assign
set_learners ids w =
    let (rc, s, memory) = assign w.members.config_learners ids w.memory in
    (rc, record { members = record w.members { config_learners = s }; memory = memory })

without : Mask → Mask → Mask
without voters [] = []
without voters (x ∷ xs) =
    let rest = without voters xs in if mask_has voters x then rest else x ∷ rest

-- A voter is never a learner.
unfoldable pub assign_learners_filtered : Mask → Mask → Work → Rc × Work
unfolding without allocate_for
assign_learners_filtered learners voters w =
    let ids = without voters learners in
    let (got, memory) = allocate_for ids w.memory in
    if got
    then (ok, record { members = record w.members { config_learners = ids }; memory = memory })
    else (fail, record w { memory = memory })

-- `self` is the node's id, `next` the index after the tip of its log.
unfoldable pub rebuild_peers_normal : ℕ → ℕ → Work → Rc × Work
unfolding allocate add_voters add_learners
rebuild_peers_normal self next w =
    let m = w.members in
    let (got, memory) = allocate w.memory in
    if got
    then (
      ok,
      record {
        members = record m {
          peers =
              add_learners self next m.peers m.config_learners
                (add_voters self next m.peers m.config_new []);
        };
        memory = memory;
      },
    )
    else (fail, record w { memory = memory })

unfoldable pub rebuild_peers_joint : ℕ → ℕ → Work → Rc × Work
unfolding allocate add_old add_new add_learners
rebuild_peers_joint self next w =
    let m = w.members in
    let (got, memory) = allocate w.memory in
    if got
    then (
      ok,
      record {
        members = record m {
          peers =
              add_learners self next m.peers m.config_learners (
                add_new self next m.peers m.config_new (add_old self next m.peers m.config_old []));
        };
        memory = memory;
      },
    )
    else (fail, record w { memory = memory })

abbrev set_joint : Bool → Work → Rc × Work
set_joint joint w = (ok, record w { members = record w.members { config_joint = joint } })

-- The copies of the live sets that a failure restores.
save : Mask → Work → Rc × Work
unfolding assign
save ids w = let (rc, s, memory) = assign [] ids w.memory in (rc, record w { memory = memory })

change_masks : ℕ → ℕ → Mask → Mask → Mask → Work → Rc × Work
change_masks self next cm_old cm_new cm_learners w =
    if mask_eq cm_old cm_new
    then set_old cm_new w
      ⨟ set_new cm_new
      ⨟ assign_learners_filtered cm_learners cm_new
      ⨟ set_joint false
      ⨟ rebuild_peers_normal self next
    else set_old cm_old w
      ⨟ set_new cm_new
      ⨟ assign_learners_filtered cm_learners cm_new
      ⨟ set_joint true
      ⨟ rebuild_peers_joint self next

-- The failure path: the flag, and the saved sets; the results of these writes are ignored.
restore : Members → Work → Work
restore saved w =
    let w1 = (set_old saved.config_old (stale w)).1 in
    let w2 = (set_new saved.config_new w1).1 in
    let w3 = (set_learners saved.config_learners w2).1 in
    record w3 { members = record w3.members { config_joint = saved.config_joint } }

finish : Members → Rc × Work → Rc × Work
unfolding restore
finish saved (ok, w) = (ok, record w { members = record w.members { config_apply_stale = false } })
finish saved (fail, w) = (fail, restore saved w)

after_save : ℕ → ℕ → Mask → Mask → Mask → Rc × Work → Rc × Work
unfolding finish change_masks
after_save self next cm_old cm_new cm_learners (fail, w) = (fail, stale w)
after_save self next cm_old cm_new cm_learners (ok, w) =
    finish w.members (change_masks self next cm_old cm_new cm_learners w)

unfoldable pub apply_config_masks : ℕ → ℕ → Mask → Mask → Mask → Work → Rc × Work
unfolding after_save save
apply_config_masks self next cm_old cm_new cm_learners w =
    after_save self next cm_old cm_new cm_learners
      (save w.members.config_old w ⨟ save w.members.config_new ⨟ save w.members.config_learners)

-- The latest configuration entry of the log: `n` entries above the base are left to look at.
unfoldable pub latest_config : ℕ → Log → Option (Mask × Mask × Mask)
unfolding config_at
latest_config zero log = none
latest_config (suc n) log =
    let rest = latest_config n log in
    elim (config_at log (log.last_included_index + suc n)) [ none ↦ rest | some c ↦ some c ]

-- The configuration at the base: the snapshot's, or the one that the node was created with.
abbrev pub base_config : Ctx → Mask × Mask × Mask
base_config r =
    if ltb 0 r.log.last_included_index && mask_any r.snapshot.cfg_old
    then (r.snapshot.cfg_old, r.snapshot.cfg_new, r.snapshot.cfg_learners)
    else (r.members.config_bootstrap, r.members.config_bootstrap, [])

abbrev pub is_base : Members → Mask × Mask × Mask → Bool
is_base m (b_old, b_new, b_learn) =
    not m.config_apply_stale
    && mask_eq m.config_old b_old
    && mask_eq m.config_new b_new
    && mask_eq m.config_learners b_learn
    && (if m.config_joint then not (mask_eq b_old b_new) else mask_eq b_old b_new)

abbrev pub apply_masks : Ctx → Mask × Mask × Mask → Rc × Ctx
apply_masks r (c_old, c_new, c_learners) =
    let (rc, w) =
      apply_config_masks r.id (last_index r.log + 1) c_old c_new c_learners
        (record { members = r.members; memory = r.output.memory }) in
    (rc, record r { members = w.members; output = record r.output { memory = w.memory } })

unfoldable pub apply_config_from_log : Ctx → Rc × Ctx
unfolding latest_config
apply_config_from_log r = elim (latest_config (length r.log.entries) r.log) [
  | some c ↦ apply_masks r c
  | none ↦ if is_base r.members (base_config r) then (ok, r) else apply_masks r (base_config r)
]

unfoldable pub config_pending_clear : Change → Change
config_pending_clear c = record c {
  pending_old = [];
  pending_new = [];
  pending_learners = [];
  config_pending = false;
  config_index = 0;
  catchup_new = [];
  catchup_cookie = 0;
  catchup_active = false;
  catchup_round = 0;
  catchup_start_index = 0;
  catchup_elapsed = 0;
  catchup_total_elapsed = 0;
}
