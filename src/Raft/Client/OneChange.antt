-- ===== src/Raft/Client/OneChange.antt =====
-- One membership change at a time in code/raft.h (Raft dissertation, section 4.1).
use kynovo.Common.{
  ℕ, ◌<◌, ◌≡◌, refl, sym, ap, ◌∙◌, inl, inr, Bool, true, false, not, ◌&&◌, ◌||◌, Option, none, some,
  List, [], ◌∷◌, arith, ltb, leb, ◌==◌, Bool-cases, append-nil,
}
use kynovo.Raft.Ids.{Mask, mask_eq, mask_has, set_has, id_valid}
use kynovo.Raft.Log.{Log, last_index}
use kynovo.Raft.State.{
  phase_running, is_follower, Ctx, committed, Status, allocate, set_memory, is_leader,
}
use kynovo.Raft.Reads.{barrier, leader_barrier, follower_barrier, restart_if}
use kynovo.Raft.Reconfig.{zombie_clear, tell_client, sorted_copy, new_servers_caught_up}
use kynovo.Raft.Reconfig.Requests.{
  is_pending, may_change, cancel_unwritten, change_now, change_later, change_sorted, reconfig,
  add_learner, remove_learner, transfer,
}
use kynovo.Raft.Client.Submitted.{submit-nil, submit_cases}
use kynovo.Raft.Client.{
  enqueue, enqueue, Command, append_commands, submit, ClientMessage, client_submit, client_barrier,
  client_reconfig, client_add_learner, client_remove_learner, client_transfer, recvfrom_client,
}

-- The configuration and the change that is under way are as before, and the log has at most commands
-- more.
pub record SameChange (r out : Ctx) : Type 0 where
  pub change : out.change ≡ r.change
  pub old : out.members.config_old ≡ r.members.config_old
  pub new : out.members.config_new ≡ r.members.config_new
  pub learners : out.members.config_learners ≡ r.members.config_learners
  pub joint : out.members.config_joint ≡ r.members.config_joint
  pub log : (cs : List Command) × (out.log ≡ append_commands r.log r.current_term cs)

append_commands-nil : (log : Log) (term : ℕ) → log ≡ append_commands log term []
append_commands-nil log term = ap (λ es. record log { entries = es }) (sym (append-nil log.entries))

SameChange-memory : (r : Ctx) (memory : List Bool) → SameChange r (set_memory r memory)
SameChange-memory r memory = record {
  change = refl;
  old = refl;
  new = refl;
  learners = refl;
  joint = refl;
  log = ([], append_commands-nil r.log r.current_term);
}

SameChange-refl : (r : Ctx) → SameChange r r
SameChange-refl r = SameChange-memory r r.output.memory

tell_client-SameChange :
    (status : Status) (cookie : ℕ) (r : Ctx) → SameChange r (tell_client status cookie r).1
unfolding tell_client
tell_client-SameChange status cookie r = elim (Bool-cases (allocate r.output.memory).0) [
  | inl got ↦ rw got record {
    change = refl;
    old = refl;
    new = refl;
    learners = refl;
    joint = refl;
    log = ([], append_commands-nil r.log r.current_term);
  }
  | inr full ↦ rw full (SameChange-memory r (allocate r.output.memory).1)
]

-- A change whose entry is in the log and not committed.
abbrev pub IsOpen : Ctx → Type 0
IsOpen r = (r.change.config_pending ≡ true) × (r.commit_index < r.change.config_index)

zombie_clear_lem : (r : Ctx) → IsOpen r → zombie_clear r ≡ r
unfolding zombie_clear
zombie_clear_lem r (pending, op) =
    let live : (r.change.config_pending
          && ltb 0 r.change.config_index
          && leb r.change.config_index r.commit_index)
        ≡ false =
      ground (arith, pending, op) in
    rw live refl

cancel_unwritten_lem : (r : Ctx) → IsOpen r → cancel_unwritten r ≡ r
unfolding cancel_unwritten
cancel_unwritten_lem r (pending, op) =
    let written : (r.change.config_pending && r.change.config_index == 0) ≡ false =
      ground (arith, pending, op) in
    rw written refl

is_pending_lem : (r : Ctx) → IsOpen r → is_pending r ≡ true
is_pending_lem r (pending, op) = ground (arith, pending, op)

settled : (r : Ctx) → IsOpen r → zombie_clear (cancel_unwritten r) ≡ r
settled r op = ap zombie_clear (cancel_unwritten_lem r op) ∙ zombie_clear_lem r op

change_now-SameChange :
    (cookie : ℕ) (sorted : Mask) (r : Ctx) → IsOpen r → SameChange r (change_now cookie sorted r).1
unfolding change_now
change_now-SameChange cookie sorted r op = rw (is_pending_lem r op) (SameChange-refl r)

change_later-SameChange :
    (cookie : ℕ) (ids : Mask) (r : Ctx) → IsOpen r → SameChange r (change_later cookie ids r).1
unfolding change_later
change_later-SameChange cookie ids r op = rw (is_pending_lem r op) (SameChange-refl r)

change_sorted-SameChange :
    (cookie : ℕ) (ids : Mask) (r : Ctx) (sorted : Option Mask)
    → IsOpen r
    → SameChange r (change_sorted cookie ids r sorted).1
unfolding change_sorted
change_sorted-SameChange cookie ids r none op = SameChange-refl r
change_sorted-SameChange cookie ids r (some sorted) op =
    elim (Bool-cases (mask_eq sorted r.members.config_old)) [
      | inl same ↦ rw same (tell_client-SameChange committed cookie r)
      | inr other ↦
          elim (Bool-cases
            (new_servers_caught_up r.members.config_old sorted (last_index r.log) r)) [
              | inl reached ↦
                  rw (other, reached, settled r op) (change_now-SameChange cookie sorted r op)
              | inr behind ↦
                  rw (other, behind, settled r op) (change_later-SameChange cookie ids r op)
            ]
    ]

reconfig-SameChange :
    (cookie : ℕ) (ids : Mask) (r : Ctx) → IsOpen r → SameChange r (reconfig cookie ids r).1
unfolding reconfig sorted_copy
reconfig-SameChange cookie ids r op = elim (Bool-cases (may_change cookie r)) [
  | inr refused ↦ rw refused (SameChange-refl r)
  | inl allowed ↦ rw allowed (from_memory (sorted_copy ids r).1.output.memory (sorted_copy ids r).0)
]
  where
    from_memory :
        (memory : List Bool) (sorted : Option Mask)
        → SameChange r (change_sorted cookie ids (set_memory r memory) sorted).1
    from_memory memory sorted =
        let s = change_sorted-SameChange cookie ids (set_memory r memory) sorted op in
        record {
          change = s.change;
          old = s.old;
          new = s.new;
          learners = s.learners;
          joint = s.joint;
          log = s.log;
        }

add_learner-SameChange :
    (cookie id : ℕ) (r : Ctx) → IsOpen r → SameChange r (add_learner cookie id r).1
unfolding add_learner
add_learner-SameChange cookie id r op =
    elim (Bool-cases (not (may_change cookie r) || not (id_valid id))) [
      | inl bad ↦ rw bad (SameChange-refl r)
      | inr good ↦
          elim (Bool-cases
            (mask_has r.members.config_old id || set_has r.members.config_learners id)) [
              | inl known ↦ rw (good, known) (SameChange-refl r)
              | inr fresh ↦
                  rw (good, fresh, zombie_clear_lem r op, is_pending_lem r op) (SameChange-refl r)
            ]
    ]

remove_learner-SameChange :
    (cookie id : ℕ) (r : Ctx) → IsOpen r → SameChange r (remove_learner cookie id r).1
unfolding remove_learner
remove_learner-SameChange cookie id r op =
    elim (Bool-cases (not (may_change cookie r) || not (id_valid id))) [
      | inl bad ↦ rw bad (SameChange-refl r)
      | inr good ↦ elim (Bool-cases (not (set_has r.members.config_learners id))) [
        | inl unknown ↦ rw (good, unknown) (SameChange-refl r)
        | inr known ↦
            rw (good, known, zombie_clear_lem r op, is_pending_lem r op) (SameChange-refl r)
      ]
    ]

-- A call that leaves the log alone.
unlogged :
    (r out : Ctx)
    → out.change ≡ r.change
    → out.members.config_old ≡ r.members.config_old
    → out.members.config_new ≡ r.members.config_new
    → out.members.config_learners ≡ r.members.config_learners
    → out.members.config_joint ≡ r.members.config_joint
    → out.log ≡ r.log
    → SameChange r out
unlogged r out c o n l j same = record {
  change = c;
  old = o;
  new = n;
  learners = l;
  joint = j;
  log = ([], same ∙ append_commands-nil r.log r.current_term);
}

transfer-SameChange : (cookie id : ℕ) (r : Ctx) → SameChange r (transfer cookie id r).1
unfolding transfer
transfer-SameChange cookie id r =
    unlogged r _ (ground arith) (ground arith) (ground arith) (ground arith) (ground arith)
      (ground arith)

leader_barrier-SameChange : (cookie : ℕ) (r : Ctx) → SameChange r (leader_barrier cookie r).1
unfolding leader_barrier restart_if
leader_barrier-SameChange cookie r =
    unlogged r _ (ground arith) (ground arith) (ground arith) (ground arith) (ground arith)
      (ground arith)

follower_barrier-SameChange : (cookie : ℕ) (r : Ctx) → SameChange r (follower_barrier cookie r).1
unfolding follower_barrier
follower_barrier-SameChange cookie r =
    unlogged r _ (ground arith) (ground arith) (ground arith) (ground arith) (ground arith)
      (ground arith)

barrier-SameChange : (cookie : ℕ) (r : Ctx) → SameChange r (barrier cookie r).1
unfolding barrier
barrier-SameChange cookie r = elim (Bool-cases (cookie == 0)) [
  | inl null ↦ rw null (SameChange-refl r)
  | inr real ↦ elim (Bool-cases (not (r.phase == phase_running))) [
    | inl idle ↦ rw (real, idle) (SameChange-refl r)
    | inr runs ↦ elim (Bool-cases (is_leader r.role)) [
      | inl leads ↦ rw (real, runs, leads) (leader_barrier-SameChange cookie r)
      | inr other ↦ elim (Bool-cases (is_follower r.role)) [
        | inl follows ↦ rw (real, runs, other, follows) (follower_barrier-SameChange cookie r)
        | inr stands ↦ rw (real, runs, other, stands) (SameChange-refl r)
      ]
    ]
  ]
]

enqueue-SameChange : (cs : List Command) (r : Ctx) → SameChange r (enqueue cs r).1
unfolding enqueue
enqueue-SameChange cs r = elim (Bool-cases (allocate r.output.memory).0) [
  | inr full ↦ rw full (SameChange-memory r _)
  | inl got ↦ elim (Bool-cases (allocate (allocate r.output.memory).1).0) [
    | inr full ↦ rw (got, full) (SameChange-memory r _)
    | inl got' ↦
        rw (got, got')
          record {
            change = refl;
            old = refl;
            new = refl;
            learners = refl;
            joint = refl;
            log = (cs, refl);
          }
  ]
]

submit-SameChange : (cs : List Command) (r : Ctx) → SameChange r (submit cs r).1
submit-SameChange [] r = rw (submit-nil r) (SameChange-refl r)
submit-SameChange (c ∷ cs) r = elim (submit_cases c cs r) [
  | inl e ↦ rw e (SameChange-refl r)
  | inr e ↦ rw e (enqueue-SameChange (c ∷ cs) r)
]

-- While the entry of a membership change is in the log and not committed, no client request changes
-- the configuration or the change under way, and the log grows by commands alone.
pub recvfrom_client-SameChange :
    (m : ClientMessage) (r : Ctx)
    → r.change.config_pending ≡ true
    → r.commit_index < r.change.config_index
    → SameChange r (recvfrom_client m r).1
unfolding recvfrom_client
recvfrom_client-SameChange (client_submit cs) r p h = submit-SameChange cs r
recvfrom_client-SameChange (client_barrier cookie) r p h = barrier-SameChange cookie r
recvfrom_client-SameChange (client_reconfig cookie ids) r p h =
    reconfig-SameChange cookie ids r (p, h)
recvfrom_client-SameChange (client_add_learner cookie id) r p h =
    add_learner-SameChange cookie id r (p, h)
recvfrom_client-SameChange (client_remove_learner cookie id) r p h =
    remove_learner-SameChange cookie id r (p, h)
recvfrom_client-SameChange (client_transfer cookie id) r p h = transfer-SameChange cookie id r
