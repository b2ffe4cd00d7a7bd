-- ===== src/Raft/Step/Fields.antt =====
-- Which fields stepping down and queueing output leave alone.
use kynovo.Common.{◌∙◌, ℕ, ◌+◌, ◌≤◌, ◌≡◌, refl, inl, inr, arith, leb, if◌then◌else◌, Bool-cases}
use kynovo.Raft.State.{redirect, Ctx, Message, Status, send, term_max}
use kynovo.Raft.Step.{
  clear_barrier_gen, flush_client_results, flush_cookies, become_follower, step_down,
}

-- The fields that only queued output, waiting clients and the allocator do not touch.
pub record SameCore (a b : Ctx) : Type 0 where
  pub id : a.id ≡ b.id
  pub term : a.current_term ≡ b.current_term
  pub voted : a.voted_for ≡ b.voted_for
  pub commit : a.commit_index ≡ b.commit_index
  pub role : a.role ≡ b.role
  pub log : a.log ≡ b.log
  pub members : a.members ≡ b.members
  pub durable : a.durable ≡ b.durable
  pub deferred : a.deferred ≡ b.deferred
  pub leader : a.leader_id ≡ b.leader_id
  pub contact : a.leader_contact_elapsed ≡ b.leader_contact_elapsed

pub SameCore-refl : (a : Ctx) → SameCore a a
SameCore-refl a = record {
  id = refl;
  term = refl;
  voted = refl;
  commit = refl;
  role = refl;
  log = refl;
  members = refl;
  durable = refl;
  deferred = refl;
  leader = refl;
  contact = refl;
}

flush_client_results-SameCore : (s : Status) (r : Ctx) → SameCore (flush_client_results s r) r
unfolding flush_client_results
flush_client_results-SameCore s r = ground arith

flush_cookies-SameCore : (tc cc : ℕ) (r : Ctx) → SameCore (flush_cookies tc cc r) r
unfolding flush_cookies
flush_cookies-SameCore tc c2 r = ground arith

pub send-SameCore : (m : Message) (r : Ctx) → SameCore (send m r).1 r
unfolding send
send-SameCore m r = ground arith

SameCore-trans : (a b c : Ctx) → SameCore a b → SameCore b c → SameCore a c
SameCore-trans a b c p q = record {
  id = p.id ∙ q.id;
  term = p.term ∙ q.term;
  voted = p.voted ∙ q.voted;
  commit = p.commit ∙ q.commit;
  role = p.role ∙ q.role;
  log = p.log ∙ q.log;
  members = p.members ∙ q.members;
  durable = p.durable ∙ q.durable;
  deferred = p.deferred ∙ q.deferred;
  leader = p.leader ∙ q.leader;
  contact = p.contact ∙ q.contact;
}

clear_barrier_gen-SameCore : (r : Ctx) → SameCore (clear_barrier_gen r) r
clear_barrier_gen-SameCore r = ground arith

-- Below the cap, stepping down leaves the core that `become_follower` writes.
pub step_down-SameCore :
    (term new_leader : ℕ) (r : Ctx)
    → term ≤ term_max
    → SameCore (step_down term new_leader r) (become_follower term new_leader r)
unfolding step_down
step_down-SameCore term new_leader r h = elim (Bool-cases (leb (term_max + 1) term)) [
  | inl over ↦ absurd (ground arith)
  | inr under ↦ rw under (
      SameCore-trans _ _ _
        (flush_cookies-SameCore r.transfer.cookie
          (if r.change.catchup_active then r.change.catchup_cookie else 0)
          (clear_barrier_gen (flush_client_results redirect (become_follower term new_leader r))))
        (SameCore-trans _ _ _
          (clear_barrier_gen-SameCore
            (flush_client_results redirect (become_follower term new_leader r)))
          (flush_client_results-SameCore redirect (become_follower term new_leader r))))
]
