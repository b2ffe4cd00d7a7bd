-- ===== src/Raft/Vote/Granted.antt =====
-- When a vote is given, and that its answer waits until the vote is durable.
use kynovo.Common.{
  ℕ, ◌+◌, ◌≤◌, ◌≡◌, refl, sym, ◌∙◌, ◌≢◌, ◌⊎◌, inl, inr, true, false, not, ◌&&◌, ◌||◌, arith, ltb,
  leb, Bool-cases,
}
use kynovo.Raft.State.{Ctx, term_max, next_gen}
use kynovo.Raft.Step.{become_follower, step_down}
use kynovo.Raft.Step.Fields.{step_down-SameCore}
use kynovo.Raft.Vote.{id_valid, ℕ, RequestVote, recv_request_vote, grant, log_ok}
use kynovo.Raft.Vote.Once.{Answered, answer_vote-Answered}

-- A vote that is cast: for the candidate of a real request, in the request's term, whose log is at
-- least as up to date as the receiver's; it waits for the next persist.
pub record Granted (from : ℕ) (rpc : RequestVote) (r out : Ctx) : Type 0 where
  pub candidate : out.voted_for ≡ rpc.candidate_id
  pub real : rpc.pre_vote ≡ false
  pub term : out.current_term ≡ rpc.term
  pub not_stale : r.current_term ≤ rpc.term
  pub up_to_date : log_ok rpc r ≡ true
  pub waits : out.deferred.vote_response ≡ true
  pub to : out.deferred.vote_to ≡ from
  pub until : out.deferred.vote_gen ≡ next_gen out.durable
  pub persists : out.durable.persist_needed ≡ true

log_ok-log : (rpc : RequestVote) (a b : Ctx) → a.log ≡ b.log → log_ok rpc a ≡ log_ok rpc b
unfolding log_ok
log_ok-log rpc a b e = simp e

-- From the answer in a state `s` of the request's term at least, with the log of `r`.
Granted-Answered :
    (from : ℕ) (rpc : RequestVote) (r s out : Ctx)
    → Answered from rpc s out
    → s.log ≡ r.log
    → r.current_term ≤ s.current_term
    → rpc.term ≤ s.current_term
    → out.voted_for ≢ s.voted_for
    → Granted from rpc r out
unfolding grant
Granted-Answered from rpc r s out a same newer bound changed = by_vote a.vote
  where
    by_vote :
        (out.voted_for ≡ s.voted_for)
          ⊎ ((out.voted_for ≡ rpc.candidate_id)
              × ((s.voted_for ≡ 0) ⊎ (s.voted_for ≡ rpc.candidate_id))
              × (rpc.pre_vote ≡ false)
              × (s.current_term ≤ rpc.term)
              × (log_ok rpc s ≡ true)
              × (out ≡ grant from rpc s))
        → Granted from rpc r out
    by_vote (inl e) = absurd (changed e)
    by_vote (inr (e, may, real, late, fresh, g)) = record {
      candidate = e;
      real = real;
      term = omega (arith, a.term);
      not_stale = omega arith;
      up_to_date = sym (log_ok-log rpc s r same) ∙ fresh;
      waits = rw g;
      to = rw g;
      until = rw g;
      persists = rw g;
    }

stepped :
    (rpc : RequestVote) (r : Ctx)
    → rpc.term ≤ term_max
    → let s = step_down rpc.term 0 r in
      (s.log ≡ r.log) × (s.current_term ≡ rpc.term) × (s.voted_for ≡ 0)
unfolding become_follower
stepped rpc r h = let c = step_down-SameCore rpc.term 0 r h in (c.log, c.term, c.voted)

-- If a request changes whom the receiver has voted for, to anybody at all, then it was a real request
-- for that candidate, not older than the receiver's term, with a log at least as up to date; the
-- answer is deferred to the persist that makes the vote durable.
pub recv_request_vote-Granted :
    (from : ℕ) (rpc : RequestVote) (r : Ctx)
    → (recv_request_vote from rpc r).1.voted_for ≢ r.voted_for
    → (recv_request_vote from rpc r).1.voted_for ≢ 0
    → Granted from rpc r (recv_request_vote from rpc r).1
unfolding recv_request_vote
recv_request_vote-Granted from rpc r changed somebody =
    elim (Bool-cases (not (id_valid from) || not (id_valid rpc.candidate_id))) [
      | inl bad ↦ absurd (changed (rw bad))
      | inr valid ↦ elim (Bool-cases (leb (term_max + 1) rpc.term)) [
        | inl over ↦ absurd (changed (rw (valid, over)))
        | inr capped ↦
            elim (Bool-cases (rpc.pre_vote && ltb r.leader_contact_elapsed r.election_min_ms)) [
              | inl grace ↦ absurd (changed (rw (valid, capped, grace)))
              | inr open_to ↦ elim (Bool-cases (ltb r.current_term rpc.term)) [
                | inl newer ↦
                    let (log, term, nobody) = stepped rpc r (ground arith) in
                    rw (valid, capped, open_to, newer)
                      (Granted-Answered from rpc r (step_down rpc.term 0 r) _
                        (answer_vote-Answered from rpc (step_down rpc.term 0 r)) log (ground arith)
                        (omega arith)
                        (λ e. somebody (rw (valid, capped, open_to, newer) (e ∙ nobody))))
                | inr same ↦
                    rw (valid, capped, open_to, same)
                      (Granted-Answered from rpc r r _ (answer_vote-Answered from rpc r) refl
                        (omega arith) (ground arith)
                        (λ e. changed (rw (valid, capped, open_to, same) e)))
              ]
            ]
      ]
    ]
