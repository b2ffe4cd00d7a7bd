-- ===== src/Raft/Vote/Once.antt =====
-- One vote in a term, and whom it may go to.
use kynovo.Common.{
  ℕ, ◌+◌, ◌≤◌, ◌<◌, ◌≡◌, refl, sym, ◌∙◌, ◌≢◌, ◌⊎◌, inl, inr, true, false, not, ◌&&◌, ◌||◌, arith,
  ltb, leb, ◌==◌, ==_iff, Bool-cases,
}
use kynovo.Raft.State.{vote_result, Ctx, send, term_max}
use kynovo.Raft.Step.{become_follower, step_down}
use kynovo.Raft.Step.Fields.{SameCore-refl, SameCore, send-SameCore, step_down-SameCore}
use kynovo.Raft.Vote.{
  id_valid, voted_other, RequestVote, recv_request_vote, answer_vote, grant, log_ok,
}

-- The term does not go back, and within a term a vote that was cast is not changed.
pub record VoteKept (r out : Ctx) : Type 0 where
  pub term : r.current_term ≤ out.current_term
  pub vote : out.current_term ≡ r.current_term → r.voted_for ≢ 0 → out.voted_for ≡ r.voted_for

VoteKept-refl : (r : Ctx) → VoteKept r r
VoteKept-refl r = record { term = omega arith; vote = λ e n. refl }

may_vote :
    (rpc : RequestVote) (r : Ctx)
    → (not rpc.pre_vote && voted_other rpc r) ≡ false
    → rpc.pre_vote ≡ false
    → (r.voted_for ≡ 0) ⊎ (r.voted_for ≡ rpc.candidate_id)
may_vote rpc r free real = elim (Bool-cases (r.voted_for == 0)) [
  | inl e ↦ inl ((==_iff _ _).0 e)
  | inr e ↦ inr (ground arith)
]

-- What the answer leaves: the old vote, or the vote for a candidate that may have it.
pub record Answered (from : ℕ) (rpc : RequestVote) (r out : Ctx) : Type 0 where
  pub term : out.current_term ≡ r.current_term
  pub vote :
      (out.voted_for ≡ r.voted_for)
      ⊎ ((out.voted_for ≡ rpc.candidate_id)
          × ((r.voted_for ≡ 0) ⊎ (r.voted_for ≡ rpc.candidate_id))
          × (rpc.pre_vote ≡ false)
          × (r.current_term ≤ rpc.term)
          × (log_ok rpc r ≡ true)
          × (out ≡ grant from rpc r))

Answered-same :
    (from : ℕ) (rpc : RequestVote) (r out : Ctx) → SameCore out r → Answered from rpc r out
Answered-same from rpc r out s = record { term = s.term; vote = inl s.voted }

Answered-grant :
    (from : ℕ) (rpc : RequestVote) (r : Ctx)
    → (r.voted_for ≡ 0) ⊎ (r.voted_for ≡ rpc.candidate_id)
    → rpc.pre_vote ≡ false
    → r.current_term ≤ rpc.term
    → log_ok rpc r ≡ true
    → Answered from rpc r (grant from rpc r)
unfolding grant
Answered-grant from rpc r may real late fresh = record {
  term = refl;
  vote = inr (refl, may, real, late, fresh, refl);
}

VoteKept-Answered :
    (from : ℕ) (rpc : RequestVote) (r out : Ctx) → Answered from rpc r out → VoteKept r out
VoteKept-Answered from rpc r out a = record {
  term = omega (arith, a.term);
  vote = λ e voted. kept voted a.vote;
}
  where
    kept :
        r.voted_for ≢ 0
        → (out.voted_for ≡ r.voted_for)
          ⊎ ((out.voted_for ≡ rpc.candidate_id)
              × ((r.voted_for ≡ 0) ⊎ (r.voted_for ≡ rpc.candidate_id))
              × (rpc.pre_vote ≡ false)
              × (r.current_term ≤ rpc.term)
              × (log_ok rpc r ≡ true)
              × (out ≡ grant from rpc r))
        → out.voted_for ≡ r.voted_for
    kept voted (inl e) = e
    kept voted (inr (e, inl none_yet, p, l, o, g)) = absurd (voted none_yet)
    kept voted (inr (e, inr same, p, l, o, g)) = e ∙ sym same

pub answer_vote-Answered :
    (from : ℕ) (rpc : RequestVote) (r : Ctx) → Answered from rpc r (answer_vote from rpc r).1
unfolding answer_vote
answer_vote-Answered from rpc r = elim (Bool-cases (ltb rpc.term r.current_term)) [
  | inl late ↦ rw late stay
  | inr late ↦ elim (Bool-cases (not rpc.pre_vote && voted_other rpc r)) [
    | inl taken ↦ rw (late, taken) stay
    | inr free ↦ elim (Bool-cases (log_ok rpc r)) [
      | inr old ↦ rw (late, free, old) stay
      | inl fresh ↦ elim (Bool-cases rpc.pre_vote) [
        | inl pre ↦
            rw (late, free, fresh)
              (simp pre (
                Answered-same from rpc r (send (vote_result from r.current_term true true) r).1
                  (send-SameCore (vote_result from r.current_term true true) r)))
        | inr real ↦
            rw (late, free, fresh)
              (simp real
                (Answered-grant from rpc r (may_vote rpc r free real) real (ground arith) fresh))
      ]
    ]
  ]
]
  where
    stay : Answered from rpc r r
    stay = Answered-same from rpc r r (SameCore-refl r)

VoteKept-answer : (from : ℕ) (rpc : RequestVote) (r : Ctx) → VoteKept r (answer_vote from rpc r).1
VoteKept-answer from rpc r = VoteKept-Answered from rpc r _ (answer_vote-Answered from rpc r)

term-step_down :
    (term to : ℕ) (r : Ctx) → term ≤ term_max → (step_down term to r).current_term ≡ term
unfolding become_follower
term-step_down term to r h = (step_down-SameCore term to r h).term

VoteKept-newer :
    (from : ℕ) (rpc : RequestVote) (r : Ctx)
    → rpc.term ≤ term_max
    → r.current_term < rpc.term
    → VoteKept r (answer_vote from rpc (step_down rpc.term 0 r)).1
VoteKept-newer from rpc r capped newer =
    let a = answer_vote-Answered from rpc (step_down rpc.term 0 r) in
    let e = a.term ∙ term-step_down rpc.term 0 r capped in
    record { term = omega arith; vote = λ same voted. absurd (omega arith) }

-- Whatever the request, the term does not go back and a vote cast in a term stays as it is.
pub recv_request_vote-VoteKept :
    (from : ℕ) (rpc : RequestVote) (r : Ctx) → VoteKept r (recv_request_vote from rpc r).1
unfolding recv_request_vote
recv_request_vote-VoteKept from rpc r =
    elim (Bool-cases (not (id_valid from) || not (id_valid rpc.candidate_id))) [
      | inl bad ↦ rw bad (VoteKept-refl r)
      | inr valid ↦ elim (Bool-cases (leb (term_max + 1) rpc.term)) [
        | inl over ↦ rw (valid, over) (VoteKept-refl r)
        | inr capped ↦
            elim (Bool-cases (rpc.pre_vote && ltb r.leader_contact_elapsed r.election_min_ms)) [
              | inl grace ↦ rw (valid, capped, grace) (VoteKept-refl r)
              | inr open_to ↦ elim (Bool-cases (ltb r.current_term rpc.term)) [
                | inl newer ↦
                    rw (valid, capped, open_to, newer)
                      (VoteKept-newer from rpc r (ground arith) (ground arith))
                | inr same ↦ rw (valid, capped, open_to, same) (VoteKept-answer from rpc r)
              ]
            ]
      ]
    ]
