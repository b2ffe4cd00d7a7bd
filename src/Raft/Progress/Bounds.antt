-- ===== src/Raft/Progress/Bounds.antt =====
-- What raft_recv_append_entries_result of code/raft.h does to a follower's progress and to the commit
-- index.
use kynovo.Common.{
  ℕ, min, ◌≤◌, ◌<◌, ◌≡◌, ◌∙◌, ◌&&◌, inl, inr, refl, Bool, true, false, ltb, leb, if◌then◌else◌,
  arith, Bool-cases,
}
use kynovo.Raft.Log.{Log, last_index}
use kynovo.Raft.State.{Peer, Waiting}
use kynovo.Raft.Progress.{
  AppendResult, resume_at, answers_read, contact, after_success, after_refusal, progress,
}
use kynovo.Raft.Progress.Search.{IsOrdered, past_term-Splits}

-- What an answer may do to a peer: it stays the voter that it was, its match never falls, stays
-- within the leader's log and rises no further than a success acknowledges, and the next index stays
-- positive.
pub record Forward (log : Log) (result : AppendResult) (p out : Peer) : Type 0 where
  pub old : out.in_old_config ≡ p.in_old_config
  pub new : out.in_new_config ≡ p.in_new_config
  pub learner : out.is_learner ≡ p.is_learner
  pub rises : p.match_index ≤ out.match_index
  pub bounded : p.match_index ≤ last_index log → out.match_index ≤ last_index log
  pub acked :
      (n : ℕ)
      → (result.success ≡ true → result.last_log_index ≤ n)
      → p.match_index ≤ n
      → out.match_index ≤ n
  pub started : 0 < p.next_index → 0 < out.next_index

-- A step that leaves match and next index is one forward.
steady :
    (log : Log) (result : AppendResult) (p out : Peer)
    → out.in_old_config ≡ p.in_old_config
    → out.in_new_config ≡ p.in_new_config
    → out.is_learner ≡ p.is_learner
    → out.match_index ≡ p.match_index
    → (0 < p.next_index → 0 < out.next_index)
    → Forward log result p out
steady log result p out old new learner match next = record {
  old = old;
  new = new;
  learner = learner;
  rises = omega arith;
  bounded = λ h. omega arith;
  acked = λ n a h. omega arith;
  started = next;
}

pub contact-Forward :
    (log : Log) (result : AppendResult) (w : Waiting) (p : Peer)
    → Forward log result p (contact result w p)
unfolding contact
contact-Forward log result w p = by_tests (answers_read result w p) p.is_learner
  where
    by_tests :
        (yea learner : Bool)
        → Forward log result p (
            let p' = if yea then record p { read_index_acked = true } else p in
            if learner then p' else record p' { quorum_acked = true; missed_rounds = 0 })
    by_tests true true = steady log result p _ refl refl refl refl (λ h. h)
    by_tests true false = steady log result p _ refl refl refl refl (λ h. h)
    by_tests false true = steady log result p _ refl refl refl refl (λ h. h)
    by_tests false false = steady log result p _ refl refl refl refl (λ h. h)

resume_at-positive :
    (log : Log) (result : AppendResult)
    → IsOrdered log
    → 0 < result.conflict_first_index
    → 0 < resume_at log result
unfolding resume_at
resume_at-positive log result o h =
    let s = past_term-Splits log result.conflict_term o in ground (arith, s.above_base, h)

after_success-Forward :
    (log : Log) (result : AppendResult) (p : Peer)
    → result.success ≡ true
    → Forward log result p (after_success log result p)
after_success-Forward log result p won =
    let new_match = min result.last_log_index (last_index log) in
    elim (Bool-cases (leb p.match_index new_match)) [
      | inr stale ↦ rw stale (steady log result p p refl refl refl refl (λ h. h))
      | inl further ↦ rw further record {
        old = refl;
        new = refl;
        learner = refl;
        rises = ground (arith, further);
        bounded = λ h. omega arith;
        acked = λ n a h. omega (arith, a won);
        started = λ h. omega arith;
      }
    ]

after_refusal-Forward :
    (log : Log) (result : AppendResult) (p : Peer)
    → IsOrdered log
    → Forward log result p (after_refusal log result p)
after_refusal-Forward log result p o =
    elim (Bool-cases (ltb 0 result.conflict_term && ltb 0 result.conflict_first_index)) [
      | inl conflict ↦ rw conflict (
          steady log result p _ refl refl refl refl
            (λ h. resume_at-positive log result o (ground (arith, conflict))))
      | inr plain ↦ elim (Bool-cases (ltb 0 result.rejected)) [
        | inl hint ↦
            rw (plain, hint) (steady log result p _ refl refl refl refl (λ h. ground (arith, hint)))
        | inr no_hint ↦ elim (Bool-cases (ltb 1 p.next_index)) [
          | inl back ↦
              rw (plain, no_hint, back)
                (steady log result p _ refl refl refl refl (λ h. ground (arith, back)))
          | inr first ↦
              rw (plain, no_hint, first) (steady log result p p refl refl refl refl (λ h. h))
        ]
      ]
    ]

pub progress-Forward :
    (log : Log) (result : AppendResult) (p : Peer)
    → IsOrdered log
    → Forward log result p (progress log result p)
unfolding progress
progress-Forward log result p o = by_success result.success refl
  where
    by_success :
        (success : Bool)
        → result.success ≡ success
        → Forward log result p
            (if success then after_success log result p else after_refusal log result p)
    by_success true e = after_success-Forward log result p e
    by_success false e = after_refusal-Forward log result p o

pub Forward-trans :
    (log : Log) (result : AppendResult) (p q r : Peer)
    → Forward log result p q
    → Forward log result q r
    → Forward log result p r
Forward-trans log result p q r f g = record {
  old = g.old ∙ f.old;
  new = g.new ∙ f.new;
  learner = g.learner ∙ f.learner;
  rises = omega (arith, f.rises, g.rises);
  bounded = λ h. g.bounded (f.bounded h);
  acked = λ n a h. g.acked n a (f.acked n a h);
  started = λ h. g.started (f.started h);
}
