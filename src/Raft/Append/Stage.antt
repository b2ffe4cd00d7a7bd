-- ===== src/Raft/Append/Stage.antt =====
-- What AppendEntries leaves alone: the term and the vote on every path, and the commit index but for
-- what the message has established.
use kynovo.Common.{
  ℕ, ◌+◌, ◌≤◌, ◌<◌, ◌≡◌, refl, ◌∙◌, ◌⊎◌, inl, inr, Bool, true, false, not, ◌&&◌, ◌||◌, arith, ltb,
  leb, ◌==◌, if◌then◌else◌, Bool-cases, length,
}
use kynovo.Raft.Log.{last_index, term_at}
use kynovo.Raft.State.{Ctx, Rc, ok, fail, term_max}
use kynovo.Raft.Config.{apply_config_from_log}
use kynovo.Raft.Step.{step_down, become_follower}
use kynovo.Raft.Step.Fields.{step_down-SameCore}
use kynovo.Raft.Vote.Once.{VoteKept}
use kynovo.Raft.Append.{
  is_leader, id_valid, AppendEntries, Outcome, done, reject, broken, skip_held, reply_fail,
  commit_cap, learn_commit, acknowledge, set_persist, settle, after_entries, check_prev, follow,
  accept, recv_append_entries,
}
use kynovo.Raft.Append.Keeps.{
  Same, Same-refl, Same-trans, Same-apply_config, state_of, Same-skip_held, Same-reply_fail,
  Same-acknowledge,
}

-- The commit index stays, or rises to what the message establishes and the leader has committed.
pub record Learned (rpc : AppendEntries) (r out : Ctx) : Type 0 where
  pub term : out.current_term ≡ r.current_term
  pub voted : out.voted_for ≡ r.voted_for
  pub commit :
      (out.commit_index ≡ r.commit_index)
      ⊎ ((r.commit_index < out.commit_index)
          × (out.commit_index ≤ rpc.leader_commit)
          × (out.commit_index ≤ rpc.prev_log_index + length rpc.entries))

Learned-Same : (rpc : AppendEntries) (r out : Ctx) → Same r out → Learned rpc r out
Learned-Same rpc r out s = record { term = s.term; voted = s.voted; commit = inl s.commit }

Learned-between :
    (rpc : AppendEntries) (a b c d : Ctx) → Same a b → Learned rpc b c → Same c d → Learned rpc a d
Learned-between rpc a b c d p q s = record {
  term = s.term ∙ q.term ∙ p.term;
  voted = s.voted ∙ q.voted ∙ p.voted;
  commit = by_commit q.commit;
}
  where
    by_commit :
        (c.commit_index ≡ b.commit_index)
          ⊎ ((b.commit_index < c.commit_index)
              × (c.commit_index ≤ rpc.leader_commit)
              × (c.commit_index ≤ rpc.prev_log_index + length rpc.entries))
        → (d.commit_index ≡ a.commit_index)
          ⊎ ((a.commit_index < d.commit_index)
              × (d.commit_index ≤ rpc.leader_commit)
              × (d.commit_index ≤ rpc.prev_log_index + length rpc.entries))
    by_commit (inl e) = inl (s.commit ∙ e ∙ p.commit)
    by_commit (inr (x, y, z)) =
        inr (omega (arith, s.commit, p.commit), omega (arith, s.commit), omega (arith, s.commit))

learn_commit-Learned : (rpc : AppendEntries) (r : Ctx) → Learned rpc r (learn_commit rpc r)
unfolding learn_commit
learn_commit-Learned rpc r =
    elim (Bool-cases
      (ltb r.commit_index rpc.leader_commit && ltb r.commit_index (commit_cap rpc r))) [
        | inl more ↦ rw more (record {
          term = refl;
          voted = refl;
          commit = inr (ground arith, omega arith, omega arith);
        })
        | inr no_more ↦ rw no_more (Learned-Same rpc r r (Same-refl r))
      ]

Same-set_persist : (b : Bool) (r : Ctx) → Same r (set_persist b r)
Same-set_persist true r = record { term = refl; voted = refl; commit = refl }
Same-set_persist false r = Same-refl r

Learned-settle :
    (rpc : AppendEntries) (ch oom : Bool) (r : Ctx) (o : Rc × Ctx)
    → Same r o.1
    → Learned rpc r (settle rpc ch oom o).1
unfolding settle
Learned-settle rpc ch oom r (fail, s) p = Learned-Same rpc r s p
Learned-settle rpc ch true r (ok, s) p = Learned-Same rpc r s p
Learned-settle rpc ch false r (ok, s) p =
    let b = ltb 0 (length rpc.entries) || ch in
    let c = learn_commit rpc s in
    Learned-between rpc r s c (acknowledge rpc (set_persist b c)) p (learn_commit-Learned rpc s) (
      Same-trans c (set_persist b c) (acknowledge rpc (set_persist b c)) (Same-set_persist b c)
        (Same-acknowledge rpc (set_persist b c)))

Learned-after :
    (rpc : AppendEntries) (r : Ctx) (o : Outcome)
    → Same r (state_of o)
    → Learned rpc r (after_entries rpc o).1
unfolding after_entries
Learned-after rpc r (broken s) p = Learned-Same rpc r s p
Learned-after rpc r (reject hint s) p =
    Learned-Same rpc r (reply_fail hint rpc s).1 (Same-trans r s _ p (Same-reply_fail hint rpc s))
Learned-after rpc r (done ch oom s) p =
    Learned-settle rpc ch oom r _
      (applied (ltb 0 (length rpc.entries) || ch || s.members.config_apply_stale))
  where
    applied : (b : Bool) → Same r (if b then apply_config_from_log s else (ok, s)).1
    applied true = Same-trans r s _ p (Same-apply_config s)
    applied false = p

Learned-check_prev : (rpc : AppendEntries) (r : Ctx) → Learned rpc r (check_prev rpc r).1
unfolding check_prev
Learned-check_prev rpc r = elim (Bool-cases (rpc.prev_log_index == 0)) [
  | inl first ↦ simp first go
  | inr later ↦ elim (Bool-cases (ltb (last_index r.log) rpc.prev_log_index)) [
    | inl past ↦ rw (later, past) (refused 0)
    | inr within ↦ elim (Bool-cases (ltb rpc.prev_log_index r.log.last_included_index)) [
      | inl under ↦ rw (later, within, under) (refused (r.log.last_included_index + 1))
      | inr above ↦ elim (Bool-cases (term_at r.log rpc.prev_log_index == rpc.prev_log_term)) [
        | inl same ↦ rw (later, within, above, same) go
        | inr other ↦ rw (later, within, above, other) (refused 0)
      ]
    ]
  ]
]
  where
    loop : Outcome
    loop = skip_held rpc (last_index r.log) rpc.entries (rpc.prev_log_index + 1) r

    go : Learned rpc r (after_entries rpc loop).1
    go =
        Learned-after rpc r loop
          (Same-skip_held rpc (last_index r.log) rpc.entries (rpc.prev_log_index + 1) r)

    refused : (hint : ℕ) → Learned rpc r (reply_fail hint rpc r).1
    refused hint = Learned-Same rpc r (reply_fail hint rpc r).1 (Same-reply_fail hint rpc r)

Same-follow : (rpc : AppendEntries) (r : Ctx) → Same r (follow rpc r)
unfolding follow
Same-follow rpc r = record { term = refl; voted = refl; commit = refl }

Learned-accept : (rpc : AppendEntries) (r : Ctx) → Learned rpc r (accept rpc r).1
unfolding accept
Learned-accept rpc r = elim (Bool-cases (ltb rpc.term r.current_term)) [
  | inl old ↦ rw old (Learned-Same rpc r r (Same-refl r))
  | inr new ↦ elim (Bool-cases (is_leader r.role)) [
    | inl lead ↦ rw (new, lead) (Learned-Same rpc r r (Same-refl r))
    | inr other ↦
        rw (new, other)
          (Learned-between rpc r (follow rpc r) (check_prev rpc (follow rpc r)).1 _
            (Same-follow rpc r) (Learned-check_prev rpc (follow rpc r)) (Same-refl _))
  ]
]

-- The commit index does not go back, and rises at most to what the message establishes and the
-- leader has committed.
pub record Committed (rpc : AppendEntries) (r out : Ctx) : Type 0 where
  pub grows : r.commit_index ≤ out.commit_index
  pub bound :
      (out.commit_index ≡ r.commit_index)
      ⊎ ((out.commit_index ≤ rpc.leader_commit)
          × (out.commit_index ≤ rpc.prev_log_index + length rpc.entries))

commit-step_down :
    (term to : ℕ) (r : Ctx) → term ≤ term_max → (step_down term to r).commit_index ≡ r.commit_index
unfolding become_follower
commit-step_down term to r h = (step_down-SameCore term to r h).commit

term-step_down :
    (term to : ℕ) (r : Ctx) → term ≤ term_max → (step_down term to r).current_term ≡ term
unfolding become_follower
term-step_down term to r h = (step_down-SameCore term to r h).term

Committed-Learned :
    (rpc : AppendEntries) (r s out : Ctx)
    → s.commit_index ≡ r.commit_index
    → Learned rpc s out
    → Committed rpc r out
Committed-Learned rpc r s out e l = by_commit l.commit
  where
    by_commit :
        (out.commit_index ≡ s.commit_index)
          ⊎ ((s.commit_index < out.commit_index)
              × (out.commit_index ≤ rpc.leader_commit)
              × (out.commit_index ≤ rpc.prev_log_index + length rpc.entries))
        → Committed rpc r out
    by_commit (inl c) = record { grows = omega arith; bound = inl (c ∙ e) }
    by_commit (inr (a, b, c)) = record { grows = omega arith; bound = inr (b, c) }

VoteKept-Learned : (rpc : AppendEntries) (r out : Ctx) → Learned rpc r out → VoteKept r out
VoteKept-Learned rpc r out l = record { term = omega (arith, l.term); vote = λ e v. l.voted }

VoteKept-newer :
    (rpc : AppendEntries) (r s out : Ctx)
    → r.current_term < s.current_term
    → Learned rpc s out
    → VoteKept r out
VoteKept-newer rpc r s out h l = record {
  term = omega (arith, l.term);
  vote = λ e v. absurd (omega (arith, l.term));
}

-- Whatever the message: the term does not go back, a vote stays as it is while the term does, the commit
-- index does not go back, and it rises at most to the leader's commit index and to the last index that
-- the message itself establishes.
pub recv_append_entries-Committed :
    (from : ℕ) (rpc : AppendEntries) (r : Ctx)
    → VoteKept r (recv_append_entries from rpc r).1
      × Committed rpc r (recv_append_entries from rpc r).1
unfolding recv_append_entries
recv_append_entries-Committed from rpc r =
    elim (Bool-cases (not (id_valid from) || not (id_valid rpc.leader_id))) [
      | inl bad ↦ rw bad (within r (Learned-Same rpc r r (Same-refl r)))
      | inr valid ↦ elim (Bool-cases (leb (term_max + 1) rpc.term)) [
        | inl over ↦ rw (valid, over) (within r (Learned-Same rpc r r (Same-refl r)))
        | inr capped ↦ elim (Bool-cases (ltb r.current_term rpc.term)) [
          | inr same ↦ rw (valid, capped, same) (within (accept rpc r).1 (Learned-accept rpc r))
          | inl newer ↦
              let s = step_down rpc.term rpc.leader_id r in
              let e = term-step_down rpc.term rpc.leader_id r (ground arith) in
              let l = Learned-accept rpc s in
              rw (valid, capped, newer)
                (
                  VoteKept-newer rpc r s (accept rpc s).1 (ground arith) l,
                  Committed-Learned rpc r s (accept rpc s).1
                      (commit-step_down rpc.term rpc.leader_id r (ground arith)) l,
                )
        ]
      ]
    ]
  where
    within : (out : Ctx) → Learned rpc r out → VoteKept r out × Committed rpc r out
    within out l = (VoteKept-Learned rpc r out l, Committed-Learned rpc r r out refl l)
