-- ===== src/Raft/Append/Keeps.antt =====
-- What no step of AppendEntries but the commit touches: the term, the vote and the commit index.
use kynovo.Common.{
  ℕ, ◌+◌, ◌-◌, min, ◌≡◌, refl, ◌∙◌, inl, inr, Bool, true, false, not, ◌&&◌, ◌||◌, List, [], ◌∷◌,
  ltb, leb, ◌==◌, Bool-cases, Option-cases, length,
}
use kynovo.Raft.Log.{truncate, Entry, last_index, truncate, term_at}
use kynovo.Raft.State.{Ctx, Message, append_result, Rc, ok, fail, allocate, send}
use kynovo.Raft.Config.{apply_config_from_log, latest_config, is_base, base_config}
use kynovo.Raft.Durable.{log_cut, durable_clamp}
use kynovo.Raft.Lead.{append_entry}
use kynovo.Raft.Step.Fields.{send-SameCore}
use kynovo.Raft.Append.{
  RpcEntry, AppendEntries, to_entry, entry_term, over_cap, bad_kind, Outcome, done, reject, broken,
  append_next, append_step, append_all, skip_held, conflict, rejected_hint, reply_fail, acknowledge,
}

-- The term, the vote and the commit index are as they were.
pub record Same (r out : Ctx) : Type 0 where
  pub term : out.current_term ≡ r.current_term
  pub voted : out.voted_for ≡ r.voted_for
  pub commit : out.commit_index ≡ r.commit_index

pub Same-refl : (r : Ctx) → Same r r
Same-refl r = record { term = refl; voted = refl; commit = refl }

pub Same-trans : (a b c : Ctx) → Same a b → Same b c → Same a c
Same-trans a b c p q = record {
  term = q.term ∙ p.term;
  voted = q.voted ∙ p.voted;
  commit = q.commit ∙ p.commit;
}

pub Same-append_entry : (e : Entry) (r : Ctx) → Same r (append_entry e r).1
unfolding append_entry
Same-append_entry e r = elim (Bool-cases (allocate r.output.memory).0) [
  | inl got ↦ rw got (record { term = refl; voted = refl; commit = refl })
  | inr got ↦ rw got (record { term = refl; voted = refl; commit = refl })
]

pub Same-log_cut : (idx : ℕ) (r : Ctx) → Same r (log_cut idx r)
unfolding log_cut durable_clamp
Same-log_cut idx r = elim (Option-cases (truncate r.log idx)) [
  | inl e ↦ rw (e, log_cut) (record { term = refl; voted = refl; commit = refl })
  | inr (b, e) ↦ rw (e, log_cut) (record { term = refl; voted = refl; commit = refl })
]

pub Same-apply_config : (r : Ctx) → Same r (apply_config_from_log r).1
unfolding apply_config_from_log
Same-apply_config r = elim (Option-cases (latest_config (length r.log.entries) r.log)) [
  | inr (c, e) ↦ rw (e, apply_config_from_log) (record { term = refl; voted = refl; commit = refl })
  | inl e ↦ elim (Bool-cases (is_base r.members (base_config r))) [
    | inl b ↦ rw (e, b, apply_config_from_log) (Same-refl r)
    | inr b ↦ rw (e, b, apply_config_from_log) (record { term = refl; voted = refl; commit = refl })
  ]
]

-- The state in which the loop ends.
abbrev pub state_of : Outcome → Ctx
state_of (done a b r) = r
state_of (reject a r) = r
state_of (broken r) = r

pub Same-append_next :
    (es : List RpcEntry) (rest : Outcome) (r s : Ctx)
    → Same r s
    → Same r (state_of rest)
    → Same r (state_of (append_next es rest s))
unfolding append_next
Same-append_next [] rest r s p q = q
Same-append_next (e ∷ es) rest r s p q = elim (Bool-cases (over_cap e)) [
  | inl over ↦ rw over p
  | inr under ↦ rw under q
]

pub Same-append_step :
    (es : List RpcEntry) (ch : Bool) (k : Ctx → Outcome) (r : Ctx) (o : Rc × Ctx)
    → Same r o.1
    → ((s : Ctx) → Same s (state_of (k s)))
    → Same r (state_of (append_step es ch k o))
unfolding append_step
Same-append_step es ch k r (fail, s) p q = p
Same-append_step es ch k r (ok, s) p q = Same-append_next es (k s) r s p (Same-trans r s _ p (q s))

pub Same-append_all :
    (rpc : AppendEntries) (es : List RpcEntry) (ch : Bool) (r : Ctx)
    → Same r (state_of (append_all rpc es ch r))
unfolding append_all
Same-append_all rpc [] ch r = Same-refl r
Same-append_all rpc (e ∷ es) ch r =
    Same-append_step es ch (λ s. append_all rpc es ch s) r (append_entry (to_entry rpc e) r)
      (Same-append_entry (to_entry rpc e) r) (λ s. Same-append_all rpc es ch s)

pub Same-skip_held :
    (rpc : AppendEntries) (tip : ℕ) (es : List RpcEntry) (idx : ℕ) (r : Ctx)
    → Same r (state_of (skip_held rpc tip es idx r))
unfolding skip_held
Same-skip_held rpc tip [] idx r = Same-refl r
Same-skip_held rpc tip (e ∷ es) idx r = elim (Bool-cases (bad_kind e || over_cap e)) [
  | inl bad ↦ rw bad (Same-refl r)
  | inr fine ↦
      elim (Bool-cases (
        leb idx tip
        && ltb r.log.last_included_index idx
        && term_at r.log idx == entry_term rpc e)) [
          | inl held ↦ rw (fine, held) (Same-skip_held rpc tip es (idx + 1) r)
          | inr differs ↦ elim (Bool-cases (ltb tip idx)) [
            | inl past ↦ rw (fine, differs, past) (Same-append_all rpc (e ∷ es) false r)
            | inr within ↦ elim (Bool-cases (ltb (idx - 1) r.log.last_included_index)) [
              | inl under ↦ rw (fine, differs, within, under) (Same-refl r)
              | inr above ↦
                  rw (fine, differs, within, above)
                    (Same-trans r (log_cut (idx - 1) r) _ (Same-log_cut (idx - 1) r)
                      (Same-append_all rpc (e ∷ es) true (log_cut (idx - 1) r)))
            ]
          ]
        ]
]

pub Same-send : (m : Message) (r : Ctx) → Same r (send m r).1
Same-send m r =
    let s = send-SameCore m r in record { term = s.term; voted = s.voted; commit = s.commit }

pub Same-reply_fail : (hint : ℕ) (rpc : AppendEntries) (r : Ctx) → Same r (reply_fail hint rpc r).1
unfolding reply_fail
Same-reply_fail hint rpc r =
    elim (Bool-cases
      (r.durable.persist_needed || ltb r.durable.persist_gen r.durable.term_dirty_gen)) [
        | inl wait ↦ rw wait (record { term = refl; voted = refl; commit = refl })
        | inr now ↦
            let (ct, cfi) = conflict rpc r in
            rw now (
              Same-send
                (append_result r.leader_id r.current_term false (rejected_hint hint rpc r)
                  (last_index r.log) ct cfi rpc.read_context)
                r)
      ]

pub Same-acknowledge : (rpc : AppendEntries) (r : Ctx) → Same r (acknowledge rpc r)
unfolding acknowledge
Same-acknowledge rpc r =
    elim (Bool-cases (
      length rpc.entries == 0
      && not r.durable.persist_needed
      && leb r.durable.term_dirty_gen r.durable.persist_gen)) [
        | inl now ↦ rw now (
            Same-send
              (append_result r.leader_id r.current_term true 0
                (min r.durable.durable_confirm rpc.prev_log_index) 0 0 rpc.read_context)
              r)
        | inr later ↦ elim (Bool-cases r.durable.persist_needed) [
          | inl wait ↦ rw later (simp wait (record { term = refl; voted = refl; commit = refl }))
          | inr none_needed ↦ rw later (simp none_needed (Same-refl r))
        ]
      ]
