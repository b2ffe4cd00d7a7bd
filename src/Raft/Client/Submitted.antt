-- ===== src/Raft/Client/Submitted.antt =====
-- What raft_submit of code/raft.h leaves.
use kynovo.Common.{
  ◌==◌, All-map, All-append, length-append, get_elem?-append_left, get_elem?-append_right, ℕ, zero,
  suc, ◌+◌, ◌-◌, ◌≤◌, ◌≡◌, ◌⊎◌, refl, sym, ap, ◌∙◌, inl, inr, Bool, false, not, none, some, List,
  [], ◌∷◌, map, arith, get_elem?, length, Bool-cases, All, leb,
}
use kynovo.Raft.Log.{Log, last_index, entry_at}
use kynovo.Raft.Ids.{id_valid}
use mathlib.Core.Option
use mathlib.Core.Path.{subst}
use kynovo.Raft.State.{Ctx, Rc, is_leader, phase_running, set_memory, ok, fail, allocate}
use kynovo.Raft.Client.{
  Command, command_entry, commands_ok, pending_from, append_commands, submitted, enqueue, submit,
}

-- Every command that waits waits for an index of the log.
abbrev pub PendingWithin : Ctx → Type 0
PendingWithin r = All (λ p. p.1 ≤ last_index r.log) r.waiting.client_pending

get_elem?-pending_from :
    (cs : List Command) (idx i : ℕ) (c : Command)
    → get_elem? cs i ≡ some c
    → get_elem? (pending_from idx cs) i ≡ some (c.cookie, idx + i)
unfolding pending_from
get_elem?-pending_from [] idx i c h = cc
get_elem?-pending_from (d ∷ cs) idx zero c h =
    let same : d ≡ c = cc in
    ap (λ (e : Command). some (e.cookie, idx)) same
    ∙ ap (λ (n : ℕ). some (c.cookie, n)) (omega arith)
get_elem?-pending_from (d ∷ cs) idx (suc i) c h =
    get_elem?-pending_from cs (idx + 1) i c h ∙ ap (λ (n : ℕ). some (c.cookie, n)) (omega arith)

get_elem?-map {ℓ κ} :
    {A : Type ℓ} {B : Type κ} (f : A → B) (xs : List A) (i : ℕ) (x : A)
    → get_elem? xs i ≡ some x
    → get_elem? (map f xs) i ≡ some (f x)
get_elem?-map f [] i x h = absurd (none_ne_some h)
  where
    none_ne_some : none ≡ some x → ⊥
    none_ne_some e = cc
get_elem?-map f (y ∷ ys) zero x h = ap (Option.map f) h
get_elem?-map f (y ∷ ys) (suc i) x h = get_elem?-map f ys i x h

All-pending_from :
    (cs : List Command) (idx top : ℕ)
    → idx + length cs ≤ suc top
    → All (λ p. p.1 ≤ top) (pending_from idx cs)
unfolding pending_from
All-pending_from [] idx top h = tt
All-pending_from (c ∷ cs) idx top h =
    (omega (arith, h), All-pending_from cs (idx + 1) top (omega (arith, h)))

-- An entry beyond the old tip is one of the new ones.
entry_at-append_commands :
    (log : Log) (term : ℕ) (cs : List Command) (i : ℕ) (c : Command)
    → get_elem? cs i ≡ some c
    → entry_at (append_commands log term cs) (last_index log + 1 + i) ≡ some (command_entry term c)
unfolding entry_at
entry_at-append_commands log term cs i c h =
    let above : leb (log.last_included_index + length log.entries + 1 + i) log.last_included_index
        ≡ false =
      ground arith in
    let place : log.last_included_index + length log.entries + 1 + i - log.last_included_index - 1
        ≡ length log.entries + i =
      omega arith in
    rw (above, place)
      (get_elem?-append_right log.entries (map (command_entry term) cs) i
        ∙ get_elem?-map (command_entry term) cs i c h)

entry_at-kept :
    (log : Log) (term : ℕ) (cs : List Command) (idx : ℕ)
    → idx ≤ last_index log
    → entry_at (append_commands log term cs) idx ≡ entry_at log idx
unfolding entry_at
entry_at-kept log term cs idx h = elim (Bool-cases (leb idx log.last_included_index)) [
  | inl under ↦ rw under refl
  | inr above ↦ rw above (
      get_elem?-append_left log.entries (map (command_entry term) cs)
        (idx - log.last_included_index - 1) (ground (arith, above, h)))
]

length-map-entries :
    (term : ℕ) (cs : List Command) → length (map (command_entry term) cs) ≡ length cs
length-map-entries term [] = refl
length-map-entries term (c ∷ cs) = ap suc (length-map-entries term cs)

-- The log grows by the commands and is unchanged below; each command's entry has the present term and
-- its bytes, and its cookie waits for that entry's index.
pub record Submitted (cs : List Command) (r out : Ctx) : Type 0 where
  pub tip : last_index out.log ≡ last_index r.log + length cs
  pub kept : (idx : ℕ) → idx ≤ last_index r.log → entry_at out.log idx ≡ entry_at r.log idx
  pub found :
      (i : ℕ) (c : Command)
      → get_elem? cs i ≡ some c
      → (entry_at out.log (last_index r.log + 1 + i) ≡ some (command_entry r.current_term c))
        × (get_elem? out.waiting.client_pending (length r.waiting.client_pending + i)
            ≡ some (c.cookie, last_index r.log + 1 + i))
  pub within : PendingWithin r → PendingWithin out

submitted-Submitted :
    (cs : List Command) (r : Ctx) (memory : List Bool)
    → Submitted cs r (submitted cs (set_memory r memory))
submitted-Submitted cs r memory =
    let grown : last_index (append_commands r.log r.current_term cs)
        ≡ last_index r.log + length cs =
      omega (
        arith,
        length-append r.log.entries (map (command_entry r.current_term) cs),
        length-map-entries r.current_term cs,
      ) in
    record {
      tip = grown;
      kept = entry_at-kept r.log r.current_term cs;
      found = λ i c h. (
        entry_at-append_commands r.log r.current_term cs i c h,
        get_elem?-append_right r.waiting.client_pending (pending_from (last_index r.log + 1) cs) i
            ∙ get_elem?-pending_from cs (last_index r.log + 1) i c h,
      );
      within = λ h.
          All-append _ r.waiting.client_pending (pending_from (last_index r.log + 1) cs)
            (All-map _ _ r.waiting.client_pending (λ p low. omega (arith, low, grown)) h)
            (All-pending_from cs (last_index r.log + 1) _ (omega (arith, grown)));
    }

-- A call that is refused changes nothing but the allocator, and one that is accepted takes the batch
-- whole.
abbrev pub Taken : List Command → Ctx → Rc × Ctx → Type 0
Taken cs r out =
    ((out.0 ≡ ok) × Submitted cs r out.1)
    ⊎ ((out.0 ≡ fail) × ((memory : List Bool) × (out.1 ≡ set_memory r memory)))

enqueue-Taken : (cs : List Command) (r : Ctx) → Taken cs r (enqueue cs r)
unfolding enqueue
enqueue-Taken cs r = elim (Bool-cases (allocate r.output.memory).0) [
  | inr full ↦ rw full (inr (refl, ((allocate r.output.memory).1, refl)))
  | inl got ↦ elim (Bool-cases (allocate (allocate r.output.memory).1).0) [
    | inl got' ↦ rw (got, got') (inl (refl, submitted-Submitted cs r _))
    | inr full ↦ rw (got, full) (inr (refl, ((allocate (allocate r.output.memory).1).1, refl)))
  ]
]

nothing-Submitted : (r : Ctx) → Submitted [] r r
nothing-Submitted r = record {
  tip = omega arith;
  kept = λ idx h. refl;
  found = λ i c h. absurd (none_ne_some c h);
  within = λ h. h;
}
  where
    none_ne_some : (c : Command) → none ≡ some c → ⊥
    none_ne_some c e = cc

pub submit-nil : (r : Ctx) → submit [] r ≡ (ok, r)
unfolding submit
submit-nil r = refl

-- Past its guards, a submission is the queueing.
pub submit_cases :
    (c : Command) (cs : List Command) (r : Ctx)
    → (submit (c ∷ cs) r ≡ (fail, r)) ⊎ (submit (c ∷ cs) r ≡ enqueue (c ∷ cs) r)
unfolding submit
submit_cases c cs r = elim (Bool-cases (not (r.phase == phase_running))) [
  | inl idle ↦ inl (rw idle refl)
  | inr runs ↦ elim (Bool-cases (not (is_leader r.role))) [
    | inl other ↦ inl (rw (runs, other) refl)
    | inr leads ↦ elim (Bool-cases (id_valid r.transfer.target)) [
      | inl moving ↦ inl (rw (runs, leads, moving) refl)
      | inr stays ↦ elim (Bool-cases (not (commands_ok (c ∷ cs)))) [
        | inl bad ↦ inl (rw (runs, leads, stays, bad) refl)
        | inr good ↦ inr (rw (runs, leads, stays, good) refl)
      ]
    ]
  ]
]

-- raft_submit either refuses a batch, and changes nothing but the allocator, or takes it whole: the
-- log grows by the commands and is unchanged below, each command's entry has the present term and its
-- bytes, its cookie waits for that entry's index, and nothing waits for an index beyond the log if
-- nothing did before.
pub submit-Taken : (cs : List Command) (r : Ctx) → Taken cs r (submit cs r)
submit-Taken [] r = subst (Taken [] r) (sym (submit-nil r)) (inl (refl, nothing-Submitted r))
submit-Taken (c ∷ cs) r = elim (submit_cases c cs r) [
  | inl e ↦ rw e (inr (refl, (r.output.memory, refl)))
  | inr e ↦ rw e (enqueue-Taken (c ∷ cs) r)
]
