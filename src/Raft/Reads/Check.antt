-- ===== src/Raft/Reads/Check.antt =====
-- What raft_check_barriers of code/raft.h resolves.
use mathlib.Core.List.{map}
use kynovo.Common.{
  ◌≢◌, ◌≡◌, refl, sym, ap, ◌∙◌, inl, inr, Bool, true, false, not, List, [], ◌∷◌, ◌++◌, All,
  Bool-cases, append_assoc, append-nil, keep,
}
use kynovo.Raft.State.{Ctx, Barrier, ClientResult, ready, allocate}
use kynovo.Raft.Step.{result_of}
use kynovo.Raft.Reads.{Scan, barrier_ready, check_scan, check_step, check_barriers}

-- The context with other results and another allocator.
abbrev pub told : Ctx → List ClientResult → List Bool → Ctx
told r results memory = record r { output = record r.output { results = results; memory = memory } }

abbrev pub is_waiting : Ctx → Barrier → Bool
is_waiting r b = not (barrier_ready r b)

abbrev pub resolved : Ctx → List Barrier → List ClientResult
resolved r seen = map (λ b. result_of r ready b.cookie) (keep (barrier_ready r) seen)

-- The loop goes through `seen` and leaves `rest`, which is empty unless an allocation fails.
record Scanned (r : Ctx) (bs kept : List Barrier) (results : List ClientResult) (memory : List Bool)
    (out : Scan) : Type 0 where
  seen : List Barrier
  rest : List Barrier
  left : List Bool
  whole : bs ≡ seen ++ rest
  stayed : out.kept ≡ kept ++ (keep (is_waiting r) seen ++ rest)
  ctx : out.ctx ≡ told r (results ++ resolved r seen) left
  complete : All (λ b. b ≡ true) memory → rest ≡ []

abbrev going : Ctx → List Barrier → List ClientResult → List Bool → Scan
going r kept results memory = record { kept = kept; stopped = false; ctx = told r results memory }

check_scan-stopped :
    (bs kept : List Barrier) (r : Ctx)
    → check_scan bs (record { kept = kept; stopped = true; ctx = r })
      ≡ record { kept = kept ++ bs; stopped = true; ctx = r }
unfolding check_scan check_step
check_scan-stopped [] kept r =
    ap (λ l. record { kept = l; stopped = true; ctx = r }) (sym (append-nil kept))
check_scan-stopped (b ∷ bs) kept r =
    check_scan-stopped bs (kept ++ b ∷ []) r
    ∙ ap (λ l. record { kept = l; stopped = true; ctx = r }) (append_assoc kept (b ∷ []) bs)

allocate-All :
    (memory : List Bool)
    → All (λ b. b ≡ true) memory
    → ((allocate memory).0 ≡ true) × All (λ b. b ≡ true) (allocate memory).1
unfolding allocate
allocate-All [] h = (refl, tt)
allocate-All (b ∷ bs) h = h

module _ (r : Ctx) (b : Barrier) (bs kept : List Barrier) (results : List ClientResult) where
  -- One barrier waits,
  Scanned-waits :
      (memory : List Bool) (out : Scan)
      → barrier_ready r b ≡ false
      → Scanned r bs (kept ++ b ∷ []) results memory out
      → Scanned r (b ∷ bs) kept results memory out
  Scanned-waits memory out e s = record {
    seen = b ∷ s.seen;
    rest = s.rest;
    left = s.left;
    whole = ap (λ l. b ∷ l) s.whole;
    stayed = s.stayed ∙ rw e (append_assoc kept (b ∷ []) (keep (is_waiting r) s.seen ++ s.rest));
    ctx = s.ctx ∙ rw e refl;
    complete = s.complete;
  }

  -- or is resolved,
  Scanned-told :
      (memory : List Bool) (out : Scan)
      → barrier_ready r b ≡ true
      → Scanned r bs kept (results ++ result_of r ready b.cookie ∷ []) (allocate memory).1 out
      → Scanned r (b ∷ bs) kept results memory out
  Scanned-told memory out e s = record {
    seen = b ∷ s.seen;
    rest = s.rest;
    left = s.left;
    whole = ap (λ l. b ∷ l) s.whole;
    stayed = s.stayed ∙ rw e refl;
    ctx =
        s.ctx
        ∙ rw e (
            ap (λ l. told r l s.left)
              (append_assoc results (result_of r ready b.cookie ∷ []) (resolved r s.seen)));
    complete = λ h. s.complete (allocate-All memory h).1;
  }

  -- or ends the loop.
  Scanned-stops :
      (memory : List Bool)
      → (allocate memory).0 ≡ false
      → Scanned r (b ∷ bs) kept results memory (record {
        kept = kept ++ b ∷ bs;
        stopped = true;
        ctx = told r results (allocate memory).1;
      })
  Scanned-stops memory e = record {
    seen = [];
    rest = b ∷ bs;
    left = (allocate memory).1;
    whole = refl;
    stayed = refl;
    ctx = ap (λ l. told r l (allocate memory).1) (sym (append-nil results));
    complete = λ h. absurd (true_ne_false (sym (allocate-All memory h).0 ∙ e));
  }
    where
      true_ne_false : true ≢ false
      true_ne_false h = cc

  check_step-waits :
      (memory : List Bool)
      → barrier_ready r b ≡ false
      → check_step b (going r kept results memory) ≡ going r (kept ++ b ∷ []) results memory
  unfolding check_step barrier_ready
  check_step-waits memory e = rw e refl

  check_step-told :
      (memory : List Bool)
      → barrier_ready r b ≡ true
      → (allocate memory).0 ≡ true
      → check_step b (going r kept results memory)
        ≡ going r kept (results ++ result_of r ready b.cookie ∷ []) (allocate memory).1
  unfolding check_step barrier_ready
  check_step-told memory e got = rw (e, got) refl

  check_step-stops :
      (memory : List Bool)
      → barrier_ready r b ≡ true
      → (allocate memory).0 ≡ false
      → check_step b (going r kept results memory)
        ≡ record { kept = kept ++ b ∷ []; stopped = true; ctx = told r results (allocate memory).1 }
  unfolding check_step barrier_ready
  check_step-stops memory e got = rw (e, got) refl

check_scan-Scanned :
    (r : Ctx) (bs kept : List Barrier) (results : List ClientResult) (memory : List Bool)
    → Scanned r bs kept results memory (check_scan bs (going r kept results memory))
unfolding check_scan check_step barrier_ready
check_scan-Scanned r [] kept results memory = record {
  seen = [];
  rest = [];
  left = memory;
  whole = refl;
  stayed = sym (append-nil kept);
  ctx = ap (λ l. told r l memory) (sym (append-nil results));
  complete = λ h. refl;
}
check_scan-Scanned r (b ∷ bs) kept results memory = elim (Bool-cases (barrier_ready r b)) [
  | inr e ↦ rw (check_step-waits r b bs kept results memory e) (
      Scanned-waits r b bs kept results memory _ e
        (check_scan-Scanned r bs (kept ++ b ∷ []) results memory))
  | inl e ↦ elim (Bool-cases (allocate memory).0) [
    | inl got ↦ rw (check_step-told r b bs kept results memory e got) (
        Scanned-told r b bs kept results memory _ e (
          check_scan-Scanned r bs kept (results ++ result_of r ready b.cookie ∷ [])
            (allocate memory).1))
    | inr none_left ↦
        rw
          (
            check_step-stops r b bs kept results memory e none_left,
            check_scan-stopped bs (kept ++ b ∷ []) (told r results (allocate memory).1),
            append_assoc kept (b ∷ []) bs,
          )
          (Scanned-stops r b bs kept results memory none_left)
  ]
]

-- What one call does: the barriers up to some place are each resolved when they are ready, in order,
-- and stay when they are not; without a failed allocation that place is the end.
pub record Checked (r out : Ctx) : Type 0 where
  pub seen : List Barrier
  pub rest : List Barrier
  pub left : List Bool
  pub whole : r.waiting.read_barriers ≡ seen ++ rest
  pub complete : All (λ b. b ≡ true) r.output.memory → rest ≡ []
  pub ctx : out ≡ record (told r (r.output.results ++ resolved r seen) left) {
    waiting = record r.waiting { read_barriers = keep (is_waiting r) seen ++ rest };
  }

-- raft_check_barriers resolves exactly the barriers that are ready, each once and in order, keeps the
-- others in order, and changes nothing else but the allocator; when an allocation fails it does so for
-- the barriers before, and keeps the rest.
pub check_barriers-Checked : (r : Ctx) → Checked r (check_barriers r)
unfolding check_barriers
check_barriers-Checked r =
    let s = check_scan-Scanned r r.waiting.read_barriers [] r.output.results r.output.memory in
    record {
      seen = s.seen;
      rest = s.rest;
      left = s.left;
      whole = s.whole;
      complete = s.complete;
      ctx = rw (s.stayed, s.ctx) refl;
    }
