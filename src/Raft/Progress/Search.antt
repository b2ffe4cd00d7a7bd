-- ===== src/Raft/Progress/Search.antt =====
-- Where raft_recv_append_entries_result of code/raft.h goes on after a conflict.
use kynovo.Common.{
  ℕ, zero, suc, ◌+◌, ◌-◌, ◌/◌, min, ◌≤◌, ◌<◌, ◌≡◌, ◌≢◌, ◌⊎◌, ◌&&◌, inl, inr, true, false, ltb,
  if◌then◌else◌, ◌==◌, arith, Bool-cases,
}
use kynovo.Raft.Log.{Log, last_index, term_at}
use kynovo.Raft.Progress.{AppendResult, term_search, past_term, resume_at}

-- The terms of the entries never fall.
abbrev pub IsOrdered : Log → Type 0
IsOrdered log =
    (i j : ℕ)
    → log.last_included_index < i
    → i ≤ j
    → j ≤ last_index log
    → term_at log i ≤ term_at log j

-- `a` splits the log: the terms below it are at most `t`, those from it on exceed `t`.
pub record Splits (log : Log) (t a : ℕ) : Type 0 where
  pub above_base : log.last_included_index < a
  pub upto_tip : a ≤ last_index log + 1
  pub low : (i : ℕ) → log.last_included_index < i → i < a → term_at log i ≤ t
  pub high : (i : ℕ) → a ≤ i → i ≤ last_index log → t < term_at log i

term_search-Splits :
    (log : Log) (t fuel a b : ℕ)
    → IsOrdered log
    → b ≤ a + fuel
    → a ≤ b
    → log.last_included_index < a
    → b ≤ last_index log + 1
    → ((i : ℕ) → log.last_included_index < i → i < a → term_at log i ≤ t)
    → ((i : ℕ) → b ≤ i → i ≤ last_index log → t < term_at log i)
    → Splits log t (term_search log t fuel a b)
unfolding term_search
term_search-Splits log t zero a b o enough le base tip low high = record {
  above_base = base;
  upto_tip = omega arith;
  low = low;
  high = λ i h g. high i (omega arith) g;
}
term_search-Splits log t (suc fuel) a b o enough le base tip low high =
    elim (Bool-cases (ltb a b)) [
      | inr done ↦ rw done (record {
        above_base = base;
        upto_tip = omega arith;
        low = low;
        high = λ i h g. high i (ground (arith, done, le, h)) g;
      })
      | inl open' ↦
          let lt : a < b = ground (arith, open') in
          let mid = a + (b - a) / 2 in
          let inside : (a ≤ mid) × (mid < b) = (omega arith, omega arith) in
          elim (Bool-cases (ltb t (term_at log mid))) [
            | inl over ↦
                rw (open', over)
                  (term_search-Splits log t fuel a mid o (omega arith) (omega arith) base
                    (omega arith) low
                    (λ i h g. omega (
                      arith,
                      o mid i (omega (arith, base, inside)) h g,
                      exceeds t (term_at log mid) over,
                    )))
            | inr under ↦
                rw (open', under)
                  (term_search-Splits log t fuel (mid + 1) b o (omega arith) (omega arith)
                    (omega arith) tip
                    (λ i h g. omega (
                      arith,
                      o i mid h (omega arith) (omega (arith, inside, tip)),
                      within t (term_at log mid) under,
                    ))
                    high)
          ]
    ]
  where
    exceeds : (x y : ℕ) → ltb x y ≡ true → x < y
    exceeds x y h = ground arith

    within : (x y : ℕ) → ltb x y ≡ false → y ≤ x
    within x y h = ground arith

-- The binary search ends at the boundary of the terms up to `t`.
pub past_term-Splits : (log : Log) (t : ℕ) → IsOrdered log → Splits log t (past_term log t)
past_term-Splits log t o =
    term_search-Splits log t (last_index log - log.last_included_index)
      (log.last_included_index + 1) (last_index log + 1) o (omega arith) (omega arith) (omega arith)
      (omega arith) (λ i h g. absurd (omega arith)) (λ i h g. absurd (omega arith))

-- The last entry of a term.
pub record LastOf (log : Log) (t i : ℕ) : Type 0 where
  pub above_base : log.last_included_index < i
  pub upto_tip : i ≤ last_index log
  pub own : term_at log i ≡ t
  pub after : (j : ℕ) → i < j → j ≤ last_index log → t < term_at log j

-- In a log whose terms never fall: if it has entries of the term of the follower's conflicting entry,
-- the leader goes on behind the last of them; if it has none, at the follower's first index for that
-- term, and no further than its own tip.
pub resume_at_lem :
    (log : Log) (result : AppendResult)
    → IsOrdered log
    → ((i : ℕ) × LastOf log result.conflict_term i × (resume_at log result ≡ i + 1))
      ⊎ (((i : ℕ)
            → log.last_included_index < i
            → i ≤ last_index log
            → term_at log i ≢ result.conflict_term)
          × (resume_at log result ≡ min result.conflict_first_index (last_index log + 1)))
unfolding resume_at
resume_at_lem log result o =
    let t = result.conflict_term in
    let a = past_term log t in
    let s = past_term-Splits log t o in
    elim (Bool-cases (ltb (log.last_included_index + 1) a && term_at log (a - 1) == t)) [
      | inl held ↦
          let room : log.last_included_index + 1 < a = ground (arith, held) in
          let own : term_at log (a - 1) ≡ t = ground (arith, held) in
          let cap : ltb (last_index log + 1) a ≡ false = ground (arith, s.upto_tip) in
          rw (held, cap)
            (inl (
              a - 1,
              record {
                above_base = omega (arith, room);
                upto_tip = omega (arith, s.upto_tip, room);
                own = own;
                after = λ j g h. s.high j (omega (arith, g, room)) h;
              },
              omega (arith, room),
            ))
      | inr gone ↦
          rw gone (inr (none_at gone s, capped (last_index log + 1) result.conflict_first_index))
    ]
  where
    capped : (x y : ℕ) → (if ltb x y then x else y) ≡ min y x
    capped x y = ground arith

    none_at :
        (ltb (log.last_included_index + 1) (past_term log result.conflict_term)
            && term_at log (past_term log result.conflict_term - 1) == result.conflict_term)
          ≡ false
        → Splits log result.conflict_term (past_term log result.conflict_term)
        → (i : ℕ) → log.last_included_index < i
        → i ≤ last_index log
        → term_at log i ≢ result.conflict_term
    none_at gone s i above upto e =
        let a = past_term log result.conflict_term in
        elim (Bool-cases (ltb i a)) [
          | inr beyond ↦ omega (arith, e, s.high i (ground (arith, beyond)) upto)
          | inl before ↦
              let lt : i < a = ground (arith, before) in
              let up = o i (a - 1) above (omega (arith, lt)) (omega (arith, lt, s.upto_tip)) in
              let low = s.low (a - 1) (omega (arith, lt, above)) (omega (arith, lt)) in
              ground (arith, gone, up, low, e, lt, above)
        ]
