-- ===== src/Raft/Commit/Bounds.antt =====
-- What raft_advance_commit may commit.
use kynovo.Common.{
  [], ◌∷◌, ◌&&◌, ◌∷◌, count_if, of_bool, Bool, sym, List, ◌∙◌, ℕ, zero, suc, ◌+◌, ◌-◌, ◌≤◌, ◌<◌,
  ◌≡◌, ◌⊎◌, inl, inr, refl, true, false, ◌==◌, arith, Bool-cases, ==_iff, leb,
}
use kynovo.Raft.Log.{last_index, term_at}
use kynovo.Raft.State.{Ctx, Peer}
use kynovo.Raft.Quorum.{is_voter, quorum_size_of, count_match, has_voter_peer}
use kynovo.Raft.Commit.{commit_from, advance_commit, may_commit, is_majority, self_match}

-- `r` with another commit index; the majorities do not depend on it.
abbrev pub at_commit : ℕ → Ctx → Ctx
at_commit i r = record r { commit_index = i; leadership_confirmed = true }

-- What the loop leaves: the context itself, or the context at an index of its own term, above the old
-- commit index, that a majority holds.
abbrev pub Committed : Ctx → Ctx → Type 0
Committed r out =
    (out ≡ r)
    ⊎ ((i : ℕ) × (out ≡ at_commit i r)
        × (r.commit_index < i)
        × (i ≤ last_index r.log)
        × (term_at r.log i ≡ r.current_term)
        × (may_commit i r ≡ true))

pub may_commit-at : (i j : ℕ) (r : Ctx) → may_commit i (at_commit j r) ≡ may_commit i r
unfolding may_commit quorum_size_of count_match has_voter_peer
may_commit-at i j r = refl

-- A result for the context at `idx` is one for the context below it.
Committed-at :
    (idx : ℕ) (r out : Ctx)
    → r.commit_index < idx
    → idx ≤ last_index r.log
    → term_at r.log idx ≡ r.current_term
    → may_commit idx r ≡ true
    → Committed (at_commit idx r) out
    → Committed r out
Committed-at idx r out above below own major (inl e) = inr (idx, e, above, below, own, major)
Committed-at idx r out above below own major (inr (i, e, more, room, own', major')) =
    inr (i, e, omega arith, room, own', sym (may_commit-at i idx r) ∙ major')

commit_from_lem :
    (n idx : ℕ) (r : Ctx)
    → r.commit_index < idx
    → n + idx ≤ last_index r.log + 1
    → Committed r (commit_from n idx r)
unfolding commit_from
commit_from_lem zero idx r above room = inl refl
commit_from_lem (suc n) idx r above room = elim (Bool-cases (term_at r.log idx == r.current_term)) [
  | inr other ↦ rw other (commit_from_lem n (idx + 1) r (omega arith) (omega arith))
  | inl own ↦ elim (Bool-cases (may_commit idx r)) [
    | inr minor ↦ rw (own, minor) (inl refl)
    | inl major ↦
        rw (own, major)
          (Committed-at idx r _ above (omega arith) ((==_iff _ _).0 own) major
            (commit_from_lem n (idx + 1) (at_commit idx r) (omega arith) (omega arith)))
  ]
]

-- The commit index stays, or moves up to an index within the log whose entry is of the leader's own
-- term and that a majority holds (in a joint configuration a majority of both); nothing but the commit
-- index and the confirmation of the leadership changes.
pub advance_commit-Committed :
    (r : Ctx) → r.commit_index ≤ last_index r.log → Committed r (advance_commit r)
unfolding advance_commit
advance_commit-Committed r h =
    commit_from_lem (last_index r.log - r.commit_index) (r.commit_index + 1) r (omega arith)
      (omega arith)

count_if_mono {ℓ} :
    {A : Type ℓ} (f g : A → ℕ) (xs : List A) → ((x : A) → f x ≤ g x) → count_if f xs ≤ count_if g xs
count_if_mono f g [] h = omega arith
count_if_mono f g (x ∷ xs) h = omega (arith, h x, count_if_mono f g xs h)

match_mono :
    (old : Bool) (i j : ℕ) (p : Peer)
    → i ≤ j
    → of_bool (is_voter old p && leb j p.match_index)
      ≤ of_bool (is_voter old p && leb i p.match_index)
match_mono old i j p h = ground arith

count_match_mono :
    (old : Bool) (i j : ℕ) (r : Ctx) → i ≤ j → count_match old j r ≤ count_match old i r
unfolding count_match
count_match_mono old i j r h = count_if_mono _ _ r.members.peers (λ p. match_mono old i j p h)

self_match_mono : (old : Bool) (i j : ℕ) (r : Ctx) → i ≤ j → self_match old j r ≤ self_match old i r
self_match_mono old i j r h = ground arith

is_majority_mono :
    (old : Bool) (i j : ℕ) (r : Ctx)
    → i ≤ j
    → is_majority old j r ≡ true
    → is_majority old i r ≡ true
unfolding is_majority
is_majority_mono old i j r h m =
    ground (arith, count_match_mono old i j r h, self_match_mono old i j r h)

-- Who holds an entry holds the entries below it.
may_commit_mono : (i j : ℕ) (r : Ctx) → i ≤ j → may_commit j r ≡ true → may_commit i r ≡ true
unfolding may_commit
may_commit_mono i j r h m =
    ground (arith, is_majority_mono true i j r h, is_majority_mono false i j r h)

Committed-le : (r out : Ctx) → Committed r out → r.commit_index ≤ out.commit_index
Committed-le r out (inl e) = rw e (omega arith)
Committed-le r out (inr (i, e, above, b, o, m)) = rw e (omega arith)

commit_from_ge :
    (n idx i : ℕ) (r : Ctx)
    → r.commit_index < idx
    → n + idx ≤ last_index r.log + 1
    → i < n + idx
    → idx ≤ i
    → term_at r.log i ≡ r.current_term
    → may_commit i r ≡ true
    → i ≤ (commit_from n idx r).commit_index
unfolding commit_from
commit_from_ge zero idx i r above room upto from own major = absurd (omega arith)
commit_from_ge (suc n) idx i r above room upto from own major = elim (Bool-cases (idx == i)) [
  | inl here ↦
      let e = (==_iff idx i).0 here in
      let passed : (term_at r.log idx == r.current_term) ≡ true = (==_iff _ _).1 (rw e own) in
      let held : may_commit idx r ≡ true = rw e major in
      rw (passed, held)
        (rw (← e) (
          Committed-le (at_commit idx r) _
            (commit_from_lem n (idx + 1) (at_commit idx r) (omega arith) (omega arith))))
  | inr later ↦ elim (Bool-cases (term_at r.log idx == r.current_term)) [
    | inr other ↦ rw other (
        commit_from_ge n (idx + 1) i r (omega arith) (omega arith) (omega arith) (ground arith) own
          major)
    | inl same ↦
        rw (same, may_commit_mono idx i r from major)
          (commit_from_ge n (idx + 1) i (at_commit idx r) (omega arith) (omega arith) (omega arith)
            (ground arith) own (may_commit-at i idx r ∙ major))
  ]
]

-- Every index of the log, above the commit index, whose entry is of the leader's own term and that a
-- majority holds (in a joint configuration a majority of both) is committed.
pub advance_commit_ge :
    (r : Ctx) (i : ℕ)
    → r.commit_index < i
    → i ≤ last_index r.log
    → term_at r.log i ≡ r.current_term
    → may_commit i r ≡ true
    → i ≤ (advance_commit r).commit_index
unfolding advance_commit
advance_commit_ge r i above below own major =
    commit_from_ge (last_index r.log - r.commit_index) (r.commit_index + 1) i r (omega arith)
      (omega arith) (omega arith) (omega arith) own major

commit_from-shape :
    (n idx : ℕ) (r : Ctx)
    → (commit_from n idx r ≡ r) ⊎ ((i : ℕ) × (commit_from n idx r ≡ at_commit i r))
unfolding commit_from
commit_from-shape zero idx r = inl refl
commit_from-shape (suc n) idx r = elim (Bool-cases (term_at r.log idx == r.current_term)) [
  | inr other ↦ rw other (commit_from-shape n (idx + 1) r)
  | inl own ↦ elim (Bool-cases (may_commit idx r)) [
    | inr minor ↦ rw (own, minor) (inl refl)
    | inl major ↦
        rw (own, major)
          (elim (commit_from-shape n (idx + 1) (at_commit idx r)) [
            | inl e ↦ inr (idx, e)
            | inr (i, e) ↦ inr (i, e)
          ])
  ]
]

-- Whatever the context, only the commit index and its confirmation are written.
pub advance_commit-shape :
    (r : Ctx) → (advance_commit r ≡ r) ⊎ ((i : ℕ) × (advance_commit r ≡ at_commit i r))
unfolding advance_commit
advance_commit-shape r = commit_from-shape _ _ r
