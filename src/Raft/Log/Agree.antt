-- ===== src/Raft/Log/Agree.antt =====
-- Two logs that agree up to an index, and what the operations on a log keep.
use kynovo.Common.{
  ℕ, ◌+◌, ◌-◌, ◌≤◌, ◌<◌, ◌≡◌, refl, sym, ap, ◌∙◌, inl, inr, false, ◌&&◌, some, List, [], ◌∷◌, ◌++◌,
  arith, ltb, leb, Bool-cases, length, get_elem?, get_elem?-take, take, length-append, length-take,
  take-append_left, take-take,
}
use kynovo.Raft.Log.{
  Log, Entry, last_index, term_of, term_at, stored, stores_cfg, chunks_for, append, truncate,
}

-- The same base, and the same entries up to index `n`.
pub record Agrees (n : ℕ) (a b : Log) : Type 0 where
  pub base : b.last_included_index ≡ a.last_included_index
  pub base_term : b.last_included_term ≡ a.last_included_term
  pub upto : take (n - a.last_included_index) b.entries ≡ take (n - a.last_included_index) a.entries

pub Agrees-refl : (n : ℕ) (a : Log) → Agrees n a a
Agrees-refl n a = record { base = refl; base_term = refl; upto = refl }

take-of-take {ℓ} :
    {A : Type ℓ} (n m : ℕ) (xs ys : List A) → n ≤ m → take m xs ≡ take m ys → take n xs ≡ take n ys
take-of-take n m xs ys h e = sym (take-take n m xs h) ∙ ap (take n) e ∙ take-take n m ys h

pub Agrees-le : (n m : ℕ) (a b : Log) → n ≤ m → Agrees m a b → Agrees n a b
Agrees-le n m a b h g = record {
  base = g.base;
  base_term = g.base_term;
  upto =
      take-of-take (n - a.last_included_index) (m - a.last_included_index) _ _ (omega arith) g.upto;
}

pub Agrees-trans : (n : ℕ) (a b c : Log) → Agrees n a b → Agrees n b c → Agrees n a c
Agrees-trans n a b c g h = record {
  base = h.base ∙ g.base;
  base_term = h.base_term ∙ g.base_term;
  upto = (simp g.base at h.upto) ∙ g.upto;
}

-- The tip of a log that agrees is at least as far.
pub last_index-Agrees : (n : ℕ) (a b : Log) → Agrees n a b → n ≤ last_index a → n ≤ last_index b
last_index-Agrees n a b g reach = omega (
  arith,
  length-take (n - a.last_included_index) b.entries,
  length-take (n - a.last_included_index) a.entries,
  ap length g.upto,
  g.base,
)

same_entry :
    (n idx : ℕ) (a b : Log)
    → Agrees n a b
    → idx ≤ n
    → a.last_included_index < idx
    → get_elem? b.entries (idx - a.last_included_index - 1)
      ≡ get_elem? a.entries (idx - a.last_included_index - 1)
same_entry n idx a b g below above =
    sym (get_elem?-take (n - a.last_included_index) b.entries _ (omega arith))
    ∙ ap (λ es. get_elem? es (idx - a.last_included_index - 1)) g.upto
    ∙ get_elem?-take (n - a.last_included_index) a.entries _ (omega arith)

-- The terms up to an index on which two logs agree, if the first reaches it.
pub term_at-Agrees :
    (n idx : ℕ) (a b : Log)
    → Agrees n a b
    → idx ≤ n
    → n ≤ last_index a
    → term_at b idx ≡ term_at a idx
unfolding term_at
term_at-Agrees n idx a b g below reach = elim (Bool-cases (leb idx a.last_included_index)) [
  | inl base ↦ simp (g.base, base, g.base_term)
  | inr above ↦
      let inside_a : ltb (last_index a) idx ≡ false = ground arith in
      let inside_b : ltb (a.last_included_index + length b.entries) idx ≡ false =
        ground (arith, last_index-Agrees n a b g reach, g.base) in
      simp (g.base, above, inside_a, inside_b, same_entry n idx a b g below (ground arith))
]

get_elem?-append_self {ℓ} :
    {A : Type ℓ} (xs : List A) (y : A) → get_elem? (xs ++ y ∷ []) (length xs) ≡ some y
get_elem?-append_self [] y = refl
get_elem?-append_self (x ∷ xs) y = get_elem?-append_self xs y

term-stored : (e : Entry) → term_of (some (stored e)) ≡ e.term
unfolding term_of stored
term-stored e = elim (Bool-cases (stores_cfg e)) [ inl h ↦ rw h | inr h ↦ rw h ]

pub append-Agrees : (a : Log) (e : Entry) → Agrees (last_index a) a (append a e)
unfolding append
append-Agrees a e = record {
  base = refl;
  base_term = refl;
  upto = take-append_left _ a.entries (stored e ∷ []) (omega arith);
}

pub last_index-append : (a : Log) (e : Entry) → last_index (append a e) ≡ last_index a + 1
unfolding append
last_index-append a e = omega (arith, length-append a.entries (stored e ∷ []))

pub term_at-append : (a : Log) (e : Entry) → term_at (append a e) (last_index a + 1) ≡ e.term
unfolding append term_at
term_at-append a e =
    let above : leb (last_index a + 1) a.last_included_index ≡ false = ground arith in
    let inside : ltb (a.last_included_index + length (a.entries ++ stored e ∷ []))
          (last_index a + 1)
        ≡ false =
      ground (arith, length-append a.entries (stored e ∷ [])) in
    let at : last_index a + 1 - a.last_included_index - 1 ≡ length a.entries = omega arith in
    simp (above, inside, at, get_elem?-append_self, term-stored)

-- A cut above the base and below the tip.
pub truncate_lem :
    (a : Log) (idx : ℕ)
    → a.last_included_index ≤ idx
    → idx < last_index a
    → (b : Log) × (truncate a idx ≡ some b) × Agrees idx a b × (last_index b ≡ idx)
unfolding truncate
truncate_lem a idx low high =
    let below : ltb idx a.last_included_index ≡ false = ground arith in
    let inside : leb (last_index a) idx ≡ false = ground arith in
    let n = idx - a.last_included_index in
    (
      record a { entries = take n a.entries; has_cfg = λ c. ltb c (chunks_for a n) && a.has_cfg c },
      rw (below, inside),
      record { base = refl; base_term = refl; upto = take-take n n a.entries (omega arith) },
      omega (arith, length-take n a.entries),
    )
