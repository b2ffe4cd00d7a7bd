-- ===== src/Raft/Ids/Sort.antt =====
-- The insertion sort of `raft_make_sorted_ids`: what it accepts is ascending and has the same ids.
use mathlib.Core.List.{reverse, reverse-append}
use kynovo.Common.{
  ℕ, zero, suc, ◌≤◌, ◌<◌, ◌≡◌, refl, Bool, true, ◌||◌, some, [], ◌∷◌, ◌++◌, inl, inr, arith, ltb,
  ◌==◌, length, get_or, Bool-cases, All,
}
use kynovo.Raft.Ids.{Mask, sift, insertion, ids_ok, make_sorted_ids, set_has}
use kynovo.Raft.Ids.Search.{IsAscending}

-- greatest first, as the loop holds the sorted part
abbrev IsFalling : Mask → Type 0
IsFalling [] = Unit
IsFalling (x ∷ xs) = All (λ y. y ≤ x) xs × IsFalling xs

abbrev IsRising : Mask → Type 0
IsRising [] = Unit
IsRising (x ∷ xs) = All (λ y. x ≤ y) xs × IsRising xs

All-le_trans : (xs : Mask) (a b : ℕ) → a ≤ b → All (λ y. y ≤ a) xs → All (λ y. y ≤ b) xs
All-le_trans [] a b h all = tt
All-le_trans (x ∷ xs) a b h all = (omega arith, All-le_trans xs a b h all.1)

All-le-sift : (v b : ℕ) (xs : Mask) → v ≤ b → All (λ y. y ≤ b) xs → All (λ y. y ≤ b) (sift v xs)
unfolding sift
All-le-sift v b [] h all = (h, tt)
All-le-sift v b (x ∷ xs) h all = ground (arith, All-le-sift v b xs h all.1)

sift-IsFalling : (v : ℕ) (xs : Mask) → IsFalling xs → IsFalling (sift v xs)
unfolding sift
sift-IsFalling v [] f = (tt, tt)
sift-IsFalling v (x ∷ xs) f = elim (Bool-cases (ltb v x)) [
  | inl e ↦ rw e (All-le-sift v x xs (ground arith) f.0, sift-IsFalling v xs f.1)
  | inr e ↦ rw e ((ground arith, All-le_trans xs x v (ground arith) f.0), f)
]

insertion-IsFalling : (vs xs : Mask) → IsFalling xs → IsFalling (insertion vs xs)
unfolding insertion
insertion-IsFalling [] xs f = f
insertion-IsFalling (v ∷ vs) xs f = insertion-IsFalling vs (sift v xs) (sift-IsFalling v xs f)

All-append {ℓ} : (P : ℕ → Type ℓ) (xs ys : Mask) → All P xs → All P ys → All P (xs ++ ys)
All-append P [] ys hx hy = hy
All-append P (x ∷ xs) ys hx hy = (hx.0, All-append P xs ys hx.1 hy)

reverse-cons : (x : ℕ) (xs : Mask) → reverse (x ∷ xs) ≡ reverse xs ++ x ∷ []
reverse-cons x xs = reverse-append (x ∷ []) xs

All-reverse {ℓ} : (P : ℕ → Type ℓ) (xs : Mask) → All P xs → All P (reverse xs)
All-reverse P [] h = h
All-reverse P (x ∷ xs) h =
    rw reverse-cons (All-append P (reverse xs) (x ∷ []) (All-reverse P xs h.1) (h.0, tt))

IsRising-snoc : (xs : Mask) (x : ℕ) → IsRising xs → All (λ y. y ≤ x) xs → IsRising (xs ++ x ∷ [])
IsRising-snoc [] x r all = (tt, tt)
IsRising-snoc (y ∷ ys) x r all =
    (All-append (λ z. y ≤ z) ys (x ∷ []) r.0 (all.0, tt), IsRising-snoc ys x r.1 all.1)

reverse-IsRising : (xs : Mask) → IsFalling xs → IsRising (reverse xs)
reverse-IsRising [] f = tt
reverse-IsRising (x ∷ xs) f =
    rw reverse-cons
      (IsRising-snoc (reverse xs) x (reverse-IsRising xs f.1) (All-reverse (λ y. y ≤ x) xs f.0))

All-get_or : (xs : Mask) (a k : ℕ) → All (λ y. a ≤ y) xs → k < length xs → a ≤ get_or xs k 0
All-get_or [] a k all h = absurd (omega arith)
All-get_or (x ∷ xs) a zero all h = all.0
All-get_or (x ∷ xs) a (suc k) all h = All-get_or xs a k all.1 (omega arith)

-- Rising, with no id equal to the one before it, is strictly ascending.
IsAscending-of_ok : (xs : Mask) → IsRising xs → ids_ok xs ≡ true → IsAscending xs
unfolding ids_ok
IsAscending-of_ok [] r ok i j ij h = absurd (omega arith)
IsAscending-of_ok (x ∷ []) r ok i j ij h = absurd (omega arith)
IsAscending-of_ok (x ∷ y ∷ l) r ok zero zero ij h = absurd (omega arith)
IsAscending-of_ok (x ∷ y ∷ l) r ok zero (suc zero) ij h = ground arith
IsAscending-of_ok (x ∷ y ∷ l) r ok zero (suc (suc j)) ij h =
    ground (arith, All-get_or l y j r.1.0 (omega arith))
IsAscending-of_ok (x ∷ y ∷ l) r ok (suc i) zero ij h = absurd (omega arith)
IsAscending-of_ok (x ∷ y ∷ l) r ok (suc i) (suc j) ij h =
    IsAscending-of_ok (y ∷ l) r.1 (ground arith) i j (omega arith) (omega arith)

set_has-sift : (v id : ℕ) (xs : Mask) → set_has (sift v xs) id ≡ (v == id || set_has xs id)
unfolding sift set_has
set_has-sift v id [] = refl
set_has-sift v id (x ∷ xs) = ground (arith, set_has-sift v id xs)

set_has-insertion :
    (id : ℕ) (vs xs : Mask) → set_has (insertion vs xs) id ≡ (set_has vs id || set_has xs id)
unfolding insertion set_has
set_has-insertion id [] xs = refl
set_has-insertion id (v ∷ vs) xs =
    ground (arith, set_has-insertion id vs (sift v xs), set_has-sift v id xs)

set_has-append : (id : ℕ) (xs ys : Mask) → set_has (xs ++ ys) id ≡ (set_has xs id || set_has ys id)
unfolding set_has
set_has-append id [] ys = refl
set_has-append id (x ∷ xs) ys = ground (arith, set_has-append id xs ys)

set_has-reverse : (id : ℕ) (xs : Mask) → set_has (reverse xs) id ≡ set_has xs id
unfolding set_has
set_has-reverse id [] = refl
set_has-reverse id (x ∷ xs) =
    rw reverse-cons (ground (arith, set_has-append id (reverse xs) (x ∷ []), set_has-reverse id xs))

-- What is accepted came out of the sort and passed the second loop.
accepted :
    (mem : Bool) (v : ℕ) (vs out : Mask)
    → make_sorted_ids mem (v ∷ vs) ≡ some out
    → (reverse (insertion (v ∷ vs) []) ≡ out) × (ids_ok (reverse (insertion (v ∷ vs) [])) ≡ true)
unfolding make_sorted_ids
accepted mem v vs out h = ground arith

empty : (mem : Bool) {out : Mask} → make_sorted_ids mem [] ≡ some out → [] ≡ out
unfolding make_sorted_ids
empty mem h = cc

set_has-insertion_nil : (id : ℕ) (vs : Mask) → set_has (insertion vs []) id ≡ set_has vs id
unfolding set_has
set_has-insertion_nil id vs = ground (arith, set_has-insertion id vs [])

-- An id list that is accepted comes back in strictly ascending order, and holds exactly the ids that
-- it was given.
pub make_sorted_ids_lem :
    (mem : Bool) (ids out : Mask)
    → make_sorted_ids mem ids ≡ some out
    → IsAscending out × ((id : ℕ) → set_has out id ≡ set_has ids id)
make_sorted_ids_lem mem [] out h =
    rw (← empty mem h) ((λ i j ij k. absurd (omega arith)), λ id. refl)
make_sorted_ids_lem mem (v ∷ vs) out h =
    let (e, ok) = accepted mem v vs out h in
    (
      rw (← e) (IsAscending-of_ok _ (reverse-IsRising _ (insertion-IsFalling (v ∷ vs) [] tt)) ok),
      λ id. rw (← e, set_has-reverse) (set_has-insertion_nil id (v ∷ vs)),
    )
