-- ===== src/Raft/Ids/Search.antt =====
-- The binary search of `raft_mask_has` against the linear scan of `raft_set_has`.
use kynovo.Common.{
  ℕ, zero, suc, ◌+◌, ◌-◌, ◌/◌, ◌≤◌, ◌<◌, ◌≡◌, ap, true, false, [], ◌∷◌, inl, inr, arith, ltb, ◌==◌,
  if◌then◌else◌, length, get_or, Bool-cases, ==_iff,
}
use kynovo.Raft.Ids.{Mask, id_valid, mask_search, mask_has, set_has}

-- The ids are in strictly ascending order, as `raft_make_sorted_ids` leaves them.
abbrev pub IsAscending : Mask → Type 0
IsAscending m = (i j : ℕ) → i < j → j < length m → get_or m i 0 < get_or m j 0

set_has_of_index : (m : Mask) (id k : ℕ) → k < length m → get_or m k 0 ≡ id → set_has m id ≡ true
unfolding set_has
set_has_of_index [] id k h e = absurd (omega arith)
set_has_of_index (x ∷ xs) id zero h e = ground arith
set_has_of_index (x ∷ xs) id (suc k) h e = ground (arith, set_has_of_index xs id k (omega arith) e)

index_of_set_has :
    (m : Mask) (id : ℕ) → set_has m id ≡ true → (k : ℕ) × (k < length m) × (get_or m k 0 ≡ id)
unfolding set_has
index_of_set_has [] id h = cc
index_of_set_has (x ∷ xs) id h = elim (Bool-cases (x == id)) [
  | inl e ↦ (0, omega arith, (==_iff x id).0 e)
  | inr e ↦ let (k, lt, at) = index_of_set_has xs id (rw e at h) in (suc k, omega arith, at)
]

-- Every position that holds `id` lies in the window that is left to search.
abbrev InWindow : Mask → ℕ → ℕ → ℕ → Type 0
InWindow m id lo hi = (k : ℕ) → k < length m → get_or m k 0 ≡ id → (lo ≤ k) × (k < hi)

pub not_has :
    (m : Mask) (id : ℕ) → ((k : ℕ) → k < length m → get_or m k 0 ≡ id → ⊥) → set_has m id ≡ false
not_has m id none_at = elim (Bool-cases (set_has m id)) [
  | inl h ↦ (let (k, lt, at) = index_of_set_has m id h in absurd (none_at k lt at))
  | inr h ↦ h
]

-- Dropping the half below `mid`, whose id is too small; and the half from `mid` on.
window_right :
    (m : Mask) (id lo hi mid : ℕ)
    → IsAscending m
    → mid < length m
    → get_or m mid 0 < id
    → InWindow m id lo hi
    → InWindow m id (mid + 1) hi
window_right m id lo hi mid asc bound small window k lt at = elim (Bool-cases (ltb k mid)) [
  | inl h ↦ (absurd (ground (arith, asc k mid)), absurd (ground (arith, asc k mid)))
  | inr h ↦ elim (Bool-cases (k == mid)) [
    | inl e ↦ absurd (ground (arith, ap (λ i. get_or m i 0) ((==_iff k mid).0 e)))
    | inr e ↦ (ground arith, (window k lt at).1)
  ]
]

window_left :
    (m : Mask) (id lo hi mid : ℕ)
    → IsAscending m
    → mid < length m
    → id < get_or m mid 0
    → InWindow m id lo hi
    → InWindow m id lo mid
window_left m id lo hi mid asc bound great window k lt at = elim (Bool-cases (ltb mid k)) [
  | inl h ↦ (absurd (ground (arith, asc mid k)), absurd (ground (arith, asc mid k)))
  | inr h ↦ elim (Bool-cases (k == mid)) [
    | inl e ↦ absurd (ground (arith, ap (λ i. get_or m i 0) ((==_iff k mid).0 e)))
    | inr e ↦ ((window k lt at).0, ground arith)
  ]
]

mask_search_lem :
    (fuel : ℕ) (m : Mask) (id lo hi : ℕ)
    → IsAscending m
    → hi ≤ length m
    → hi - lo < fuel
    → InWindow m id lo hi
    → mask_search fuel m id lo hi ≡ set_has m id
unfolding mask_search
mask_search_lem zero m id lo hi asc bound enough window = absurd (omega arith)
mask_search_lem (suc fuel) m id lo hi asc bound enough window = elim (Bool-cases (ltb lo hi)) [
  | inr stop ↦ rw (stop, not_has m id (λ k lt at. let (a, b) = window k lt at in ground arith))
  | inl more ↦ rw more (
      ground (
        arith,
        set_has_of_index m id mid (ground arith),
        mask_search_lem fuel m id (mid + 1) hi asc bound (ground arith),
        mask_search_lem fuel m id lo mid asc (ground arith) (ground arith),
        λ (h : get_or m mid 0 < id). window_right m id lo hi mid asc (ground arith) h window,
        λ (h : id < get_or m mid 0). window_left m id lo hi mid asc (ground arith) h window,
      ))
]
  where
    mid : ℕ
    mid = lo + (hi - 1 - lo) / 2

-- On ids in strictly ascending order the binary search finds exactly what a linear scan finds, for
-- every valid id, within as many rounds as the mask has ids and one; it finds no invalid id.
pub mask_has-eq-set_has :
    (m : Mask) (id : ℕ)
    → IsAscending m
    → mask_has m id ≡ (if id_valid id then set_has m id else false)
unfolding mask_has
mask_has-eq-set_has m id asc = rw (
    mask_search_lem (suc (length m)) m id 0 (length m) asc (omega arith) (omega arith)
      (λ k lt at. (omega arith, lt)))
