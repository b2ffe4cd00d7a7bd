-- ===== src/Raft/Ids.antt =====
-- Voter and learner sets of code/raft.h: `raft_mask`, `raft_set` and the functions on them.
-- An `int` id is a number. The source refuses every id that is not positive (`raft_id_valid`), so 0
-- stands for all of those, and for "nobody" in `voted_for`, `leader_id` and `transfer_target`.
-- `raft_mask` and `raft_set` are both an array of ids with its length: a list.
pub mod Search
pub mod Sort
use kynovo.Common.{
  ℕ, zero, suc, ◌+◌, ◌-◌, ◌/◌, ◌≡◌, Bool, true, false, not, ◌&&◌, ◌||◌, Option, none, some, List,
  [], ◌∷◌, ltb, leb, ◌==◌, if◌then◌else◌, length, get_or,
}
use mathlib.Core.List.{reverse}

abbrev pub Mask : Type 0
Mask = List ℕ

unfoldable pub id_valid : ℕ → Bool
id_valid id = ltb 0 id

abbrev pub mask_any : Mask → Bool
mask_any m = ltb 0 (length m)

-- `memcmp` over the ids, once the counts agree
unfoldable pub mask_eq : Mask → Mask → Bool
mask_eq [] [] = true
mask_eq [] (b ∷ m) = false
mask_eq (a ∷ l) [] = false
mask_eq (a ∷ l) (b ∷ m) = a == b && mask_eq l m

-- The loop of `raft_mask_has`. `hi` is one more than the source's, which may be -1, so that
-- `lo <= hi` is `lo < hi` here. One round of fuel for each position is enough.
mask_search : ℕ → Mask → ℕ → ℕ → ℕ → Bool
mask_search zero m id lo hi = false
mask_search (suc fuel) m id lo hi =
    let mid = lo + (hi - 1 - lo) / 2 in
    let right = mask_search fuel m id (mid + 1) hi in
    let left = mask_search fuel m id lo mid in
    if ltb lo hi
    then (if get_or m mid 0 == id then true else if ltb (get_or m mid 0) id then right else left)
    else false

unfoldable pub mask_has : Mask → ℕ → Bool
unfolding id_valid mask_search
mask_has m id = if id_valid id then mask_search (suc (length m)) m id 0 (length m) else false

-- A linear scan; `raft_is_learner` is the same loop over the learners.
unfoldable pub set_has : Mask → ℕ → Bool
set_has [] id = false
set_has (x ∷ xs) id = x == id || set_has xs id

-- The inner loop of the insertion sort in `raft_make_sorted_ids`: `v` moves left past the greater
-- ids. The sorted part is held with its last id first, in the order in which the loop meets it.
sift : ℕ → Mask → Mask
sift v [] = v ∷ []
sift v (x ∷ xs) = let rest = sift v xs in if ltb v x then x ∷ rest else v ∷ x ∷ xs

insertion : Mask → Mask → Mask
insertion [] done = done
insertion (v ∷ vs) done = insertion vs (sift v done)

-- The second loop: every id is valid, and none equals the one before it.
ids_ok : Mask → Bool
unfolding id_valid
ids_ok [] = true
ids_ok (x ∷ []) = id_valid x
ids_ok (x ∷ y ∷ l) = id_valid x && not (y == x) && ids_ok (y ∷ l)

-- `none` is the -1 of a refused list (the copy is released); the flag is the allocation's success.
unfoldable pub make_sorted_ids : Bool → Mask → Option Mask
unfolding sift insertion ids_ok
make_sorted_ids mem [] = some []
make_sorted_ids mem ids =
    if mem
    then (let sorted = reverse (insertion ids []) in if ids_ok sorted then some sorted else none)
    else none
