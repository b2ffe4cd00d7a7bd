-- ===== src/Treap/Tree.antt =====
-- The nodes of code/treap.h and the walks over them.
-- Nodes are shared and never changed once they are published: an operation clones the nodes of its
-- path and works on the clones. A tree is therefore a value. A node keeps its priority and the size
-- of its subtree; `fix` is a clone whose size was recomputed from its new children
-- (treap_node_fix_size). The clones of one walk count as one allocation, and a walk that clones
-- nothing needs none.
use kynovo.Common.{
  ℕ, ◌+◌, ◌*◌, ◌/◌, ◌%◌, ◌^◌, ◌-◌, bit_xor, [], ◌∷◌, Option, none, some, ltb, ◌==◌, if◌then◌else◌,
  u64_mod,
}
use kynovo.Treap.Key.{
  Sign, less, equal, greater, Key, sign_of, then_by, key_cmp, is_less, is_greater,
}

pub data Tree : Type 0 where
  leaf : Tree
  node : (priority size : ℕ) (key value : Key) (left right : Tree) → Tree

abbrev pub size_of : Tree → ℕ
size_of leaf = 0
size_of (node p s k v l r) = s

-- A clone with its size recomputed.
abbrev pub fix : ℕ → Key → Key → Tree → Tree → Tree
fix p k v l r = node p (1 + size_of l + size_of r) k v l r

abbrev shift_mix : ℕ → ℕ
shift_mix h = bit_xor h (h / 2 ^ 33)

hash_bytes : ℕ → Key → ℕ
hash_bytes h [] = h
hash_bytes h (b ∷ bs) = hash_bytes ((bit_xor h b * 1099511628211) % u64_mod) bs

-- treap_hash: FNV-1a, and a mix of its 64 bits.
unfoldable pub hash : ℕ → Key → ℕ
unfolding hash_bytes
hash seed key =
    let h = hash_bytes (bit_xor seed 14695981039346656037) key in
    let h1 = (shift_mix h * 18397679294719823053) % u64_mod in
    let h2 = (shift_mix h1 * 14181476777654086739) % u64_mod in shift_mix h2

-- treap_priority_cmp: the key decides between equal priorities.
unfoldable pub priority_cmp : ℕ → Key → ℕ → Key → Sign
unfolding key_cmp
priority_cmp p k q l = then_by (sign_of p q) (key_cmp k l)

-- treap_find
unfoldable pub find : Key → Tree → Option Key
find key leaf = none
find key (node p s k v l r) =
    let left = find key l in
    let right = find key r in
    elim (key_cmp key k) [ less ↦ left | equal ↦ some v | greater ↦ right ]

-- treap_split, where its clones are made: the keys below `key`, and the others.
unfoldable pub split : Key → Tree → Tree × Tree
split key leaf = (leaf, leaf)
split key (node p s k v l r) =
    let (ll, lr) = split key l in
    let (rl, rr) = split key r in
    if is_greater (key_cmp key k) then (fix p k v l rl, rr) else (ll, fix p k v lr r)

-- treap_merge, where its clones are made
unfoldable pub merge : Tree → Tree → Tree
merge leaf b = b
merge (node p s k v l r) leaf = node p s k v l r
merge (node p s k v l r) (node q t m w x y) =
    let right = merge r (node q t m w x y) in
    let left = merge (node p s k v l r) x in
    if is_greater (priority_cmp p k q m) then fix p k v l right else fix q m w left y

-- The leftmost and the rightmost entry of a tree that has one.
unfoldable pub leftmost : Tree → Option (Key × Key)
leftmost leaf = none
leftmost (node p s k v leaf r) = some (k, v)
leftmost (node p s k v (node p' s' k' v' l' r') r) = leftmost (node p' s' k' v' l' r')

unfoldable pub rightmost : Tree → Option (Key × Key)
rightmost leaf = none
rightmost (node p s k v l leaf) = some (k, v)
rightmost (node p s k v l (node p' s' k' v' l' r')) = rightmost (node p' s' k' v' l' r')

-- treap_remove_min, where its clones are made: what is left without the leftmost node
unfoldable pub remove_min : Tree → Tree
remove_min leaf = leaf
remove_min (node p s k v leaf r) = r
remove_min (node p s k v (node p' s' k' v' l' r') r) =
    fix p k v (remove_min (node p' s' k' v' l' r')) r

-- treap_rank, from a rank that was counted above
unfoldable pub rank_from : ℕ → Key → Tree → ℕ
rank_from n key leaf = n
rank_from n key (node p s k v l r) =
    let right = rank_from (n + (size_of l + 1)) key r in
    let left = rank_from n key l in if is_less (key_cmp k key) then right else left

-- treap_select
unfoldable pub select : ℕ → Tree → Option (Key × Key)
select index leaf = none
select index (node p s k v l r) =
    let left = select index l in
    let right = select (index - (size_of l + 1)) r in
    if ltb index (size_of l) then left else if index == size_of l then some (k, v) else right
