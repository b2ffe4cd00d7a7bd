-- ===== src/Treap/Map.antt =====
-- The operations of code/treap.h on a whole map. Keys and values are byte strings with their lengths,
-- and no pointer that a caller passes is NULL; an empty key is refused. A code `none` is -1.
use kynovo.Common.{
  ℕ, ◌+◌, ◌-◌, ◌^◌, List, [], ◌∷◌, Bool, true, false, Option, none, some, ltb, leb, if◌then◌else◌,
  ◌&&◌, not, length,
}
use kynovo.Common.Memory.{allocate_each}
use kynovo.Treap.Key.{Key, key_cmp, is_equal}
use kynovo.Treap.Tree.{Tree, leaf, node, hash, find, split, merge, leftmost, remove_min, rank_from}

pub record Treap : Type 0 where
  pub root : Tree
  pub count : ℕ
  pub seed : ℕ
  pub memory : List Bool

abbrev pub Code : Type 0
Code = Option ℕ

abbrev pub is_empty : Key → Bool
is_empty [] = true
is_empty (b ∷ bs) = false

abbrev has_node : Tree → Bool
has_node leaf = false
has_node (node p s k v l r) = true

abbrev has_left : Tree → Bool
has_left leaf = false
has_left (node p s k v l r) = has_node l

-- A node's bytes do not fit an `unsigned int`: `sizeof(treap_node)` is 72 on a 64-bit target.
abbrev pub too_long : Key → Bool
too_long key = ltb (2 ^ 32 - 1) (72 + length key)

-- The leftmost of the keys not below `key` is `key` itself.
abbrev pub is_at : Key → Option (Key × Key) → Bool
is_at key none = false
is_at key (some (k, v)) = is_equal (key_cmp k key)

abbrev pub holds : Key → Tree → Bool
holds key from = is_at key (leftmost from)

abbrev pub fresh : ℕ → Key → Key → Tree
fresh seed key value = node (hash seed key) 1 key value leaf leaf

abbrev pub rest_of : Key → Tree → Tree
rest_of key from = if holds key from then remove_min from else from

-- The new tree of a `treap_set`
unfoldable pub set_root : ℕ → Key → Key → Tree → Tree
set_root seed key value root =
    let (below, from) = split key root in
    merge below (merge (fresh seed key value) (rest_of key from))

unfoldable pub set_needs : Key → Key → Tree → List Bool
set_needs key value root =
    let (below, from) = split key root in
    has_node root
    ∷ (holds key from && has_left from)
    ∷ (if too_long key
        then []
        else true ∷ not (is_empty value) ∷ has_node (rest_of key from) ∷ has_node below ∷ [])

unfoldable pub set : Key → Key → Treap → Code × Treap
unfolding set_needs allocate_each
set key value t =
    let (below, from) = split key t.root in
    let (got, memory) = allocate_each (set_needs key value t.root) t.memory in
    if is_empty key
    then (none, t)
    else if got && not (too_long key)
    then (
      some 0,
      record t {
        memory = memory;
        root = set_root t.seed key value t.root;
        count = if holds key from then t.count else t.count + 1;
      },
    )
    else (none, record t { memory = memory })

unfoldable pub delete_root : Key → Tree → Tree
delete_root key root = let (below, from) = split key root in merge below (remove_min from)

unfoldable pub delete_needs : Key → Tree → List Bool
delete_needs key root =
    let (below, from) = split key root in
    has_node root
    ∷ (if holds key from
        then has_left from ∷ (has_node below && has_node (remove_min from)) ∷ []
        else [])

-- The rest of a `treap_delete`, with the outcome of its allocations.
unfoldable pub delete_with : Key → Treap → Bool × List Bool → Code × Treap
delete_with key t (false, memory) = (none, record t { memory = memory })
delete_with key t (true, memory) =
    let (below, from) = split key t.root in
    if holds key from
    then (some 1, record t { memory = memory; root = delete_root key t.root; count = t.count - 1 })
    else (some 0, record t { memory = memory })

unfoldable pub delete : Key → Treap → Code × Treap
delete key t =
    if is_empty key
    then (none, t)
    else delete_with key t (allocate_each (delete_needs key t.root) t.memory)

-- How many nodes `treap_op_push_free_tree` retires.
unfoldable pub nodes : Tree → ℕ
nodes leaf = 0
nodes (node p s k v l r) = 1 + nodes l + nodes r

-- An empty bound is no bound.
unfoldable pub from_bound : Key → Tree → Tree × Tree
from_bound begin root = if is_empty begin then (leaf, root) else split begin root

unfoldable pub to_bound : Key → Tree → Tree × Tree
to_bound end root = if is_empty end then (root, leaf) else split end root

unfoldable pub range_needs : Key → Key → Tree → List Bool
unfolding from_bound to_bound
range_needs begin end root =
    let (below, mid) = from_bound begin root in
    let (inside, above) = to_bound end mid in
    (not (is_empty begin) && has_node root)
    ∷ (not (is_empty end) && has_node mid)
    ∷ has_node inside
    ∷ (has_node below && has_node above)
    ∷ []

unfoldable pub delete_range_with : Key → Key → Treap → Bool × List Bool → Code × Treap
delete_range_with begin end t (false, memory) = (none, record t { memory = memory })
delete_range_with begin end t (true, memory) =
    let (below, mid) = from_bound begin t.root in
    let (inside, above) = to_bound end mid in
    (
      some (nodes inside),
      record t { memory = memory; root = merge below above; count = t.count - nodes inside },
    )

-- The code is the number of keys that were removed.
unfoldable pub delete_range : Key → Key → Treap → Code × Treap
delete_range begin end t =
    delete_range_with begin end t (allocate_each (range_needs begin end t.root) t.memory)

-- treap_get: `none` is -1, and `some none` is 0.
unfoldable pub get : Key → Treap → Option (Option Key)
get key t = if is_empty key then none else some (find key t.root)

unfoldable pub rank : Key → Treap → ℕ
rank key t = if is_empty key then 0 else rank_from 0 key t.root

unfoldable pub count_range : Key → Key → Treap → ℕ
unfolding rank
count_range begin end t =
    let rb = if is_empty begin then 0 else rank begin t in
    let re = if is_empty end then t.count else rank end t in if leb rb re then re - rb else 0
