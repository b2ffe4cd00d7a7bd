-- ===== src/Treap/Sizes.antt =====
-- The walks of code/treap.h keep every stored size right.
use kynovo.Common.{ℕ, ◌∷◌, length-append, arith, Bool-cases, inl, inr}
use kynovo.Treap.Key.{Key, key_cmp, is_greater}
use kynovo.Treap.Tree.{Tree, leaf, node, fix, split, merge, remove_min, priority_cmp}
use kynovo.Treap.Entries.{entries, IsSized}
use kynovo.Treap.Queries.{size-IsSized}

fix-IsSized : (p : ℕ) (k v : Key) (l r : Tree) → IsSized l → IsSized r → IsSized (fix p k v l r)
unfolding entries
fix-IsSized p k v l r hl hr = (
  omega
      (arith, length-append (entries l) ((k, v) ∷ entries r), size-IsSized l hl, size-IsSized r hr),
  (hl, hr),
)

pub split-IsSized :
    (key : Key) (t : Tree) → IsSized t → IsSized (split key t).0 × IsSized (split key t).1
unfolding split
split-IsSized key leaf h = (tt, tt)
split-IsSized key (node p s k v l r) (e, (hl, hr)) =
    let (ll, lr) = split-IsSized key l hl in
    let (rl, rr) = split-IsSized key r hr in
    elim (Bool-cases (is_greater (key_cmp key k))) [
      | inl gt ↦ rw gt (fix-IsSized p k v l (split key r).0 hl rl, rr)
      | inr ng ↦ rw ng (ll, fix-IsSized p k v (split key l).1 r lr hr)
    ]

pub merge-IsSized : (a b : Tree) → IsSized a → IsSized b → IsSized (merge a b)
unfolding merge
merge-IsSized leaf b ha hb = hb
merge-IsSized (node p s k v l r) leaf ha hb = ha
merge-IsSized (node p s k v l r) (node q t m w x y) ha hb =
    let right = merge-IsSized r (node q t m w x y) ha.1.1 hb in
    let left = merge-IsSized (node p s k v l r) x ha hb.1.0 in
    elim (Bool-cases (is_greater (priority_cmp p k q m))) [
      | inl high ↦ rw high (fix-IsSized p k v l _ ha.1.0 right)
      | inr low ↦ rw low (fix-IsSized q m w _ y left hb.1.1)
    ]

pub remove_min-IsSized : (t : Tree) → IsSized t → IsSized (remove_min t)
unfolding remove_min
remove_min-IsSized leaf h = tt
remove_min-IsSized (node p s k v leaf r) h = h.1.1
remove_min-IsSized (node p s k v (node p' s' k' v' l' r') r) h =
    fix-IsSized p k v _ r (remove_min-IsSized (node p' s' k' v' l' r') h.1.0) h.1.1
