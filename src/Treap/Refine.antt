-- ===== src/Treap/Refine.antt =====
-- The updates of code/treap.h refine those of a sorted list of entries.
use kynovo.Common.{
  keep_whole, ℕ, ◌≡◌, ◌∙◌, refl, sym, ap, ap₂, List, [], ◌∷◌, ◌++◌, Option, none, some,
  if◌then◌else◌, not, Bool-cases, All, inl, inr, All-map, drop,
}
use kynovo.Treap.Key.{Sign, less, equal, greater, Key, key_cmp, is_less}
use kynovo.Treap.Key.Order.{key_cmp-flip, key_cmp-equal, key_cmp_trans, flip}
use kynovo.Treap.Tree.{Tree, leaf, node, split, leftmost, remove_min}
use kynovo.Treap.Map.{is_at, holds, fresh, rest_of, set_root}
use kynovo.Treap.Entries.{
  Entry, entries, Above, IsSorted, below, above, from, merge-entries, split-entries, not_less,
}

abbrev pub first : List Entry → Option Entry
first [] = none
first (e ∷ es) = some e

-- The update of a sorted list: the entries below, the new one, the entries above.
abbrev pub put : Key → Key → List Entry → List Entry
put key value es = below key es ++ (key, value) ∷ above key es

abbrev pub remove : Key → List Entry → List Entry
remove key es = below key es ++ above key es

pub leftmost-entries : (t : Tree) → leftmost t ≡ first (entries t)
unfolding leftmost entries
leftmost-entries leaf = refl
leftmost-entries (node p s k v leaf r) = refl
leftmost-entries (node p s k v (node p' s' k' v' l' r') r) =
    leftmost-entries (node p' s' k' v' l' r')
    ∙ sym (first-append (entries l') (k', v') (entries r') _)
  where
    first-append :
        (xs : List Entry) (e : Entry) (ys zs : List Entry)
        → first ((xs ++ e ∷ ys) ++ zs) ≡ first (xs ++ e ∷ ys)
    first-append [] e ys zs = refl
    first-append (x ∷ xs) e ys zs = refl

pub remove_min-entries : (t : Tree) → entries (remove_min t) ≡ drop 1 (entries t)
unfolding remove_min entries
remove_min-entries leaf = refl
remove_min-entries (node p s k v leaf r) = refl
remove_min-entries (node p s k v (node p' s' k' v' l' r') r) =
    ap (λ a. a ++ (k, v) ∷ entries r) (remove_min-entries (node p' s' k' v' l' r'))
    ∙ sym (drop-append (entries l') (k', v') (entries r') _)
  where
    drop-append :
        (xs : List Entry) (e : Entry) (ys zs : List Entry)
        → drop 1 ((xs ++ e ∷ ys) ++ zs) ≡ drop 1 (xs ++ e ∷ ys) ++ zs
    drop-append [] e ys zs = refl
    drop-append (x ∷ xs) e ys zs = refl

-- On ascending keys the entries above a key are those from it on, less its own.
pub above-from :
    (key : Key) (es : List Entry)
    → IsSorted es
    → above key es ≡ (if is_at key (first (from key es)) then drop 1 (from key es) else from key es)
above-from key [] h = refl
above-from key (e ∷ es) (a, h) = by_sign a (above-from key es h) (key_cmp e.0 key) refl
  where
    by_sign :
        Above e.0 es
        → above key es
          ≡ (if is_at key (first (from key es)) then drop 1 (from key es) else from key es)
        → (c : Sign) → key_cmp e.0 key ≡ c
        → above key (e ∷ es) ≡ (
            if is_at key (first (from key (e ∷ es)))
            then drop 1 (from key (e ∷ es))
            else from key (e ∷ es))
    by_sign a ih less c = rw (c, key_cmp-flip e.0 key, c) ih
    by_sign a ih equal c =
        let same : e.0 ≡ key = key_cmp-equal e.0 key c in
        let later : All (λ x. key_cmp key x.0 ≡ less) es = rw same at a in
        rw (c, key_cmp-flip e.0 key, c)
          (keep_whole _ es (All-map _ _ es (λ x p. ap is_less p) later)
            ∙ sym (keep_whole _ es (All-map _ _ es (λ x p. ap not (not_less key x.0 p)) later)))
    by_sign a ih greater c =
        let back : key_cmp key e.0 ≡ less = key_cmp-flip e.0 key ∙ ap flip c in
        let later : All (λ x. key_cmp key x.0 ≡ less) es =
          All-map _ _ es (λ x p. key_cmp_trans key e.0 x.0 back p) a in
        rw (c, back, c)
          (ap (λ l. e ∷ l)
            (keep_whole _ es (All-map _ _ es (λ x p. ap is_less p) later)
              ∙ sym (keep_whole _ es (All-map _ _ es (λ x p. ap not (not_less key x.0 p)) later))))

rest_of-entries :
    (key : Key) (t : Tree)
    → entries (rest_of key t)
      ≡ (if is_at key (first (entries t)) then drop 1 (entries t) else entries t)
rest_of-entries key t = elim (Bool-cases (holds key t)) [
  | inl here ↦ rw (here, ← leftmost-entries t, here) (remove_min-entries t)
  | inr gone ↦ rw (gone, ← leftmost-entries t, gone) refl
]

pub set_root-entries :
    (seed : ℕ) (key value : Key) (t : Tree)
    → IsSorted (entries t)
    → entries (set_root seed key value t) ≡ put key value (entries t)
unfolding set_root entries
set_root-entries seed key value t h =
    let (b, f) = split-entries key t h in
    merge-entries (split key t).0 _
    ∙ ap₂ (λ x y. x ++ y) b
        (merge-entries (fresh seed key value) _
          ∙ ap (λ y. (key, value) ∷ y)
              (rest_of-entries key (split key t).1 ∙ rw f (sym (above-from key (entries t) h))))
