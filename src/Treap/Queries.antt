-- ===== src/Treap/Queries.antt =====
-- Lookup, rank and selection of code/treap.h agree with the list of the entries.
use kynovo.Common.{
  ℕ, suc, ◌+◌, ◌-◌, ◌≡◌, ◌∙◌, refl, sym, ap, List, [], ◌∷◌, ◌++◌, false, Option, none, some, ltb,
  ◌==◌, if◌then◌else◌, length, length-append, arith, Bool-cases, All, inl, inr, get_elem?,
  get_elem?-append_left, get_elem?-append_right, All-map,
}
use kynovo.Treap.Key.{Sign, less, equal, greater, Key, key_cmp, is_less, is_equal, is_greater}
use kynovo.Treap.Key.Order.{key_cmp-flip, key_cmp-equal, key_cmp_trans, flip}
use kynovo.Treap.Tree.{Tree, leaf, node, size_of, find, rank_from, select}
use kynovo.Treap.Entries.{
  Entry, entries, IsSized, Below, Above, IsSorted, below, split_root, split_below, IsSorted-split,
}

-- The value of the first entry with the key.
unfoldable pub lookup : Key → List Entry → Option Key
lookup key [] = none
lookup key (e ∷ es) = if is_equal (key_cmp key e.0) then some e.1 else lookup key es

pub lookup-none :
    (key : Key) (es : List Entry)
    → All (λ e. is_equal (key_cmp key e.0) ≡ false) es
    → lookup key es ≡ none
unfolding lookup
lookup-none key [] h = refl
lookup-none key (e ∷ es) h = rw (h.0) (lookup-none key es h.1)

pub lookup-right :
    (key : Key) (xs ys : List Entry)
    → All (λ e. is_equal (key_cmp key e.0) ≡ false) xs
    → lookup key (xs ++ ys) ≡ lookup key ys
unfolding lookup
lookup-right key [] ys h = refl
lookup-right key (x ∷ xs) ys h = rw (h.0) (lookup-right key xs ys h.1)

pub lookup-left :
    (key : Key) (xs ys : List Entry)
    → All (λ e. is_equal (key_cmp key e.0) ≡ false) ys
    → lookup key (xs ++ ys) ≡ lookup key xs
unfolding lookup
lookup-left key [] ys h = lookup-none key ys h
lookup-left key (x ∷ xs) ys h = rw (lookup-left key xs ys h) refl

other : (a b : Key) → key_cmp b a ≡ less → is_equal (key_cmp a b) ≡ false
other a b h = rw (key_cmp-flip b a, h) refl

-- On ascending keys the walk finds the entry that a scan of all entries finds.
pub find-eq-lookup :
    (key : Key) (t : Tree) → IsSorted (entries t) → find key t ≡ lookup key (entries t)
unfolding find lookup entries
find-eq-lookup key leaf h = refl
find-eq-lookup key (node p s k v l r) h =
    let ((sl, bl), (ar, sr)) = IsSorted-split (entries l) (entries r) (k, v) h in
    by_sign (find-eq-lookup key l sl) (find-eq-lookup key r sr) bl ar (key_cmp key k) refl
  where
    by_sign :
        find key l ≡ lookup key (entries l)
        → find key r ≡ lookup key (entries r)
        → Below k (entries l)
        → Above k (entries r)
        → (c : Sign) → key_cmp key k ≡ c
        → find key (node p s k v l r) ≡ lookup key (entries (node p s k v l r))
    by_sign fl fr bl ar less e =
        rw (e, find)
          (fl
            ∙ sym (
                lookup-left key (entries l) _ (
                  ap is_equal e,
                  All-map _ _ (entries r) (λ x a. ap is_equal (key_cmp_trans key k x.0 e a)) ar,
                )))
    by_sign fl fr bl ar equal e =
        rw (e, find)
          (sym (
            lookup-right key (entries l) _
              (All-map _ _ (entries l) (λ x b. other key x.0 (rw (key_cmp-equal key k e) b)) bl)
            ∙ rw e refl))
    by_sign fl fr bl ar greater e =
        let above_k : key_cmp k key ≡ less = key_cmp-flip key k ∙ ap flip e in
        rw (e, find)
          (fr
            ∙ sym (
                lookup-right key (entries l) _ (
                  All-map _ _ (entries l) (λ x b. other key x.0 (key_cmp_trans x.0 k key b above_k))
                    bl)
                ∙ rw e refl))

pub size-IsSized : (t : Tree) → IsSized t → size_of t ≡ length (entries t)
unfolding entries
size-IsSized leaf h = refl
size-IsSized (node p s k v l r) h = h.0

is_less-is_greater : (a b : Key) → is_less (key_cmp a b) ≡ is_greater (key_cmp b a)
is_less-is_greater a b = rw (key_cmp-flip a b) (by_sign (key_cmp a b))
  where
    by_sign : (s : Sign) → is_less s ≡ is_greater (flip s)
    by_sign less = refl
    by_sign equal = refl
    by_sign greater = refl

rank_from_lem :
    (n : ℕ) (key : Key) (t : Tree)
    → IsSorted (entries t)
    → IsSized t
    → rank_from n key t ≡ n + length (below key (entries t))
unfolding rank_from entries
rank_from_lem n key leaf h z = omega arith
rank_from_lem n key (node p s k v l r) h (e, (zl, zr)) =
    let ((sl, bl), (ar, sr)) = IsSorted-split (entries l) (entries r) (k, v) h in
    elim (Bool-cases (is_greater (key_cmp key k))) [
      | inl gt ↦
          rw (is_less-is_greater k key, gt, (split_root key k v (entries l) (entries r) gt h).0)
            (omega (
              arith,
              rank_from_lem (n + (size_of l + 1)) key r sr zr,
              length-append (entries l) ((k, v) ∷ below key (entries r)),
              size-IsSized l zl,
            ))
      | inr ng ↦
          rw (is_less-is_greater k key, ng, (split_below key k v (entries l) (entries r) ng h).0)
            (rank_from_lem n key l sl zl)
    ]

-- With ascending keys and right sizes the rank of a key is the number of the entries with a smaller
-- key.
pub rank-below :
    (key : Key) (t : Tree)
    → IsSorted (entries t)
    → IsSized t
    → rank_from 0 key t ≡ length (below key (entries t))
rank-below key t h z = omega (arith, rank_from_lem 0 key t h z)

-- With right sizes, selection is indexing the list of the entries, past its end included.
pub select-eq-get_elem? : (i : ℕ) (t : Tree) → IsSized t → select i t ≡ get_elem? (entries t) i
unfolding select entries
select-eq-get_elem? i leaf z = refl
select-eq-get_elem? i (node p s k v l r) (e, (zl, zr)) =
    elim (Bool-cases (ltb i (length (entries l)))) [
      | inl low ↦
          rw (size-IsSized l zl, low)
            (select-eq-get_elem? i l zl
              ∙ sym (get_elem?-append_left (entries l) _ i (ground arith)))
      | inr high ↦ elim (Bool-cases (i == length (entries l))) [
        | inl mid ↦
            let at : i ≡ length (entries l) + 0 = ground arith in
            rw (size-IsSized l zl, high, mid)
              (sym (ap (get_elem? _) at ∙ get_elem?-append_right (entries l) _ 0))
        | inr past ↦
            let at : i ≡ length (entries l) + suc (i - (length (entries l) + 1)) = ground arith in
            rw (size-IsSized l zl, high, past)
              (select-eq-get_elem? (i - (length (entries l) + 1)) r zr
                ∙ sym (ap (get_elem? _) at ∙ get_elem?-append_right (entries l) _ _))
      ]
    ]
