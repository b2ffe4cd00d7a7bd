-- ===== src/Treap/Delete.antt =====
-- treap_delete of code/treap.h as an update of a sorted list of entries.
use kynovo.Common.{
  ℕ, ◌+◌, ◌-◌, ◌≡◌, ◌∙◌, refl, sym, ap, ap₂, List, [], ◌∷◌, ◌++◌, Bool, true, false, none, some,
  length, length-append, arith, Bool-cases, inl, inr, All-map, keep-All, ◌⊎◌,
}
use kynovo.Common.Memory.{allocate_each}
use kynovo.Treap.Key.{Key}
use kynovo.Treap.Key.Order.{key_cmp_trans}
use kynovo.Treap.Tree.{Tree, split}
use kynovo.Treap.Map.{delete_with, Treap, Code, is_empty, holds, delete_root, delete_needs, delete}
use kynovo.Treap.Entries.{
  Entry, entries, Below, IsSorted, below, above, merge-entries, split-entries,
}
use kynovo.Treap.Refine.{remove, remove_min-entries, above-from}
use kynovo.Treap.Sizes.{split-IsSized, merge-IsSized, remove_min-IsSized}
use kynovo.Treap.Update.{Valid, Unchanged, at_key, holds-at_key, length-above}
use kynovo.Treap.Listing.{All-append, keep-IsSorted, is_less_lem}

remove-IsSorted : (key : Key) (es : List Entry) → IsSorted es → IsSorted (remove key es)
remove-IsSorted key es h =
    join (below key es) (keep-IsSorted _ es h)
      (All-map _ _ _ (λ e p. is_less_lem e.0 key p) (keep-All _ es))
  where
    join : (xs : List Entry) → IsSorted xs → Below key xs → IsSorted (xs ++ above key es)
    join [] s b = keep-IsSorted _ es h
    join (x ∷ xs) (g, s) (b, bs) = (
      All-append _ xs _ g (
          All-map _ _ _ (λ y p. key_cmp_trans x.0 key y.0 b (is_less_lem key y.0 p))
            (keep-All _ es)),
      join xs s bs,
    )

delete_root-entries :
    (key : Key) (t : Tree)
    → IsSorted (entries t)
    → at_key key (entries t) ≡ true
    → entries (delete_root key t) ≡ remove key (entries t)
unfolding delete_root
delete_root-entries key t h here =
    let (b, f) = split-entries key t h in
    merge-entries (split key t).0 _
    ∙ ap₂ (λ x y. x ++ y) b
        (remove_min-entries (split key t).1
          ∙ rw f (sym (above-from key (entries t) h ∙ rw here refl)))

-- What a `treap_delete` leaves: 1 and the map without the key, which was there; 0 and the map as it
-- was, which has no such key; or -1 and the map as it was.
abbrev pub Deleted : Key → Treap → Code × Treap → Type 0
Deleted key t out =
    ((out.0 ≡ some 1)
      × ((at_key key (entries t.root) ≡ true)
          × (Valid out.1 × (entries out.1.root ≡ remove key (entries t.root)))))
    ⊎ (((out.0 ≡ some 0) × ((at_key key (entries t.root) ≡ false) × Unchanged t out.1))
        ⊎ ((out.0 ≡ none) × Unchanged t out.1))

length-remove :
    (key : Key) (es : List Entry) (n : ℕ)
    → IsSorted es
    → n ≡ length es
    → at_key key es ≡ true
    → n - 1 ≡ length (remove key es)
length-remove key es n h e here =
    let total = length-above key es h in
    let count : length (below key es) + length (above key es) + 1 ≡ length es = rw here at total in
    omega (arith, count, length-append (below key es) (above key es))

delete-Valid :
    (key : Key) (memory : List Bool) (t : Treap)
    → Valid t
    → at_key key (entries t.root) ≡ true
    → Valid (record t { memory = memory; root = delete_root key t.root; count = t.count - 1 })
unfolding delete_root
delete-Valid key memory t v here = record {
  sorted =
      rw (delete_root-entries key t.root v.sorted here)
        (remove-IsSorted key (entries t.root) v.sorted);
  sized =
      (let (b, f) = split-IsSized key t.root v.sized in
        merge-IsSized (split key t.root).0 _ b (remove_min-IsSized _ f));
  counted =
      length-remove key (entries t.root) t.count v.sorted v.counted here
      ∙ ap length (sym (delete_root-entries key t.root v.sorted here));
}

delete_with-Deleted :
    (key : Key) (t : Treap) (got : Bool × List Bool)
    → Valid t
    → Deleted key t (delete_with key t got)
unfolding delete_with
delete_with-Deleted key t (false, memory) v = inr (inr (refl, record { root = refl; count = refl }))
delete_with-Deleted key t (true, memory) v = elim (Bool-cases (holds key (split key t.root).1)) [
  | inl here ↦
      let at = sym (holds-at_key key t.root v.sorted) ∙ here in
      rw here (
        inl (
          refl,
          (at, (delete-Valid key memory t v at, delete_root-entries key t.root v.sorted at)),
        ))
  | inr gone ↦ rw gone (
      inr (
        inl (
          refl,
          (sym (holds-at_key key t.root v.sorted) ∙ gone, record { root = refl; count = refl }),
        )))
]

-- Whatever the allocator does, `treap_delete` on a valid map returns 1 only on a key that is there,
-- and leaves a valid map of the other entries; it returns 0 only on a key that is not there; and with
-- 0 or -1 it leaves tree and count as they were.
pub delete-Deleted : (key : Key) (t : Treap) → Valid t → Deleted key t (delete key t)
unfolding delete
delete-Deleted key t v = elim (Bool-cases (is_empty key)) [
  | inl empty ↦ rw empty (inr (inr (refl, record { root = refl; count = refl })))
  | inr some_key ↦
      rw some_key (delete_with-Deleted key t (allocate_each (delete_needs key t.root) t.memory) v)
]
