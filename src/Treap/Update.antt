-- ===== src/Treap/Update.antt =====
-- treap_set of code/treap.h as an update of a sorted list of entries.
use kynovo.Common.{
  sym, ℕ, ◌+◌, ◌<◌, ◌≡◌, ◌∙◌, refl, ap, List, [], ◌∷◌, Bool, true, false, none, some, if◌then◌else◌,
  ◌&&◌, not, length, length-append, arith, Bool-cases, inl, inr, length-keep, length-drop, of_bool,
  ◌⊎◌,
}
use kynovo.Common.Memory.{allocate, allocate_each}
use kynovo.Treap.Key.{Key, key_cmp, is_less}
use kynovo.Treap.Tree.{Tree, split}
use kynovo.Treap.Map.{
  Treap, Code, is_empty, is_at, holds, fresh, rest_of, too_long, set_root, set_needs, set,
}
use kynovo.Treap.Entries.{Entry, entries, IsSized, IsSorted, below, above, from, split-entries}
use kynovo.Treap.Refine.{first, put, set_root-entries, leftmost-entries, above-from}
use kynovo.Treap.Sizes.{split-IsSized, merge-IsSized, remove_min-IsSized}
use kynovo.Treap.Listing.{put-IsSorted}

-- Ascending keys, right sizes, and the count of the keys.
pub record Valid (t : Treap) : Type 0 where
  pub sorted : IsSorted (entries t.root)
  pub sized : IsSized t.root
  pub counted : t.count ≡ length (entries t.root)

-- The map as it was, but for the allocator.
pub record Unchanged (t out : Treap) : Type 0 where
  pub root : out.root ≡ t.root
  pub count : out.count ≡ t.count

pub same-Valid : (t out : Treap) → Unchanged t out → Valid t → Valid out
same-Valid t out same v = record {
  sorted = simp same.root v.sorted;
  sized = simp same.root v.sized;
  counted = same.count ∙ v.counted ∙ ap (λ x. length (entries x)) (sym same.root);
}

set_root-IsSized :
    (seed : ℕ) (key value : Key) (t : Tree) → IsSized t → IsSized (set_root seed key value t)
unfolding set_root entries
set_root-IsSized seed key value t h =
    let (b, f) = split-IsSized key t h in
    merge-IsSized (split key t).0 _ b
      (merge-IsSized (fresh seed key value) _ (refl, (tt, tt)) (rest f))
  where
    rest : IsSized (split key t).1 → IsSized (rest_of key (split key t).1)
    rest f = elim (Bool-cases (holds key (split key t).1)) [
      | inl here ↦ rw here (remove_min-IsSized (split key t).1 f)
      | inr gone ↦ rw gone f
    ]

-- Whether the key is there, as the list of the entries says it.
abbrev pub at_key : Key → List Entry → Bool
at_key key es = is_at key (first (from key es))

pub holds-at_key :
    (key : Key) (t : Tree)
    → IsSorted (entries t)
    → holds key (split key t).1 ≡ at_key key (entries t)
holds-at_key key t h =
    ap (is_at key) (leftmost-entries (split key t).1 ∙ ap first (split-entries key t h).1)

nonempty : (key : Key) (es : List Entry) → is_at key (first es) ≡ true → 0 < length es
nonempty key [] h = cc h
nonempty key (e ∷ es) h = omega arith

pub length-above :
    (key : Key) (es : List Entry)
    → IsSorted es
    → length (below key es) + length (above key es) + of_bool (at_key key es) ≡ length es
length-above key es h = elim (Bool-cases (at_key key es)) [
  | inl here ↦
      rw (here, above-from key es h, here)
        (omega (
          arith,
          length-keep (λ e. is_less (key_cmp e.0 key)) es,
          nonempty key (from key es) here,
          length-drop 1 (from key es),
        ))
  | inr gone ↦
      rw (gone, above-from key es h, gone)
        (omega (arith, length-keep (λ e. is_less (key_cmp e.0 key)) es))
]

length-put :
    (key value : Key) (es : List Entry) (n : ℕ)
    → IsSorted es
    → n ≡ length es
    → (if at_key key es then n else n + 1) ≡ length (put key value es)
length-put key value es n h e = elim (Bool-cases (at_key key es)) [
  | inl here ↦
      let total = length-above key es h in
      let count : length (below key es) + length (above key es) + 1 ≡ length es =
        rw here at total in
      rw here (omega (arith, count, length-append (below key es) ((key, value) ∷ above key es)))
  | inr gone ↦
      let total = length-above key es h in
      let count : length (below key es) + length (above key es) + 0 ≡ length es =
        rw gone at total in
      rw gone (omega (arith, count, length-append (below key es) ((key, value) ∷ above key es)))
]

-- What a `treap_set` leaves: the updated map, or -1 and the map as it was.
abbrev pub Updated : Key → Key → Treap → Code × Treap → Type 0
Updated key value t out =
    ((out.0 ≡ some 0) × (Valid out.1 × (entries out.1.root ≡ put key value (entries t.root))))
    ⊎ ((out.0 ≡ none) × Unchanged t out.1)

set-Valid :
    (key value : Key) (memory : List Bool) (t : Treap)
    → Valid t
    → Valid (record t {
      memory = memory;
      root = set_root t.seed key value t.root;
      count = if holds key (split key t.root).1 then t.count else t.count + 1;
    })
set-Valid key value memory t v = record {
  sorted =
      rw (set_root-entries t.seed key value t.root v.sorted)
        (put-IsSorted key value (entries t.root) v.sorted);
  sized = set_root-IsSized t.seed key value t.root v.sized;
  counted =
      rw (set_root-entries t.seed key value t.root v.sorted, holds-at_key key t.root v.sorted)
        (length-put key value (entries t.root) t.count v.sorted v.counted);
}

-- Whatever the allocator does, `treap_set` on a valid map either succeeds, and the map is valid and
-- its entries are the old ones with the key's replaced or put in its place; or it returns -1 and
-- leaves tree and count as they were.
pub set-Updated : (key value : Key) (t : Treap) → Valid t → Updated key value t (set key value t)
unfolding set
set-Updated key value t v = elim (Bool-cases (is_empty key)) [
  | inl empty ↦ rw empty (inr (refl, record { root = refl; count = refl }))
  | inr some_key ↦
      let (got, memory) = allocate_each (set_needs key value t.root) t.memory in
      elim (Bool-cases (got && not (too_long key))) [
        | inl works ↦
            rw (some_key, works)
              (inl (
                refl,
                (set-Valid key value memory t v, set_root-entries t.seed key value t.root v.sorted),
              ))
        | inr fails ↦ rw (some_key, fails) (inr (refl, record { root = refl; count = refl }))
      ]
]

pub all_granted : (ns : List Bool) → allocate_each ns [] ≡ (true, [])
unfolding allocate_each allocate
all_granted [] = refl
all_granted (true ∷ ns) = all_granted ns
all_granted (false ∷ ns) = all_granted ns

-- With memory left, memory is left.
pub set_memory : (key value : Key) (t : Treap) → t.memory ≡ [] → (set key value t).1.memory ≡ []
unfolding set
set_memory key value t m = elim (Bool-cases (is_empty key)) [
  | inl empty ↦ rw empty m
  | inr some_key ↦ elim (Bool-cases (too_long key)) [
    | inl long ↦ rw (some_key, m, all_granted (set_needs key value t.root), long) refl
    | inr short ↦ rw (some_key, m, all_granted (set_needs key value t.root), short) refl
  ]
]

-- With memory left, a key that is not empty and fits a node is set.
pub set_succeeds :
    (key value : Key) (t : Treap)
    → is_empty key ≡ false
    → too_long key ≡ false
    → t.memory ≡ []
    → (set key value t).0 ≡ some 0
unfolding set
set_succeeds key value t some_key fits m =
    rw (some_key, m, all_granted (set_needs key value t.root), fits) refl
