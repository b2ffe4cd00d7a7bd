-- ===== src/Treap/Range.antt =====
-- treap_delete_range of code/treap.h on a sorted list of entries.
use kynovo.Common.{
  ℕ, ◌+◌, ◌-◌, ◌≡◌, ◌∙◌, refl, sym, ap, ap₂, List, [], ◌∷◌, ◌++◌, Bool, true, false, none, some,
  not, ◌&&◌, ◌||◌, Bool-cases, All, inl, inr, ◌⊎◌, keep, keep-none, keep_whole, All-map, length,
  length-append, length-keep, arith,
}
use kynovo.Common.Memory.{allocate_each}
use kynovo.Treap.Key.{less, Key, key_cmp, is_less}
use kynovo.Treap.Key.Order.{key_cmp_trans}
use kynovo.Treap.Tree.{Tree, leaf, node, merge}
use kynovo.Treap.Map.{
  Treap, Code, is_empty, nodes, from_bound, to_bound, range_needs, delete_range, delete_range_with,
}
use kynovo.Treap.Entries.{Entry, entries, IsSized, IsSorted, merge-entries, split-entries}
use kynovo.Treap.Sizes.{split-IsSized, merge-IsSized}
use kynovo.Treap.Listing.{keep-IsSorted, is_less_lem}
use kynovo.Treap.Update.{Valid, Unchanged}

-- Before a lower bound, and not before an upper one; an empty bound is none.
abbrev pub is_before : Key → Entry → Bool
is_before begin e = not (is_empty begin) && is_less (key_cmp e.0 begin)

abbrev pub is_after : Key → Entry → Bool
is_after end e = not (is_empty end) && not (is_less (key_cmp e.0 end))

abbrev pub is_outside : Key → Key → Entry → Bool
is_outside begin end e = is_before begin e || is_after end e

pub keep-ext :
    (f g : Entry → Bool) (es : List Entry) → All (λ e. f e ≡ g e) es → keep f es ≡ keep g es
keep-ext f g [] h = refl
keep-ext f g (e ∷ es) h = elim (Bool-cases (g e)) [
  | inl kept ↦ rw (h.0, kept) (ap (λ l. e ∷ l) (keep-ext f g es h.1))
  | inr dropped ↦ rw (h.0, dropped) (keep-ext f g es h.1)
]

pub All-any : (P : Entry → Type 0) (es : List Entry) → ((e : Entry) → P e) → All P es
All-any P [] h = tt
All-any P (e ∷ es) h = (h e, All-any P es h)

pub not-not : (b : Bool) → not (not b) ≡ b
not-not true = refl
not-not false = refl

-- In ascending order, nothing after an entry that is not before the bound is before it.
not_before :
    (begin a b : Key)
    → is_less (key_cmp a begin) ≡ false
    → key_cmp a b ≡ less
    → is_less (key_cmp b begin) ≡ false
not_before begin a b h l = elim (Bool-cases (is_less (key_cmp b begin))) [
  | inr no_less ↦ no_less
  | inl is ↦ absurd (cc (sym (ap is_less (key_cmp_trans a b begin l (is_less_lem b begin is))) ∙ h))
]

keep_around :
    (begin : Key) (f : Entry → Bool) (es : List Entry)
    → IsSorted es
    → keep (is_before begin) es ++ keep f (keep (λ e. not (is_before begin e)) es)
      ≡ keep (λ e. is_before begin e || f e) es
keep_around begin f [] h = refl
keep_around begin f (e ∷ es) (a, h) = elim (Bool-cases (is_before begin e)) [
  | inl before ↦ rw before (ap (λ l. e ∷ l) (keep_around begin f es h))
  | inr later ↦
      let rest : All (λ x. is_before begin x ≡ false) es = all_later later in
      let same : keep f es ≡ keep (λ x. is_before begin x || f x) es =
        keep-ext f _ es (All-map _ _ es (λ x p. rw p refl) rest) in
      rw
        (
          later,
          keep-none (is_before begin) es rest,
          keep_whole (λ x. not (is_before begin x)) es (All-map _ _ es (λ x p. ap not p) rest),
        )
        (elim (Bool-cases (f e)) [
          | inl kept ↦ rw kept (ap (λ l. e ∷ l) same)
          | inr dropped ↦ rw dropped same
        ])
]
  where
    all_later : is_before begin e ≡ false → All (λ x. is_before begin x ≡ false) es
    all_later later = elim (Bool-cases (is_empty begin)) [
      | inl empty ↦ All-any _ es (λ x. rw empty refl)
      | inr bound ↦
          All-map _ _ es (λ x p. rw bound (not_before begin e.0 x.0 (rw bound at later) p)) a
    ]

from_bound-entries :
    (begin : Key) (t : Tree)
    → IsSorted (entries t)
    → (entries (from_bound begin t).0 ≡ keep (is_before begin) (entries t))
      × (entries (from_bound begin t).1 ≡ keep (λ e. not (is_before begin e)) (entries t))
unfolding from_bound entries
from_bound-entries begin t h = elim (Bool-cases (is_empty begin)) [
  | inl empty ↦
      let none_before : All (λ e. is_before begin e ≡ false) (entries t) =
        All-any _ (entries t) (λ e. rw empty refl) in
      rw empty (
        sym (keep-none (is_before begin) (entries t) none_before),
        sym (keep_whole _ (entries t) (All-any _ (entries t) (λ e. refl))),
      )
  | inr bound ↦
      let (b, f) = split-entries begin t h in
      rw bound (
        b ∙ keep-ext _ (is_before begin) (entries t) (All-any _ (entries t) (λ e. rw bound refl)),
        f,
      )
]

to_bound-entries :
    (end : Key) (t : Tree)
    → IsSorted (entries t)
    → (entries (to_bound end t).0 ≡ keep (λ e. not (is_after end e)) (entries t))
      × (entries (to_bound end t).1 ≡ keep (is_after end) (entries t))
unfolding to_bound entries
to_bound-entries end t h = elim (Bool-cases (is_empty end)) [
  | inl empty ↦
      let none_after : All (λ e. is_after end e ≡ false) (entries t) =
        All-any _ (entries t) (λ e. rw empty refl) in
      rw empty (
        sym (keep_whole _ (entries t) (All-any _ (entries t) (λ e. refl))),
        sym (keep-none (is_after end) (entries t) none_after),
      )
  | inr bound ↦
      let (b, f) = split-entries end t h in
      rw bound (
        b ∙ keep-ext _ _ (entries t) (All-any _ (entries t) (λ e. sym (not-not _))),
        f ∙ keep-ext _ (is_after end) (entries t) (All-any _ (entries t) (λ e. rw bound refl)),
      )
]

nodes-entries : (t : Tree) → nodes t ≡ length (entries t)
unfolding nodes entries
nodes-entries leaf = refl
nodes-entries (node p s k v l r) =
    omega (arith, length-append (entries l) ((k, v) ∷ entries r), nodes-entries l, nodes-entries r)

bounds-IsSized :
    (begin end : Key) (t : Tree)
    → IsSized t
    → (IsSized (from_bound begin t).0 × IsSized (from_bound begin t).1)
      × (IsSized (to_bound end t).0 × IsSized (to_bound end t).1)
unfolding from_bound to_bound
bounds-IsSized begin end t h = (low, high)
  where
    low : IsSized (from_bound begin t).0 × IsSized (from_bound begin t).1
    low = elim (Bool-cases (is_empty begin)) [
      | inl empty ↦ rw empty (tt, h)
      | inr bound ↦ rw bound (split-IsSized begin t h)
    ]

    high : IsSized (to_bound end t).0 × IsSized (to_bound end t).1
    high = elim (Bool-cases (is_empty end)) [
      | inl empty ↦ rw empty (h, tt)
      | inr bound ↦ rw bound (split-IsSized end t h)
    ]

-- What a `treap_delete_range` leaves: the number of the entries that it removed, and the map without
-- those in the range; or -1 and the map as it was.
abbrev pub Cleared : Key → Key → Treap → Code × Treap → Type 0
Cleared begin end t out =
    ((n : ℕ) × (out.0 ≡ some n)
      × Valid out.1
      × (entries out.1.root ≡ keep (is_outside begin end) (entries t.root))
      × (n + length (entries out.1.root) ≡ length (entries t.root)))
    ⊎ ((out.0 ≡ none) × Unchanged t out.1)

module _ (begin end : Key) (t : Treap) (v : Valid t) where
  mid-IsSorted : IsSorted (entries (from_bound begin t.root).1)
  mid-IsSorted =
      rw ((from_bound-entries begin t.root v.sorted).1) (keep-IsSorted _ (entries t.root) v.sorted)

  left-entries :
      entries (merge (from_bound begin t.root).0 (to_bound end (from_bound begin t.root).1).1)
      ≡ keep (is_outside begin end) (entries t.root)
  left-entries =
      let (b, m) = from_bound-entries begin t.root v.sorted in
      merge-entries (from_bound begin t.root).0 _
      ∙ ap₂ (λ x y. x ++ y) b
          ((to_bound-entries end (from_bound begin t.root).1 mid-IsSorted).1
            ∙ ap (keep (is_after end)) m)
      ∙ keep_around begin (is_after end) (entries t.root) v.sorted

  removed_lem :
      nodes (to_bound end (from_bound begin t.root).1).0
        + length (
            entries
              (merge (from_bound begin t.root).0 (to_bound end (from_bound begin t.root).1).1))
      ≡ length (entries t.root)
  removed_lem =
      let (b, m) = from_bound-entries begin t.root v.sorted in
      let mid = (from_bound begin t.root).1 in
      let (i, a) = to_bound-entries end mid mid-IsSorted in
      omega (
        arith,
        nodes-entries (to_bound end mid).0,
        ap length i,
        ap length a,
        ap length b,
        ap length m,
        ap length (merge-entries (from_bound begin t.root).0 (to_bound end mid).1),
        length-append (entries (from_bound begin t.root).0) (entries (to_bound end mid).1),
        length-keep (is_after end) (entries mid),
        length-keep (is_before begin) (entries t.root),
      )

  cleared-Valid :
      (memory : List Bool)
      → Valid (record t {
        memory = memory;
        root = merge (from_bound begin t.root).0 (to_bound end (from_bound begin t.root).1).1;
        count = t.count - nodes (to_bound end (from_bound begin t.root).1).0;
      })
  cleared-Valid memory = record {
    sorted = rw left-entries (keep-IsSorted _ (entries t.root) v.sorted);
    sized =
        (let (low, mid) = (bounds-IsSized begin end t.root v.sized).0 in
          merge-IsSized (from_bound begin t.root).0 _ low
            (bounds-IsSized begin end (from_bound begin t.root).1 mid).1.1);
    counted = omega (arith, removed_lem, v.counted);
  }

-- Whatever the allocator does, `treap_delete_range` on a valid map either removes exactly the entries
-- that are neither before the lower bound nor from the upper one on, an empty bound being none,
-- returns their number and leaves a valid map; or returns -1 and leaves tree and count as they were.
pub delete_range-Cleared :
    (begin end : Key) (t : Treap) → Valid t → Cleared begin end t (delete_range begin end t)
unfolding delete_range delete_range_with
delete_range-Cleared begin end t v =
    by_memory (allocate_each (range_needs begin end t.root) t.memory)
  where
    by_memory : (got : Bool × List Bool) → Cleared begin end t (delete_range_with begin end t got)
    by_memory (false, memory) = inr (refl, record { root = refl; count = refl })
    by_memory (true, memory) = inl (
      nodes (to_bound end (from_bound begin t.root).1).0,
      refl,
      cleared-Valid begin end t v memory,
      left-entries begin end t v,
      removed_lem begin end t v,
    )
