-- ===== src/Treap/Count.antt =====
-- treap_count_range of code/treap.h counts the entries in a range.
use kynovo.Common.{
  ◌+◌, ◌-◌, ◌≤◌, ◌≡◌, ◌∙◌, refl, sym, ap, List, [], ◌∷◌, Bool, true, false, if◌then◌else◌, not,
  ◌&&◌, leb, Bool-cases, inl, inr, ◌⊎◌, keep, keep-none, keep_whole, length, arith,
}
use kynovo.Treap.Key.{Sign, less, equal, greater, Key, key_cmp}
use kynovo.Treap.Key.Order.{key_cmp-flip, key_cmp_trans, key_cmp-equal, flip}
use kynovo.Treap.Map.{Treap, is_empty, rank, count_range}
use kynovo.Treap.Entries.{Entry, entries}
use kynovo.Treap.Queries.{rank-below}
use kynovo.Treap.Listing.{is_less_lem}
use kynovo.Treap.Update.{Valid}
use kynovo.Treap.Range.{is_before, is_after, keep-ext, All-any, not-not}

-- With every `f` a `g`: as many `f` and as many others of the `g` as there are `g`.
count_within :
    (f g : Entry → Bool) (es : List Entry)
    → ((e : Entry) → f e ≡ true → g e ≡ true)
    → length (keep f es) + length (keep (λ e. not (f e) && g e) es) ≡ length (keep g es)
count_within f g [] h = omega arith
count_within f g (e ∷ es) h = elim (Bool-cases (f e)) [
  | inl kept ↦ rw (kept, h e kept) (omega (arith, count_within f g es h))
  | inr dropped ↦ elim (Bool-cases (g e)) [
    | inl held ↦ rw (dropped, held) (omega (arith, count_within f g es h))
    | inr gone ↦ rw (dropped, gone) (omega (arith, count_within f g es h))
  ]
]

-- With every `g` an `f`, there is none of the `g` that is no `f`.
count_none :
    (f g : Entry → Bool) (es : List Entry)
    → ((e : Entry) → g e ≡ true → f e ≡ true)
    → (length (keep (λ e. not (f e) && g e) es) ≡ 0) × (length (keep g es) ≤ length (keep f es))
count_none f g [] h = omega arith
count_none f g (e ∷ es) h = elim (Bool-cases (g e)) [
  | inl held ↦ rw (held, h e held) (omega (arith, count_none f g es h))
  | inr gone ↦ elim (Bool-cases (f e)) [
    | inl kept ↦ rw (gone, kept) (omega (arith, count_none f g es h))
    | inr dropped ↦ rw (gone, dropped) (omega (arith, count_none f g es h))
  ]
]

-- Either all before the lower bound is below the upper one, or the other way round.
abbrev Nested : Key → Key → Type 0
Nested begin end =
    ((e : Entry) → is_before begin e ≡ true → not (is_after end e) ≡ true)
    ⊎ ((e : Entry) → not (is_after end e) ≡ true → is_before begin e ≡ true)

Nested-all : (begin end : Key) → Nested begin end
Nested-all begin end = elim (Bool-cases (is_empty begin)) [
  | inl empty ↦ inl (λ e h. cc (rw empty at h))
  | inr low ↦ elim (Bool-cases (is_empty end)) [
    | inl empty ↦ inl (λ e h. rw empty refl)
    | inr high ↦ by_sign low high (key_cmp begin end) refl
  ]
]
  where
    by_sign :
        is_empty begin ≡ false
        → is_empty end ≡ false
        → (s : Sign) → key_cmp begin end ≡ s
        → Nested begin end
    by_sign low high less c =
        inl (λ e h.
          rw (high, key_cmp_trans e.0 begin end (is_less_lem e.0 begin (rw low at h)) c) refl)
    by_sign low high equal c =
        inl
          (λ e h. rw (high, ← key_cmp-equal begin end c, is_less_lem e.0 begin (rw low at h)) refl)
    by_sign low high greater c = inr (λ e h.
        rw
          (
            low,
            key_cmp_trans e.0 end begin (is_less_lem e.0 end (sym (not-not _) ∙ (rw high at h)))
                (key_cmp-flip begin end ∙ ap flip c),
          )
          refl)

rank_bound :
    (begin : Key) (t : Treap)
    → Valid t
    → (if is_empty begin then 0 else rank begin t)
      ≡ length (keep (is_before begin) (entries t.root))
unfolding rank
rank_bound begin t v = elim (Bool-cases (is_empty begin)) [
  | inl empty ↦ rw empty (
      sym (
        ap length
          (keep-none (is_before begin) _ (All-any _ (entries t.root) (λ e. rw empty refl)))))
  | inr bound ↦ rw bound (
      rank-below begin t.root v.sorted v.sized
      ∙ ap length (
          keep-ext _ (is_before begin) (entries t.root)
            (All-any _ (entries t.root) (λ e. rw bound refl))))
]

rank_end :
    (end : Key) (t : Treap)
    → Valid t
    → (if is_empty end then t.count else rank end t)
      ≡ length (keep (λ e. not (is_after end e)) (entries t.root))
unfolding rank
rank_end end t v = elim (Bool-cases (is_empty end)) [
  | inl empty ↦ rw empty (
      v.counted
      ∙ sym (ap length (keep_whole _ (entries t.root) (All-any _ (entries t.root) (λ e. refl)))))
  | inr bound ↦ rw bound (
      rank-below end t.root v.sorted v.sized
      ∙ ap length
          (keep-ext _ _ (entries t.root) (All-any _ (entries t.root) (λ e. sym (not-not _)))))
]

-- On a valid map `treap_count_range` is the number of the entries that are neither before the lower
-- bound nor from the upper one on, an empty bound being none; it is 0 if the bounds are crossed.
pub count_range-keep :
    (begin end : Key) (t : Treap)
    → Valid t
    → count_range begin end t
      ≡ length (keep (λ e. not (is_before begin e) && not (is_after end e)) (entries t.root))
unfolding count_range
count_range-keep begin end t v =
    rw (rank_bound begin t v, rank_end end t v) (by_nesting (Nested-all begin end))
  where
    by_nesting :
        Nested begin end
        → (let rb = length (keep (is_before begin) (entries t.root)) in
            let re = length (keep (λ e. not (is_after end e)) (entries t.root)) in
            if leb rb re then re - rb else 0)
          ≡ length (keep (λ e. not (is_before begin e) && not (is_after end e)) (entries t.root))
    by_nesting (inl within) =
        let total =
          count_within (is_before begin) (λ e. not (is_after end e)) (entries t.root) within in
        ground (arith, total)
    by_nesting (inr crossed) =
        let (none_left, less_of) =
          count_none (is_before begin) (λ e. not (is_after end e)) (entries t.root) crossed in
        ground (arith, none_left, less_of)
