-- ===== src/Treap/Laws.antt =====
-- Lookups in code/treap.h after an update.
use kynovo.Common.{
  ℕ, ◌≡◌, ◌∙◌, refl, sym, ap, List, [], ◌∷◌, Bool, true, false, none, some, if◌then◌else◌,
  Bool-cases, All, inl, inr, keep,
}
use kynovo.Treap.Key.{Sign, less, equal, greater, Key, key_cmp, is_equal}
use kynovo.Treap.Key.Order.{key_cmp-flip, key_cmp-equal}
use kynovo.Treap.Tree.{find}
use kynovo.Treap.Map.{Treap, is_empty, set, delete, get}
use kynovo.Treap.Entries.{Entry, entries, below, above}
use kynovo.Treap.Queries.{lookup, lookup-none, lookup-right, lookup-left, find-eq-lookup}
use kynovo.Treap.Refine.{put, remove}
use kynovo.Treap.Delete.{Deleted, delete-Deleted}
use kynovo.Treap.Update.{Valid, Updated, set-Updated}

-- A filter that keeps every entry of the key does not change its lookup.
lookup-keep :
    (key : Key) (f : Entry → Bool) (es : List Entry)
    → ((e : Entry) → is_equal (key_cmp key e.0) ≡ true → f e ≡ true)
    → lookup key (keep f es) ≡ lookup key es
unfolding lookup
lookup-keep key f [] h = refl
lookup-keep key f (e ∷ es) h = elim (Bool-cases (is_equal (key_cmp key e.0))) [
  | inl same ↦ rw (h e same, same) refl
  | inr differs ↦ elim (Bool-cases (f e)) [
    | inl kept ↦ rw (kept, differs) (lookup-keep key f es h)
    | inr dropped ↦ rw (dropped, differs) (lookup-keep key f es h)
  ]
]

-- A filter that keeps no entry of the key leaves nothing to find.
keep-differs :
    (key : Key) (f : Entry → Bool) (es : List Entry)
    → ((e : Entry) → is_equal (key_cmp key e.0) ≡ true → f e ≡ false)
    → All (λ e. is_equal (key_cmp key e.0) ≡ false) (keep f es)
keep-differs key f [] h = tt
keep-differs key f (e ∷ es) h = elim (Bool-cases (f e)) [
  | inr dropped ↦ rw dropped (keep-differs key f es h)
  | inl kept ↦ elim (Bool-cases (is_equal (key_cmp key e.0))) [
    | inl same ↦ absurd (cc (sym kept ∙ h e same))
    | inr differs ↦ rw kept (differs, keep-differs key f es h)
  ]
]

is_equal_lem : (a b : Key) → is_equal (key_cmp a b) ≡ true → a ≡ b
is_equal_lem a b h = key_cmp-equal a b (by_sign (key_cmp a b) h)
  where
    by_sign : (s : Sign) → is_equal s ≡ true → s ≡ equal
    by_sign less n = cc n
    by_sign equal n = refl
    by_sign greater n = cc n

lookup-put :
    (other key value : Key) (es : List Entry)
    → lookup other (put key value es)
      ≡ (if is_equal (key_cmp other key) then some value else lookup other es)
unfolding lookup
lookup-put other key value es = by_sign (key_cmp other key) refl
  where
    at : (e : Entry) → is_equal (key_cmp other e.0) ≡ true → other ≡ e.0
    at e h = is_equal_lem other e.0 h

    skip :
        key_cmp other key ≡ greater
        → lookup other ((key, value) ∷ above key es) ≡ lookup other (above key es)
    skip c = rw c refl

    by_sign :
        (s : Sign)
        → key_cmp other key ≡ s
        → lookup other (put key value es)
          ≡ (if is_equal (key_cmp other key) then some value else lookup other es)
    by_sign equal c =
        let same = key_cmp-equal other key c in
        lookup-right other (below key es) _ (keep-differs other _ es (λ e h. rw (← at e h, c) refl))
        ∙ rw c refl
    by_sign less c =
        lookup-left other (below key es) _ (
          ap is_equal c,
          keep-differs other _ es (λ e h. rw (← at e h, key_cmp-flip other key, c) refl),
        )
        ∙ lookup-keep other _ es (λ e h. rw (← at e h, c) refl)
        ∙ sym (rw c refl)
    by_sign greater c =
        lookup-right other (below key es) _ (keep-differs other _ es (λ e h. rw (← at e h, c) refl))
        ∙ skip c
        ∙ lookup-keep other _ es (λ e h. rw (← at e h, key_cmp-flip other key, c) refl)
        ∙ sym (rw c refl)

lookup-remove :
    (other key : Key) (es : List Entry)
    → lookup other (remove key es)
      ≡ (if is_equal (key_cmp other key) then none else lookup other es)
unfolding lookup
lookup-remove other key es = by_sign (key_cmp other key) refl
  where
    at : (e : Entry) → is_equal (key_cmp other e.0) ≡ true → other ≡ e.0
    at e h = is_equal_lem other e.0 h

    by_sign :
        (s : Sign)
        → key_cmp other key ≡ s
        → lookup other (remove key es)
          ≡ (if is_equal (key_cmp other key) then none else lookup other es)
    by_sign equal c =
        lookup-right other (below key es) _ (keep-differs other _ es (λ e h. rw (← at e h, c) refl))
        ∙ lookup-none other _
            (keep-differs other _ es (λ e h. rw (← at e h, key_cmp-flip other key, c) refl))
        ∙ sym (rw c refl)
    by_sign less c =
        lookup-left other (below key es) _
          (keep-differs other _ es (λ e h. rw (← at e h, key_cmp-flip other key, c) refl))
        ∙ lookup-keep other _ es (λ e h. rw (← at e h, c) refl)
        ∙ sym (rw c refl)
    by_sign greater c =
        lookup-right other (below key es) _ (keep-differs other _ es (λ e h. rw (← at e h, c) refl))
        ∙ lookup-keep other _ es (λ e h. rw (← at e h, key_cmp-flip other key, c) refl)
        ∙ sym (rw c refl)

set_key : (key value : Key) (t : Treap) → (set key value t).0 ≡ some 0 → is_empty key ≡ false
unfolding set
set_key [] value t h = cc h
set_key (b ∷ key) value t h = refl

delete_key : (key : Key) (t : Treap) (n : ℕ) → (delete key t).0 ≡ some n → is_empty key ≡ false
unfolding delete
delete_key [] t n h = cc h
delete_key (b ∷ key) t n h = refl

-- After a `treap_set` that succeeds on a valid map, `treap_get` finds the new value under the key, and
-- under every other key what it found before.
pub get-set :
    (other key value : Key) (t : Treap)
    → Valid t
    → (set key value t).0 ≡ some 0
    → get other (set key value t).1
      ≡ (if is_equal (key_cmp other key) then some (some value) else get other t)
unfolding get
get-set other key value t v h = by_result (set-Updated key value t v)
  where
    found :
        (out : Treap)
        → Valid out
        → entries out.root ≡ put key value (entries t.root)
        → find other out.root
          ≡ (if is_equal (key_cmp other key) then some value else find other t.root)
    found out valid e =
        find-eq-lookup other out.root valid.sorted
        ∙ ap (lookup other) e
        ∙ lookup-put other key value (entries t.root)
        ∙ rw (find-eq-lookup other t.root v.sorted) refl

    by_result :
        Updated key value t (set key value t)
        → get other (set key value t).1
          ≡ (if is_equal (key_cmp other key) then some (some value) else get other t)
    by_result (inr (none_is, same)) = absurd (cc (sym none_is ∙ h))
    by_result (inl (done, (valid, e))) =
        let f = found (set key value t).1 valid e in
        elim (Bool-cases (is_equal (key_cmp other key))) [
          | inl same ↦
              let nonempty = ap is_empty (is_equal_lem other key same) ∙ set_key key value t h in
              rw (nonempty, same) (ap some (f ∙ rw same refl))
          | inr differs ↦ elim (Bool-cases (is_empty other)) [
            | inl empty ↦ rw (empty, differs) refl
            | inr nonempty ↦ rw (nonempty, differs) (ap some (f ∙ rw differs refl))
          ]
        ]

-- After a `treap_delete` that returns 1 on a valid map, `treap_get` finds nothing under the key, and
-- under every other key what it found before.
pub get-delete :
    (other key : Key) (t : Treap)
    → Valid t
    → (delete key t).0 ≡ some 1
    → get other (delete key t).1 ≡ (if is_equal (key_cmp other key) then some none else get other t)
unfolding get
get-delete other key t v h = by_result (delete-Deleted key t v)
  where
    found :
        (out : Treap)
        → Valid out
        → entries out.root ≡ remove key (entries t.root)
        → find other out.root ≡ (if is_equal (key_cmp other key) then none else find other t.root)
    found out valid e =
        find-eq-lookup other out.root valid.sorted
        ∙ ap (lookup other) e
        ∙ lookup-remove other key (entries t.root)
        ∙ rw (find-eq-lookup other t.root v.sorted) refl

    by_result :
        Deleted key t (delete key t)
        → get other (delete key t).1
          ≡ (if is_equal (key_cmp other key) then some none else get other t)
    by_result (inr (inl (zero_is, same))) = absurd (cc (sym zero_is ∙ h))
    by_result (inr (inr (none_is, same))) = absurd (cc (sym none_is ∙ h))
    by_result (inl (done, (here, (valid, e)))) =
        let f = found (delete key t).1 valid e in
        elim (Bool-cases (is_equal (key_cmp other key))) [
          | inl same ↦
              let nonempty = ap is_empty (is_equal_lem other key same) ∙ delete_key key t 1 h in
              rw (nonempty, same) (ap some (f ∙ rw same refl))
          | inr differs ↦ elim (Bool-cases (is_empty other)) [
            | inl empty ↦ rw (empty, differs) refl
            | inr nonempty ↦ rw (nonempty, differs) (ap some (f ∙ rw differs refl))
          ]
        ]
