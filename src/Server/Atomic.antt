-- ===== src/Server/Atomic.antt =====
-- The commands of code/kserver.h with several writes change the map by all of them or by none.
use kynovo.Common.{
  ℕ, ◌+◌, ◌≡◌, ◌⊎◌, List, [], ◌∷◌, Bool, Option, none, some, if◌then◌else◌, leb, ◌==◌, inl, inr,
  refl, ap, ◌∙◌, sym, Bool-cases, zero, suc, length, arith,
}
use kynovo.Bytes.Reader.{Reader, bytes_of}
use kynovo.Treap.Key.{Key}
use kynovo.Treap.Map.{Treap, Code, set, delete}
use kynovo.Treap.Entries.{Entry, entries}
use kynovo.Treap.Refine.{put, remove}
use kynovo.Treap.Update.{same-Valid, Valid, Unchanged, Updated, set-Updated, at_key}
use kynovo.Treap.Delete.{Deleted, delete-Deleted}
use kynovo.Server.Items.{
  Item, put_item, del_item, apply_item, affected_by, read_item, read_op, with_item, with_code,
  batch, exec_loop, Ran,
}

-- What a write does to the sorted entries.
unfoldable pub run_item : Item → List Entry → List Entry
run_item (put_item key size value) es = put (bytes_of key) (bytes_of value) es
run_item (del_item key) es = if at_key (bytes_of key) es then remove (bytes_of key) es else es

unfoldable pub run : List Item → List Entry → List Entry
unfolding run_item
run [] es = es
run (item ∷ items) es = run items (run_item item es)

-- How many keys the writes affect: a deletion counts where the key is there.
unfoldable pub affected_item : Item → List Entry → ℕ
affected_item (put_item key size value) es = 1
affected_item (del_item key) es = if at_key (bytes_of key) es then 1 else 0

unfoldable pub affected_of : List Item → List Entry → ℕ
unfolding affected_item run_item
affected_of [] es = 0
affected_of (item ∷ items) es = affected_item item es + affected_of items (run_item item es)

-- The writes that a command holds, with what is left to read: `none` if a length or an operation is
-- refused.
abbrev pub Parsed : Type 0
Parsed = Option (List Item × Reader)

unfoldable pub with_head : Item → Parsed → Parsed
with_head item none = none
with_head item (some (items, r)) = some (item ∷ items, r)

unfoldable pub then_items : (Reader → Parsed) → Option (Item × Reader) → Parsed
then_items next none = none
then_items next (some (item, r)) = with_head item (next r)

unfoldable pub batch_items : Bool → ℕ → Reader → Parsed
batch_items sets zero r = some ([], r)
batch_items sets (suc count) r = then_items (batch_items sets count) (read_item sets r)

unfoldable pub exec_items : ℕ → Reader → Parsed
exec_items zero r = some ([], r)
exec_items (suc fuel) r =
    let rest = then_items (exec_items fuel) (read_op r) in
    if leb (length r.rest) 0 then some ([], r) else rest

-- A write that succeeds, or an error that leaves the map.
abbrev pub Done : Item → Treap → Code × Treap → Type 0
Done item t out =
    ((out.0 ≡ some (affected_item item (entries t.root)))
      × Valid out.1
      × (entries out.1.root ≡ run_item item (entries t.root)))
    ⊎ ((out.0 ≡ none) × Unchanged t out.1)

set_item-Done :
    (key value : Key) (t : Treap) (out : Code × Treap) (size : ℕ) (v : Option Key)
    → bytes_of v ≡ value
    → Updated key value t out
    → Done (put_item (some key) size v) t (affected_by out)
unfolding run_item affected_item
set_item-Done key value t (some n, t') size v e (inl (f, (valid, es))) =
    inl (refl, valid, es ∙ ap (λ x. put key x (entries t.root)) (sym e))
set_item-Done key value t (none, t') size v e (inl (f, (valid, es))) = cc f
set_item-Done key value t (some n, t') size v e (inr (f, same)) = cc f
set_item-Done key value t (none, t') size v e (inr (f, same)) = inr (refl, same)

del_item-Done :
    (key : Key) (t : Treap) (out : Code × Treap)
    → Deleted key t out
    → Valid t
    → Done (del_item (some key)) t out
unfolding run_item affected_item
del_item-Done key t out (inl (f, (here, (valid, es)))) v = inl (rw here f, valid, rw here es)
del_item-Done key t out (inr (inl (f, (gone, same)))) v =
    inl (rw gone f, same-Valid t out.1 same v, rw gone (ap entries same.root))
del_item-Done key t out (inr (inr (f, same))) v = inr (f, same)

pub apply_item-Done : (item : Item) (t : Treap) → Valid t → Done item t (apply_item item t)
unfolding apply_item
apply_item-Done (put_item none size value) t v = inr (refl, record { root = refl; count = refl })
apply_item-Done (put_item (some key) size (some value)) t v =
    set_item-Done key value t (set key value t) size (some value) refl (set-Updated key value t v)
apply_item-Done (put_item (some key) size none) t v = elim (Bool-cases (size == 0)) [
  | inl empty ↦
      rw empty (set_item-Done key [] t (set key [] t) size none refl (set-Updated key [] t v))
  | inr long ↦ rw long (inr (refl, record { root = refl; count = refl }))
]
apply_item-Done (del_item none) t v = inr (refl, record { root = refl; count = refl })
apply_item-Done (del_item (some key)) t v =
    del_item-Done key t (delete key t) (delete-Deleted key t v) v

-- A loop over the writes of a command: it fails, or it has made all of them on the fork.
abbrev pub RunOf : Parsed → ℕ → Treap → Ran → Type 0
RunOf parsed start t out =
    ((items : List Item) × (r : Reader) × (n : ℕ) × (parsed ≡ some (items, r))
      × (out.0 ≡ some (n, r))
      × (n ≡ start + affected_of items (entries t.root))
      × Valid out.1
      × (entries out.1.root ≡ run items (entries t.root)))
    ⊎ (out.0 ≡ none)

with_item-RunOf :
    (next : ℕ → Reader → Treap → Ran) (parse : Reader → Parsed)
    → ((n : ℕ) (r : Reader) (t : Treap) → Valid t → RunOf (parse r) n t (next n r t))
    → (n : ℕ) (t : Treap) (read : Option (Item × Reader)) → Valid t
    → RunOf (then_items parse read) n t (with_item n t next read)
unfolding with_item then_items with_head run affected_of with_code
with_item-RunOf next parse h n t none v = inr refl
with_item-RunOf next parse h n t (some (item, r)) v =
    by_code (apply_item item t) (apply_item-Done item t v)
  where
    by_run :
        (k : ℕ) (t' : Treap) (parsed : Parsed) (out : Ran)
        → k ≡ affected_item item (entries t.root)
        → entries t'.root ≡ run_item item (entries t.root)
        → RunOf parsed (n + k) t' out
        → RunOf (with_head item parsed) n t out
    by_run k t' parsed out a e (inr f) = inr f
    by_run k t' parsed out a e (inl (items, r', m, p, o, c, valid, es)) = inl (
      item ∷ items,
      r',
      m,
      ap (with_head item) p,
      o,
      omega (arith, a, c, ap (affected_of items) e),
      valid,
      es ∙ ap (run items) e,
    )

    code_of : Code → ℕ
    code_of none = 0
    code_of (some k) = k

    by_code :
        (out : Code × Treap)
        → Done item t out
        → RunOf (with_head item (parse r)) n t (with_code n r next out)
    by_code (some k, t') (inl (g, valid, es)) =
        by_run k t' (parse r) (next (n + k) r t') (ap code_of g) es (h (n + k) r t' valid)
    by_code (none, t') (inl (g, valid, es)) = inr refl
    by_code (some k, t') (inr (f, same)) = cc f
    by_code (none, t') (inr (f, same)) = inr refl

pub batch-RunOf :
    (sets : Bool) (count n : ℕ) (r : Reader) (t : Treap)
    → Valid t
    → RunOf (batch_items sets count r) n t (batch sets count n r t)
unfolding batch batch_items run affected_of
batch-RunOf sets zero n r t v = inl ([], r, n, refl, refl, omega arith, v, refl)
batch-RunOf sets (suc count) n r t v =
    with_item-RunOf (batch sets count) (batch_items sets count) (batch-RunOf sets count) n t
      (read_item sets r) v

pub exec_loop-RunOf :
    (fuel n : ℕ) (r : Reader) (t : Treap)
    → Valid t
    → RunOf (exec_items fuel r) n t (exec_loop fuel n r t)
unfolding exec_loop exec_items run affected_of
exec_loop-RunOf zero n r t v = inl ([], r, n, refl, refl, omega arith, v, refl)
exec_loop-RunOf (suc fuel) n r t v = elim (Bool-cases (leb (length r.rest) 0)) [
  | inl over ↦ rw over (inl ([], r, n, refl, refl, omega arith, v, refl))
  | inr more ↦
      rw more (
        with_item-RunOf (exec_loop fuel) (exec_items fuel) (exec_loop-RunOf fuel) n t (read_op r) v)
]
