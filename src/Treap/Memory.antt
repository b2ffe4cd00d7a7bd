-- ===== src/Treap/Memory.antt =====
-- The allocator of code/treap.h under treap_delete and treap_delete_range: with memory left, memory is
-- left.
use kynovo.Common.{ℕ, ◌≡◌, [], List, Bool, true, false, some, inl, inr, refl, Bool-cases}
use kynovo.Treap.Key.{Key}
use kynovo.Treap.Tree.{split}
use kynovo.Treap.Map.{
  Treap, is_empty, holds, delete, delete_with, delete_needs, delete_range, delete_range_with,
  range_needs,
}
use kynovo.Treap.Update.{all_granted}

delete_with_memory :
    (key : Key) (t : Treap) (got : Bool × List Bool)
    → got.1 ≡ []
    → (delete_with key t got).1.memory ≡ []
unfolding delete_with
delete_with_memory key t (false, memory) m = m
delete_with_memory key t (true, memory) m = elim (Bool-cases (holds key (split key t.root).1)) [
  | inl here ↦ rw here m
  | inr gone ↦ rw gone m
]

pub delete_memory : (key : Key) (t : Treap) → t.memory ≡ [] → (delete key t).1.memory ≡ []
unfolding delete delete_with
delete_memory key t m = elim (Bool-cases (is_empty key)) [
  | inl empty ↦ rw empty m
  | inr some_key ↦
      rw (some_key, m, all_granted (delete_needs key t.root))
        (delete_with_memory key t (true, []) refl)
]

pub delete_range_memory :
    (begin end : Key) (t : Treap) → t.memory ≡ [] → (delete_range begin end t).1.memory ≡ []
unfolding delete_range delete_range_with
delete_range_memory begin end t m = rw (m, all_granted (range_needs begin end t.root)) refl

pub delete_range_succeeds :
    (begin end : Key) (t : Treap)
    → t.memory ≡ []
    → (n : ℕ) × ((delete_range begin end t).0 ≡ some n)
unfolding delete_range delete_range_with
delete_range_succeeds begin end t m = rw (m, all_granted (range_needs begin end t.root)) (_, refl)
