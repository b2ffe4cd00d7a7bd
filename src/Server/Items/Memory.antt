-- ===== src/Server/Items/Memory.antt =====
-- The writes of a command of code/kserver.h leave memory where memory was left.
use kynovo.Common.{ℕ, ◌+◌, ◌≡◌, [], Bool, Option, none, some, ◌==◌, inl, inr, Bool-cases, zero, suc}
use kynovo.Bytes.Reader.{Reader}
use kynovo.Treap.Map.{Treap, Code, set}
use kynovo.Treap.Update.{set_memory}
use kynovo.Treap.Memory.{delete_memory}
use kynovo.Server.Items.{
  Item, put_item, del_item, apply_item, affected_by, read_item, with_item, with_code, batch, Ran,
}

affected_by_memory : (out : Code × Treap) → out.1.memory ≡ [] → (affected_by out).1.memory ≡ []
affected_by_memory (none, t) m = m
affected_by_memory (some n, t) m = m

apply_item_memory : (item : Item) (t : Treap) → t.memory ≡ [] → (apply_item item t).1.memory ≡ []
unfolding apply_item
apply_item_memory (put_item none size value) t m = m
apply_item_memory (put_item (some key) size (some value)) t m =
    affected_by_memory (set key value t) (set_memory key value t m)
apply_item_memory (put_item (some key) size none) t m = elim (Bool-cases (size == 0)) [
  | inl empty ↦ rw empty (affected_by_memory (set key [] t) (set_memory key [] t m))
  | inr long ↦ rw long m
]
apply_item_memory (del_item none) t m = m
apply_item_memory (del_item (some key)) t m = delete_memory key t m

with_code_memory :
    (n : ℕ) (r : Reader) (next : ℕ → Reader → Treap → Ran) (out : Code × Treap)
    → ((k : ℕ) (t : Treap) → t.memory ≡ [] → (next k r t).1.memory ≡ [])
    → out.1.memory ≡ []
    → (with_code n r next out).1.memory ≡ []
unfolding with_code
with_code_memory n r next (none, t) h m = m
with_code_memory n r next (some k, t) h m = h (n + k) t m

with_item_memory :
    (n : ℕ) (t : Treap) (next : ℕ → Reader → Treap → Ran) (read : Option (Item × Reader))
    → ((k : ℕ) (r : Reader) (t' : Treap) → t'.memory ≡ [] → (next k r t').1.memory ≡ [])
    → t.memory ≡ []
    → (with_item n t next read).1.memory ≡ []
unfolding with_item
with_item_memory n t next none h m = m
with_item_memory n t next (some (item, r)) h m =
    with_code_memory n r next (apply_item item t) (λ k t' m'. h k r t' m')
      (apply_item_memory item t m)

pub batch_memory :
    (sets : Bool) (count n : ℕ) (r : Reader) (t : Treap)
    → t.memory ≡ []
    → (batch sets count n r t).1.memory ≡ []
unfolding batch
batch_memory sets zero n r t m = m
batch_memory sets (suc count) n r t m =
    with_item_memory n t (batch sets count) (read_item sets r) (batch_memory sets count) m
