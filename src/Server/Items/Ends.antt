-- ===== src/Server/Items/Ends.antt =====
-- The loop of k_server_apply_exec of code/kserver.h ends: every round reads on.
use mathlib.Core.Path.{subst}
use kynovo.Common.{
  ℕ, zero, suc, ◌+◌, ◌-◌, ◌≤◌, ◌≡◌, true, false, Option, none, some, if◌then◌else◌, ltb, leb, ◌==◌,
  ◌||◌, arith, length, length-drop, refl, Bool-cases, inl, inr, drop,
}
use kynovo.Bytes.Word.{Bytes, read_u8}
use kynovo.Bytes.Reader.{Reader, reader_word, reader_bytes, reader_u32, has_room}
use kynovo.Wire.{key_max, value_max}
use kynovo.Treap.Map.{Treap, Code}
use kynovo.Server.{op_set, op_del}
use kynovo.Server.Items.{
  Item, Ran, read_set, read_del, read_op, apply_item, with_item, with_code, exec_loop,
}

reader_word_le :
    (size : ℕ) (read : Bytes → ℕ) (r : Reader)
    → length (reader_word size read r).1.rest ≤ length r.rest
unfolding reader_word
reader_word_le size read r = elim (Bool-cases (has_room size r)) [
  | inl room ↦ rw room (omega (arith, length-drop size r.rest))
  | inr short ↦ rw short (omega arith)
]

reader_bytes_le : (size : ℕ) (r : Reader) → length (reader_bytes size r).1.rest ≤ length r.rest
unfolding reader_bytes
reader_bytes_le size r = elim (Bool-cases (has_room size r)) [
  | inl room ↦ rw room (omega (arith, length-drop size r.rest))
  | inr short ↦ rw short (omega arith)
]

-- What is left to read after a write was read.
abbrev LeftAtMost : ℕ → Option (Item × Reader) → Type 0
LeftAtMost n none = Unit
LeftAtMost n (some (item, r)) = length r.rest ≤ n

read_set-LeftAtMost : (r : Reader) → LeftAtMost (length r.rest) (read_set r)
unfolding read_set
read_set-LeftAtMost r =
    let (key_len, r1) = reader_u32 r in
    let (key, r2) = reader_bytes key_len r1 in
    let (value_len, r3) = reader_u32 r2 in
    let r4 = (reader_bytes value_len r3).1 in
    elim (Bool-cases (key_len == 0 || ltb key_max key_len)) [
      | inl off ↦ rw off tt
      | inr key_ok ↦ elim (Bool-cases (ltb value_max value_len)) [
        | inl off ↦ rw (key_ok, off) tt
        | inr value_ok ↦
            rw (key_ok, value_ok)
              (omega (
                arith,
                reader_word_le 4 _ r,
                reader_bytes_le key_len r1,
                reader_word_le 4 _ r2,
                reader_bytes_le value_len r3,
              ))
      ]
    ]

read_del-LeftAtMost : (r : Reader) → LeftAtMost (length r.rest) (read_del r)
unfolding read_del
read_del-LeftAtMost r =
    let (key_len, r1) = reader_u32 r in
    elim (Bool-cases (key_len == 0 || ltb key_max key_len)) [
      | inl off ↦ rw off tt
      | inr key_ok ↦ rw key_ok (omega (arith, reader_word_le 4 _ r, reader_bytes_le key_len r1))
    ]

-- A command that is not read to its end loses a byte at least with every write that is read.
read_op-LeftAtMost :
    (r : Reader) → leb (length r.rest) 0 ≡ false → LeftAtMost (length r.rest - 1) (read_op r)
unfolding read_op reader_word
read_op-LeftAtMost r more = elim (Bool-cases (has_room 1 r)) [
  | inr short ↦ rw short tt
  | inl room ↦ rw room (by_op (read_u8 r.rest))
]
  where
    r' : Reader
    r' = record r { rest = drop 1 r.rest }

    shorter : length r'.rest ≡ length r.rest - 1
    shorter = length-drop 1 r.rest

    by_op :
        (op : ℕ)
        → LeftAtMost
            (length r.rest - 1)
            (if op == op_set then read_set r' else if op == op_del then read_del r' else none)
    by_op op = elim (Bool-cases (op == op_set)) [
      | inl set ↦ rw set (subst (λ k. LeftAtMost k (read_set r')) shorter (read_set-LeftAtMost r'))
      | inr other ↦ elim (Bool-cases (op == op_del)) [
        | inl del ↦
            rw (other, del)
              (subst (λ k. LeftAtMost k (read_del r')) shorter (read_del-LeftAtMost r'))
        | inr bad ↦ rw (other, bad) tt
      ]
    ]

-- One round does not tell apart two loops that agree on what is left after it.
with_item_ext :
    (limit n : ℕ) (t : Treap) (next next' : ℕ → Reader → Treap → Ran)
    (read : Option (Item × Reader))
    → LeftAtMost limit read
    → ((k : ℕ) (r : Reader) (u : Treap) → length r.rest ≤ limit → next k r u ≡ next' k r u)
    → with_item n t next read ≡ with_item n t next' read
unfolding with_item with_code
with_item_ext limit n t next next' none h same = refl
with_item_ext limit n t next next' (some (item, r)) h same = by_code (apply_item item t)
  where
    by_code : (out : Code × Treap) → with_code n r next out ≡ with_code n r next' out
    by_code (none, u) = refl
    by_code (some k, u) = same (n + k) r u h

-- The loop of `k_server_apply_exec` ends on every input: with as many rounds as there are bytes left
-- to read, or any number more, it does the same.
pub exec_loop_ends :
    (fuel fuel' n : ℕ) (r : Reader) (t : Treap)
    → length r.rest ≤ fuel
    → length r.rest ≤ fuel'
    → exec_loop fuel n r t ≡ exec_loop fuel' n r t
unfolding exec_loop
exec_loop_ends zero zero n r t h h' = refl
exec_loop_ends zero (suc fuel') n r t h h' =
    let over : leb (length r.rest) 0 ≡ true = ground arith in rw over refl
exec_loop_ends (suc fuel) zero n r t h h' =
    let over : leb (length r.rest) 0 ≡ true = ground arith in rw over refl
exec_loop_ends (suc fuel) (suc fuel') n r t h h' = elim (Bool-cases (leb (length r.rest) 0)) [
  | inl over ↦ rw over refl
  | inr more ↦ rw more (
      with_item_ext (length r.rest - 1) n t (exec_loop fuel) (exec_loop fuel') (read_op r)
        (read_op-LeftAtMost r more)
        (λ k q u left.
          exec_loop_ends fuel fuel' k q u (ground (arith, left, more, h))
            (ground (arith, left, more, h'))))
]
