-- ===== src/Server/Items.antt =====
-- The writes within a command of code/kserver.h: one key, and its value in a set.
pub mod Ends
pub mod Memory
use kynovo.Common.{
  ℕ, ◌+◌, [], Bool, Option, none, some, if◌then◌else◌, ltb, leb, ◌==◌, ◌||◌, length, zero, suc,
}
use kynovo.Bytes.Reader.{Reader, reader_u8, reader_u32, reader_bytes}
use kynovo.Wire.{key_max, value_max}
use kynovo.Server.{op_set, op_del}
use kynovo.Treap.Key.{Key}
use kynovo.Treap.Map.{Treap, Code, set, delete}

-- What was read: a pointer is `none` if it is null, and a value has its length beside it.
pub data Item : Type 0 where
  put_item : (key : Option Key) (size : ℕ) (value : Option Key) → Item
  del_item : (key : Option Key) → Item

-- K_OP_SET's item: `none` if a length is refused.
unfoldable pub read_set : Reader → Option (Item × Reader)
read_set r =
    let (key_len, r1) = reader_u32 r in
    let (key, r2) = reader_bytes key_len r1 in
    let (value_len, r3) = reader_u32 r2 in
    let (value, r4) = reader_bytes value_len r3 in
    if key_len == 0 || ltb key_max key_len
    then none
    else if ltb value_max value_len
    then none
    else some (put_item key value_len value, r4)

unfoldable pub read_del : Reader → Option (Item × Reader)
read_del r =
    let (key_len, r1) = reader_u32 r in
    let (key, r2) = reader_bytes key_len r1 in
    if key_len == 0 || ltb key_max key_len then none else some (del_item key, r2)

abbrev pub read_item : Bool → Reader → Option (Item × Reader)
read_item sets r = if sets then read_set r else read_del r

-- How many keys a write affects: `none` is an error, and a set that succeeds affects one.
abbrev pub affected_by : Code × Treap → Code × Treap
affected_by (none, t) = (none, t)
affected_by (some n, t) = (some 1, t)

-- The map's operations, with their tests of the pointers.
unfoldable pub apply_item : Item → Treap → Code × Treap
apply_item (put_item none size value) t = (none, t)
apply_item (put_item (some key) size (some value)) t = affected_by (set key value t)
apply_item (put_item (some key) size none) t =
    if size == 0 then affected_by (set key [] t) else (none, t)
apply_item (del_item none) t = (none, t)
apply_item (del_item (some key)) t = delete key t

-- How the loop over the items ends: the keys affected and the reader, or an error; and the fork.
abbrev pub Ran : Type 0
Ran = Option (ℕ × Reader) × Treap

unfoldable pub with_code : ℕ → Reader → (ℕ → Reader → Treap → Ran) → Code × Treap → Ran
with_code affected r next (none, t) = (none, t)
with_code affected r next (some n, t) = next (affected + n) r t

unfoldable pub with_item : ℕ → Treap → (ℕ → Reader → Treap → Ran) → Option (Item × Reader) → Ran
unfolding apply_item with_code
with_item affected t next none = (none, t)
with_item affected t next (some (item, r)) = with_code affected r next (apply_item item t)

-- The loop of K_OP_MSET and K_OP_MDEL, over the count in the command.
unfoldable pub batch : Bool → ℕ → ℕ → Reader → Treap → Ran
batch sets zero affected r t = (some (affected, r), t)
batch sets (suc count) affected r t = with_item affected t (batch sets count) (read_item sets r)

-- K_OP_FCALL's items say what they are.
unfoldable pub read_op : Reader → Option (Item × Reader)
read_op r =
    let (op, r1) = reader_u8 r in
    if op == op_set then read_set r1 else if op == op_del then read_del r1 else none

-- The loop of `k_server_apply_exec`, up to the end of the command. An item takes a byte at least.
unfoldable pub exec_loop : ℕ → ℕ → Reader → Treap → Ran
exec_loop zero affected r t = (some (affected, r), t)
exec_loop (suc fuel) affected r t =
    if leb (length r.rest) 0
    then (some (affected, r), t)
    else with_item affected t (exec_loop fuel) (read_op r)
