-- ===== src/Server/Apply.antt =====
-- k_server_apply_command of code/kserver.h, the branches that write keys: a fork of the map takes all
-- writes of a command with several, and is committed or dropped as a whole. The printing of a number
-- for the client (`sprintf`) is a parameter.
use kynovo.Common.{ℕ, Bool, true, false, Option, none, some, if◌then◌else◌, ltb, ◌==◌, length}
use kynovo.Common.Memory.{Rc, ok, fail}
use kynovo.Bytes.Word.{Bytes}
use kynovo.Bytes.Reader.{Reader, reader, reader_u8, reader_u32, is_done}
use kynovo.Treap.Map.{Treap, Code}
use kynovo.Server.{op_mset}
use kynovo.Server.State.{Server, fork, commit, abort, set_result}
use kynovo.Server.Items.{Item, Ran, read_set, read_del, apply_item, batch, exec_loop}

-- The end of `k_server_apply_exec`.
unfoldable pub end_exec : Server → Ran → Rc × Server
end_exec s (none, copy) = (fail, abort copy s)
end_exec s (some (affected, r), copy) =
    if is_done r then (ok, commit copy s) else (fail, abort copy s)

unfoldable pub on_fork : Server → (Treap → Rc × Server) → Bool × Treap → Rc × Server
on_fork s next (false, copy) = (fail, abort copy s)
on_fork s next (true, copy) = next copy

unfoldable pub apply_exec : Bytes → Server → Rc × Server
apply_exec command s =
    let (op, r) = reader_u8 (reader command) in
    on_fork s (λ copy. end_exec s (exec_loop (length command) 0 r copy)) (fork s)

module _ (decimal : ℕ → Bytes) where
  -- The end of K_OP_MSET and K_OP_MDEL: the client is told how many keys were affected.
  unfoldable pub end_batch : Server → Ran → Rc × Server
  end_batch s (none, copy) = (fail, abort copy s)
  end_batch s (some (affected, r), copy) =
      if is_done r then set_result (decimal affected) (commit copy s) else (fail, abort copy s)

  unfoldable pub apply_batch : Bytes → Server → Rc × Server
  apply_batch command s =
      let (op, r) = reader_u8 (reader command) in
      let (count, r1) = reader_u32 r in
      if ltb count 1
      then (fail, s)
      else on_fork s (λ copy. end_batch s (batch (op == op_mset) count 0 r1 copy)) (fork s)

-- K_OP_SET and K_OP_DEL: one write, on the map itself.
unfoldable pub end_single : Server → Code × Treap → Rc × Server
end_single s (none, t) = (fail, record s { tree = t })
end_single s (some n, t) = (ok, record s { tree = t })

unfoldable pub single : Server → Option (Item × Reader) → Rc × Server
single s none = (fail, s)
single s (some (item, r)) = if is_done r then end_single s (apply_item item s.tree) else (fail, s)

unfoldable pub apply_set : Bytes → Server → Rc × Server
apply_set command s = let (op, r) = reader_u8 (reader command) in single s (read_set r)

unfoldable pub apply_del : Bytes → Server → Rc × Server
apply_del command s = let (op, r) = reader_u8 (reader command) in single s (read_del r)
