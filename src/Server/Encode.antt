-- ===== src/Server/Encode.antt =====
-- The commands that code/kserver.h builds: k_server_build_write_command, and the write set of a custom
-- command (k_cmd_put).
pub mod Replay
pub mod WriteSet
pub mod Fcall
use kynovo.Common.{
  ℕ, ◌+◌, List, [], ◌∷◌, ◌++◌, Bool, true, false, none, some, if◌then◌else◌, ltb, ◌==◌, ◌||◌,
  length,
}
use kynovo.Common.Memory.{Rc, ok, fail}
use kynovo.Bytes.Word.{Bytes, write_u8, write_u32}
use kynovo.Bytes.Buf.{Buf, len, empty_buf}
use kynovo.Bytes.Fields.{puts, sized}
use kynovo.Wire.{
  key_max, value_max, command_max, req_set, req_mset, req_rset, req_mdel, req_rdel, req_cas,
}
use kynovo.Treap.Key.{Key}
use kynovo.Treap.Map.{Treap, Code, set}
use kynovo.Server.{op_set, op_mset, op_rset, op_del, op_mdel, op_rdel, op_cas, op_fcall}

unfoldable pub command_fields : ℕ → Bytes → Bytes → List Bytes
command_fields type key value =
    if type == req_mset || type == req_mdel
    then write_u8 (if type == req_mset then op_mset else op_mdel) ∷ key ∷ []
    else if type == req_rset
    then write_u8 op_rset ∷ key ∷ sized value []
    else if type == req_rdel
    then write_u8 op_rdel ∷ sized key (sized value [])
    else if type == req_cas
    then write_u8 op_cas ∷ sized key (sized value [])
    else if type == req_set
    then write_u8 op_set ∷ sized key (sized value [])
    else write_u8 op_del ∷ sized key []

unfoldable pub build_write_command : ℕ → Bytes → Bytes → Buf → Rc × Buf
build_write_command type key value cmd =
    let cmd' = puts (command_fields type key value) cmd in
    (if cmd'.err || ltb command_max (len cmd') then fail else ok, cmd')

-- The working tree of a custom command, the records of its writes and their number.
pub record Context : Type 0 where
  pub txn : Treap
  pub writes : Buf
  pub write_count : ℕ

unfoldable pub recorded : Key → Key → Context → Code × Treap → Code × Context
recorded key value ctx (none, t) = (none, record ctx { txn = t })
recorded key value ctx (some n, t) = (
  some 0,
  record {
    txn = t;
    writes = puts (write_u8 op_set ∷ sized key (sized value [])) ctx.writes;
    write_count = ctx.write_count + 1;
  },
)

-- `k_cmd_put`, of pointers that are not null.
unfoldable pub cmd_put : Key → Key → Context → Code × Context
cmd_put key value ctx =
    if length key == 0 || ltb key_max (length key) || ltb value_max (length value)
    then (none, ctx)
    else recorded key value ctx (set key value ctx.txn)

-- The entry of the log that carries a custom command's writes, as `k_server_exec_cmd` builds it.
unfoldable pub fcall_entry : Bytes → List Bool → Buf
fcall_entry writes memory = puts (write_u8 op_fcall ∷ writes ∷ []) (empty_buf memory)
