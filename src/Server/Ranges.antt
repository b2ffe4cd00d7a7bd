-- ===== src/Server/Ranges.antt =====
-- The range deletion of k_server_apply_command of code/kserver.h (K_OP_RDEL). The printing of a number
-- for the client (`sprintf`) is a parameter.
pub mod Clear
use kynovo.Common.{ℕ, Bool, Option, none, some, if◌then◌else◌, ltb}
use kynovo.Common.Memory.{Rc, ok, fail}
use kynovo.Bytes.Word.{Bytes}
use kynovo.Bytes.Reader.{reader, reader_u8, reader_u32, reader_bytes, is_done, bytes_of}
use kynovo.Wire.{key_max}
use kynovo.Treap.Key.{Key}
use kynovo.Treap.Map.{Treap, Code, delete_range}
use kynovo.Server.State.{Server, set_result}

-- The bounds: `none` if a length is refused or the command is not read to its end.
unfoldable pub read_range : Bytes → Option (Key × Key)
read_range command =
    let (op, r0) = reader_u8 (reader command) in
    let (begin_len, r1) = reader_u32 r0 in
    let (begin, r2) = reader_bytes begin_len r1 in
    let (end_len, r3) = reader_u32 r2 in
    let (end, r4) = reader_bytes end_len r3 in
    if ltb key_max begin_len
    then none
    else if ltb key_max end_len
    then none
    else if is_done r4
    then some (bytes_of begin, bytes_of end)
    else none

module _ (decimal : ℕ → Bytes) where
  unfoldable pub range_removed : Server → Code × Treap → Rc × Server
  range_removed s (none, t) = (fail, record s { tree = t })
  range_removed s (some removed, t) = set_result (decimal removed) (record s { tree = t })

  unfoldable pub range_read : Server → Option (Key × Key) → Rc × Server
  range_read s none = (fail, s)
  range_read s (some (begin, end)) = range_removed s (delete_range begin end s.tree)

  unfoldable pub apply_rdel : Bytes → Server → Rc × Server
  apply_rdel command s = range_read s (read_range command)
