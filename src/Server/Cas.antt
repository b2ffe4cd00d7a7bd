-- ===== src/Server/Cas.antt =====
-- The conditional write of k_server_apply_command of code/kserver.h (K_OP_CAS).
pub mod Keyed
pub mod Swap
use kynovo.Common.{
  ℕ, List, [], ◌∷◌, Bool, true, false, Option, none, some, if◌then◌else◌, ltb, ◌==◌, ◌||◌, ◌&&◌,
  not, length,
}
use kynovo.Common.Memory.{Rc, ok, fail}
use kynovo.Bytes.Word.{Bytes}
use kynovo.Bytes.Buf.{Buf, empty_buf, put}
use kynovo.Bytes.Reader.{Reader, reader, reader_u8, reader_u32, reader_bytes, is_done, bytes_of}
use kynovo.Wire.{key_max, value_max, cas_packed_max, cas_setnx, cas_cmp}
use kynovo.Treap.Key.{Key, memcmp, is_equal}
use kynovo.Treap.Map.{Treap, Code, set, get}
use kynovo.Server.State.{Request, Server, with_result}

-- What the write expects under the key: nothing (K_CAS_SETNX), or a value (K_CAS_CMP).
pub data Expected : Type 0 where
  absent : Expected
  equals : (old : Key) → Expected

pub record Cas : Type 0 where
  pub key : Key
  pub new : Key
  pub expected : Expected

-- The packed value: the mode, the new value and the old one.
unfoldable pub read_packed : Key → Bytes → Option Cas
read_packed key packed =
    let (mode, r1) = reader_u8 (reader packed) in
    let (new_len, r2) = reader_u32 r1 in
    let (new, r3) = reader_bytes new_len r2 in
    let (old_len, r4) = reader_u32 r3 in
    let (old, r5) = reader_bytes old_len r4 in
    if ltb value_max new_len
    then none
    else if mode == cas_cmp
    then (if ltb value_max old_len
        then none
        else if is_done r5
        then some record { key = key; new = bytes_of new; expected = equals (bytes_of old) }
        else none)
    else if mode == cas_setnx
    then (if is_done r3
        then some record { key = key; new = bytes_of new; expected = absent }
        else none)
    else none

unfoldable pub read_cas : Bytes → Option Cas
read_cas command =
    let (op, r0) = reader_u8 (reader command) in
    let (key_len, r1) = reader_u32 r0 in
    let (key, r2) = reader_bytes key_len r1 in
    let (value_len, r3) = reader_u32 r2 in
    let (value, r4) = reader_bytes value_len r3 in
    if key_len == 0 || ltb key_max key_len
    then none
    else if ltb cas_packed_max value_len
    then none
    else if is_done r4
    then read_packed (bytes_of key) (bytes_of value)
    else none

-- Whether what is under the key is not what was expected.
unfoldable pub conflict_with : Expected → Option Key → Bool
conflict_with absent none = false
conflict_with absent (some current) = true
conflict_with (equals old) none = true
conflict_with (equals old) (some current) =
    not (length current == length old && is_equal (memcmp (length old) current old))

abbrev current_buf : Option Key → List Bool → Buf
current_buf none memory = empty_buf memory
current_buf (some current) memory = put current (empty_buf memory)

-- The client learns of a conflict, and the value that was there.
unfoldable pub tell : Bool → Option Key → Server → Option Request → Rc × Server
tell conflict current s none = (ok, s)
tell conflict current s (some q) = with_result conflict (current_buf current s.tree.memory) s

unfoldable pub after_write : Option Key → Server → Code × Treap → Rc × Server
after_write current s (none, t) = (fail, record s { tree = t })
after_write current s (some n, t) = tell false current (record s { tree = t }) s.waiting

unfoldable pub cas_found : Cas → Server → Option (Option Key) → Rc × Server
cas_found cas s none = (fail, s)
cas_found cas s (some current) =
    if conflict_with cas.expected current
    then tell true current s s.waiting
    else after_write current s (set cas.key cas.new s.tree)

unfoldable pub cas_read : Server → Option Cas → Rc × Server
cas_read s none = (fail, s)
cas_read s (some cas) = cas_found cas s (get cas.key s.tree)

unfoldable pub apply_cas : Bytes → Server → Rc × Server
apply_cas command s = cas_read s (read_cas command)
