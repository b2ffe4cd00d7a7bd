-- ===== src/Server/Meta.antt =====
-- The meta file of the write-ahead log in code/kserver.h: two slots, each with a checksum, that are
-- written in turn (k_wal_meta_slot_encode, k_wal_meta_slot_decode, k_wal_meta_store, k_wal_meta_load).
pub mod Slots
mod Tests
use kynovo.Common.{
  ℕ, ◌+◌, ◌^◌, ◌<◌, ◌≤◌, List, [], ◌∷◌, ◌++◌, Bool, true, false, Option, none, some, if◌then◌else◌,
  ltb, ◌==◌, ◌||◌, ◌&&◌, not, take, drop, zero, suc,
}
use kynovo.Common.Memory.{Rc, ok, fail}
use kynovo.Bytes.Word.{Bytes, write_u32, write_u64, read_u32, read_u64}
use kynovo.Bytes.Crc.{crc32}
use kynovo.Treap.Key.{Sign, less, equal, greater, is_greater}

-- K_WAL_META_MAGIC, K_WAL_META_VERSION, K_WAL_HEADER_SIZE, K_STATE_MAX
abbrev pub meta_magic : ℕ
meta_magic = 0x314d574b

abbrev pub meta_version : ℕ
meta_version = 2

abbrev pub wal_header_size : ℕ
wal_header_size = 24

abbrev pub state_max : ℕ
state_max = 268435456

pub record Position : Type 0 where
  pub segment : ℕ
  pub offset : ℕ

-- What a slot says of the log.
pub record MetaState : Type 0 where
  pub generation : ℕ
  pub place : Position
  pub record_size : ℕ
  pub next : Position

unfoldable pub pos_cmp : Position → Position → Sign
pos_cmp a b =
    if ltb a.segment b.segment
    then less
    else if ltb b.segment a.segment
    then greater
    else if ltb a.offset b.offset
    then less
    else if ltb b.offset a.offset
    then greater
    else equal

-- The first 56 bytes of a slot, and what follows them.
abbrev pub meta_fields : MetaState → Bytes → Bytes
meta_fields state rest =
    write_u32 meta_magic
    ++ (write_u32 meta_version
        ++ (write_u64 state.generation
            ++ (write_u64 state.place.segment
                ++ (write_u64 state.place.offset
                    ++ (write_u64 state.record_size
                        ++ (write_u64 state.next.segment
                            ++ (write_u64 state.next.offset ++ rest)))))))

abbrev zeros : ℕ → Bytes
zeros zero = []
zeros (suc n) = 0 ∷ zeros n

unfoldable pub slot_encode : MetaState → Bytes
slot_encode state = meta_fields state (write_u32 (crc32 (meta_fields state [])) ++ zeros 68)

-- A slot that was never used holds no position; another one a record of a possible size.
abbrev pub is_possible : MetaState → Bool
is_possible state =
    if state.generation == 0
    then (state.place.segment == 0
        && state.place.offset == 0
        && state.record_size == 0
        && state.next.segment == 0
        && state.next.offset == 0)
    else not (
        ltb state.record_size wal_header_size
        || ltb (state_max + wal_header_size) state.record_size)

abbrev pub state_in : Bytes → MetaState
state_in slot = record {
  generation = read_u64 (drop 8 slot);
  place = record { segment = read_u64 (drop 16 slot); offset = read_u64 (drop 24 slot) };
  record_size = read_u64 (drop 32 slot);
  next = record { segment = read_u64 (drop 40 slot); offset = read_u64 (drop 48 slot) };
}

unfoldable pub slot_decode : Bytes → Option MetaState
slot_decode slot =
    if not (read_u32 slot == meta_magic && read_u32 (drop 4 slot) == meta_version)
    then none
    else if not (crc32 (take 56 slot) == read_u32 (drop 56 slot))
    then none
    else if is_possible (state_in slot)
    then some (state_in slot)
    else none

-- The file, as its two slots.
pub record MetaFile : Type 0 where
  pub first : Bytes
  pub second : Bytes

abbrev pub is_newer : MetaState → MetaState → Bool
is_newer a b =
    ltb b.generation a.generation
    || (a.generation == b.generation && is_greater (pos_cmp a.next b.next))

-- The state, and the slot that it came from.
unfoldable pub choose : Option MetaState → Option MetaState → Option (MetaState × ℕ)
choose none none = none
choose (some a) none = some (a, 0)
choose none (some b) = some (b, 1)
choose (some a) (some b) = if is_newer a b then some (a, 0) else some (b, 1)

-- `k_wal_meta_load` of a file that could be read whole.
unfoldable pub meta_load : MetaFile → Option (MetaState × ℕ)
meta_load file = choose (slot_decode file.first) (slot_decode file.second)

-- The worker's view of the log's end, and the slot that it wrote last.
pub record Worker : Type 0 where
  pub generation : ℕ
  pub next : Position
  pub meta_slot : ℕ

abbrev pub put_slot : ℕ → Bytes → MetaFile → MetaFile
put_slot slot bytes file =
    if slot == 0 then record file { first = bytes } else record file { second = bytes }

-- How the write and the sync of a slot end: done, or with an error and whatever bytes in the slot.
pub data Written : Type 0 where
  stored : Written
  torn : (bytes : Bytes) → Written

unfoldable pub slot_written : ℕ → Bytes → Worker → MetaFile → Written → Rc × Worker × MetaFile
slot_written slot bytes w file stored =
    (ok, record w { meta_slot = slot }, put_slot slot bytes file)
slot_written slot bytes w file (torn left) = (fail, w, put_slot slot left file)

unfoldable pub meta_store : MetaState → Bool → Written → Worker → MetaFile → Rc × Worker × MetaFile
meta_store state durable how w file =
    let w' = record w { generation = state.generation; next = state.next } in
    let next_slot = if w.meta_slot == 0 then 1 else 0 in
    if durable then slot_written next_slot (slot_encode state) w' file how else (ok, w', file)
