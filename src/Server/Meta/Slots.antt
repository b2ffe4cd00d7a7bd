-- ===== src/Server/Meta/Slots.antt =====
-- The two slots of the meta file in code/kserver.h: what is encoded is decoded, and a write of one slot,
-- however it ends, leaves the state before it or the one that was written.
use kynovo.Common.{
  ◌⊎◌, ℕ, ◌^◌, ◌<◌, ◌≤◌, ◌≡◌, [], ◌++◌, true, false, Option, none, some, if◌then◌else◌, ltb, ◌==◌,
  take, drop, arith, refl, ap, ◌∙◌, Bool-cases, inl, inr,
}
use kynovo.Common.Memory.{Rc, ok, fail}
use kynovo.Bytes.Word.{
  Bytes, write_u32, write_u64, read_u32, read_u64, read-write_u32, read-write_u64,
}
use kynovo.Bytes.Crc.{crc32, crc32_word}
use kynovo.Server.Meta.{
  MetaState, meta_fields, meta_magic, meta_version, slot_encode, slot_decode, is_possible, state_in,
  zeros, choose, is_newer, meta_load, MetaFile, Worker, Written, stored, torn, slot_written,
  meta_store,
}

-- The fields fit their types, and the state is one that the log can be in.
pub record IsState (state : MetaState) : Type 0 where
  pub generation : state.generation < 2 ^ 64
  pub place_segment : state.place.segment < 2 ^ 64
  pub place_offset : state.place.offset < 2 ^ 64
  pub size : state.record_size < 2 ^ 64
  pub next_segment : state.next.segment < 2 ^ 64
  pub next_offset : state.next.offset < 2 ^ 64
  pub possible : is_possible state ≡ true

read_head : (state : MetaState) (t : Bytes) → read_u32 (meta_fields state t) ≡ meta_magic
unfolding write_u32 read_u32
read_head state t = refl

read_version :
    (state : MetaState) (t : Bytes) → read_u32 (drop 4 (meta_fields state t)) ≡ meta_version
unfolding write_u32 read_u32
read_version state t = refl

take_fields : (state : MetaState) (t : Bytes) → take 56 (meta_fields state t) ≡ meta_fields state []
unfolding write_u32 write_u64
take_fields state t = refl

drop_fields : (state : MetaState) (t : Bytes) → drop 56 (meta_fields state t) ≡ t
unfolding write_u32 write_u64
drop_fields state t = refl

state_in-fields :
    (state : MetaState) (t : Bytes) → IsState state → state_in (meta_fields state t) ≡ state
unfolding write_u32 write_u64 read_u64
state_in-fields state t h =
    rw
      (
        read-write_u64 state.generation [] h.generation,
        read-write_u64 state.place.segment [] h.place_segment,
        read-write_u64 state.place.offset [] h.place_offset,
        read-write_u64 state.record_size [] h.size,
        read-write_u64 state.next.segment [] h.next_segment,
        read-write_u64 state.next.offset [] h.next_offset,
      )
      refl

if_possible : MetaState → Option MetaState
if_possible state = if is_possible state then some state else none

slot_decode_lem :
    (x : Bytes) (sum : ℕ)
    → read_u32 x ≡ meta_magic
    → read_u32 (drop 4 x) ≡ meta_version
    → crc32 (take 56 x) ≡ sum
    → read_u32 (drop 56 x) ≡ sum
    → slot_decode x ≡ if_possible (state_in x)
unfolding slot_decode if_possible
slot_decode_lem x sum m v c r =
    let same : (sum == sum) ≡ true = ground arith in rw (m, v, c, r, same) refl

-- A slot that was encoded is decoded to the state it holds.
pub slot_decode-encode :
    (state : MetaState) → IsState state → slot_decode (slot_encode state) ≡ some state
unfolding slot_encode if_possible
slot_decode-encode state h =
    let sum = crc32 (meta_fields state []) in
    let t = write_u32 sum ++ zeros 68 in
    slot_decode_lem (slot_encode state) sum (read_head state t) (read_version state t)
      (ap crc32 (take_fields state t))
      (ap read_u32 (drop_fields state t)
        ∙ read-write_u32 sum (zeros 68) (crc32_word (meta_fields state [])))
    ∙ ap if_possible (state_in-fields state t h)
    ∙ rw h.possible refl

-- Whatever a slot decodes to is older.
abbrev pub IsOlder : Option MetaState → MetaState → Type 0
IsOlder other state = (c : MetaState) → other ≡ some c → c.generation < state.generation

choose_first :
    (a : MetaState) (other : Option MetaState)
    → IsOlder other a
    → choose (some a) other ≡ some (a, 0)
unfolding choose
choose_first a none h = refl
choose_first a (some b) h =
    let newer : ltb b.generation a.generation ≡ true = ground (arith, h b refl) in rw newer refl

choose_second :
    (b : MetaState) (other : Option MetaState)
    → IsOlder other b
    → choose other (some b) ≡ some (b, 1)
unfolding choose
choose_second b none h = refl
choose_second b (some a) h =
    let older : is_newer a b ≡ false = ground (arith, h a refl) in rw older refl

older : (old state : MetaState) → old.generation < state.generation → IsOlder (some old) state
older old state h c e = omega (arith, h, ap generation_of e)
  where
    generation_of : Option MetaState → ℕ
    generation_of none = 0
    generation_of (some x) = x.generation

-- The slot that the worker wrote last.
abbrev pub current_slot : Worker → MetaFile → Bytes
current_slot w file = if w.meta_slot == 0 then file.first else file.second

-- What a write that fails leaves in its slot: bytes that the checksum refuses, a slot older than the
-- one that is held, or the whole new slot, as when the write was done and the sync failed.
abbrev pub LeavesEither : MetaState → MetaState → Written → Type 0
LeavesEither old state stored = Unit
LeavesEither old state (torn bytes) =
    IsOlder (slot_decode bytes) old ⊎ (slot_decode bytes ≡ some state)

-- The slot that the worker did not write last.
abbrev pub other_slot : Worker → ℕ
other_slot w = if w.meta_slot == 0 then 1 else 0

-- What a restart finds: the new state if the write ended well, and the old state or the new one, each
-- in its slot, if it failed.
abbrev pub Restarts : MetaState → MetaState → Worker → Written → Rc × Worker × MetaFile → Type 0
Restarts old state w stored (rc, w', file) =
    (rc ≡ ok) × (w'.meta_slot ≡ other_slot w) × (meta_load file ≡ some (state, other_slot w))
Restarts old state w (torn bytes) (rc, w', file) =
    (rc ≡ fail)
    × (w'.meta_slot ≡ w.meta_slot)
    × ((IsOlder (slot_decode bytes) old × (meta_load file ≡ some (old, w.meta_slot)))
        ⊎ ((slot_decode bytes ≡ some state) × (meta_load file ≡ some (state, other_slot w))))

-- A durable checkpoint of a newer state, while the slot that was written last holds an older one and a
-- write that fails leaves bytes that the checksum refuses, an older slot, or the whole new one. If the
-- write of the other slot and its sync end well, 0 is returned, the worker's slot is the other one,
-- and a restart finds the new state there. If they fail, -1 is returned, the worker's slot stays, and
-- a restart finds the new state where the whole new slot was left, and the old state otherwise.
pub meta_load-store :
    (old state : MetaState) (w : Worker) (file : MetaFile) (how : Written)
    → IsState state
    → w.meta_slot ≤ 1
    → slot_decode (current_slot w file) ≡ some old
    → old.generation < state.generation
    → LeavesEither old state how
    → Restarts old state w how (meta_store state true how w file)
unfolding meta_store slot_written meta_load
meta_load-store old state w file stored h slot held newer leaves =
    elim (Bool-cases (w.meta_slot == 0)) [
      | inl first ↦
          rw (first, slot_decode-encode state h, rw first at held)
            (refl, refl, choose_second state (some old) (older old state newer))
      | inr second ↦
          rw (second, slot_decode-encode state h, rw second at held)
            (refl, refl, choose_first state (some old) (older old state newer))
    ]
meta_load-store old state w file (torn bytes) h slot held newer (inl leaves) =
    elim (Bool-cases (w.meta_slot == 0)) [
      | inl first ↦
          let z : 0 ≡ w.meta_slot = ground arith in
          rw (first, rw first at held)
            (
              refl,
              refl,
              inl (
                leaves,
                choose_first old (slot_decode bytes) leaves ∙ ap (λ (k : ℕ). some (old, k)) z,
              ),
            )
      | inr second ↦
          let z : 1 ≡ w.meta_slot = ground arith in
          rw (second, rw second at held)
            (
              refl,
              refl,
              inl (
                leaves,
                choose_second old (slot_decode bytes) leaves ∙ ap (λ (k : ℕ). some (old, k)) z,
              ),
            )
    ]
meta_load-store old state w file (torn bytes) h slot held newer (inr whole) =
    elim (Bool-cases (w.meta_slot == 0)) [
      | inl first ↦
          rw (first, rw first at held)
            (
              refl,
              refl,
              inr (
                whole,
                ap (choose (some old)) whole
                    ∙ choose_second state (some old) (older old state newer),
              ),
            )
      | inr second ↦
          rw (second, rw second at held)
            (
              refl,
              refl,
              inr (
                whole,
                ap (λ x. choose x (some old)) whole
                    ∙ choose_first state (some old) (older old state newer),
              ),
            )
    ]
