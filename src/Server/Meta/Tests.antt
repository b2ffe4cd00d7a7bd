-- ===== src/Server/Meta/Tests.antt =====
-- The meta file at concrete inputs.
use kynovo.Common.{ℕ, inl, [], ◌∷◌, true, refl, arith}
use kynovo.Bytes.Word.{Bytes, read_u32}
use kynovo.Server.Meta.{MetaState, MetaFile, Worker, torn, slot_encode, slot_decode, meta_store}
use kynovo.Server.Meta.Slots.{IsState, IsOlder, Restarts, slot_decode-encode, meta_load-store}

abbrev state : ℕ → MetaState
state generation = record {
  generation = generation;
  place = record { segment = 3; offset = 40 };
  record_size = 100;
  next = record { segment = 3; offset = 140 };
}

state_7-IsState : IsState (state 7)
state_7-IsState = record {
  generation = omega arith;
  place_segment = omega arith;
  place_offset = omega arith;
  size = omega arith;
  next_segment = omega arith;
  next_offset = omega arith;
  possible = refl;
}

state_9-IsState : IsState (state 9)
state_9-IsState = record {
  generation = omega arith;
  place_segment = omega arith;
  place_offset = omega arith;
  size = omega arith;
  next_segment = omega arith;
  next_offset = omega arith;
  possible = refl;
}

abbrev worker : Worker
worker = record { generation = 7; next = (state 7).next; meta_slot = 0 }

abbrev file : MetaFile
file = record { first = slot_encode (state 7); second = [] }

-- A write that is cut off after three bytes
abbrev cut_off : Bytes
cut_off = 75 ∷ 87 ∷ 77 ∷ []

cut_off-IsOlder : IsOlder (slot_decode cut_off) (state 7)
unfolding slot_decode read_u32
cut_off-IsOlder c e = cc e

meta_load-store_example :
    Restarts
      (state 7)
      (state 9)
      worker
      (torn cut_off)
      (meta_store (state 9) true (torn cut_off) worker file)
meta_load-store_example =
    meta_load-store (state 7) (state 9) worker file (torn cut_off) state_9-IsState (omega arith)
      (slot_decode-encode (state 7) state_7-IsState) (omega arith) (inl cut_off-IsOlder)
