-- ===== src/Server/Tests.antt =====
-- The commands of the server at concrete inputs.
use kynovo.Common.{◌+◌, ℕ, ◌≡◌, ◌⊎◌, List, [], ◌∷◌, none, some, true, false, refl, arith, Bool, inl}
use kynovo.Common.Memory.{ok, fail, allocate, allocate_each}
use kynovo.Bytes.Word.{Bytes, write_u8, write_u32, read_u8}
use kynovo.Bytes.Buf.{empty_buf, written, reserve}
use kynovo.Bytes.Buf
use kynovo.Bytes.Fields.{puts}
use kynovo.Bytes.Reader.{Reader, reader, reader_word}
use kynovo.Treap.Key.{key_cmp}
use kynovo.Treap.Tree.{leaf, leftmost, split, merge, hash, priority_cmp, remove_min}
use kynovo.Treap.Map.{Treap, set, set_root, set_needs}
use kynovo.Treap.Entries.{entries}
use kynovo.Treap.Refine.{put}
use kynovo.Treap.Update.{Valid, Unchanged}
use kynovo.Wire.{req_set, req_rdel}
use kynovo.Server.Ranges.{apply_rdel}
use kynovo.Server.Ranges.Clear.{ClearedTold, apply_rdel-build}
use kynovo.Server.State.{Server}
use kynovo.Server.Dispatch.{apply_command}
use kynovo.Server.Apply.{apply_exec, apply_batch, apply_set}
use kynovo.Server.Commands.{
  exec_writes, batch_writes, AllOrNone, AllOrNoneTold, apply_exec-AllOrNone, apply_batch-AllOrNone,
}
use kynovo.Server.Items.{exec_loop}
use kynovo.Server.Items.Ends.{exec_loop_ends}
use kynovo.Server.Cas.{Cas, absent}
use kynovo.Server.Encode.{
  Context, build_write_command, command_fields, fcall_entry, cmd_put, recorded,
}
use kynovo.Server.Encode.Replay.{apply_set-build}
use kynovo.Server.Encode.WriteSet.{Pair, cmd_puts, next_put}
use kynovo.Server.Encode.Fcall.{apply_exec-cmd_puts}

abbrev empty_map : List Bool → Treap
empty_map memory = record { root = leaf; count = 0; seed = 5; memory = memory }

abbrev idle : Server
idle = record { tree = empty_map []; waiting = none }

-- An allocator that grants the fork and a node, and then denies.
abbrev short_of_memory : Server
short_of_memory = record {
  tree = empty_map (true ∷ true ∷ false ∷ []);
  waiting = some record { conflict = false; result = [] };
}

empty_map-Valid : (memory : List Bool) → Valid (empty_map memory)
unfolding entries
empty_map-Valid memory = record { sorted = tt; sized = tt; counted = refl }

-- Two keys, each of one byte, with values of one byte.
abbrev two_sets : Bytes
two_sets =
    2 ∷ 2 ∷ 0 ∷ 0 ∷ 0 ∷ 1 ∷ 0 ∷ 0 ∷ 0 ∷ 97 ∷ 1 ∷ 0 ∷ 0 ∷ 0 ∷ 49 ∷ 1 ∷ 0 ∷ 0 ∷ 0 ∷ 98 ∷ 1 ∷ 0 ∷ 0 ∷ 0
    ∷ 50 ∷ []

abbrev digit : ℕ → Bytes
digit n = (48 + n) ∷ []

apply_batch-AllOrNone_example :
    (apply_command digit two_sets short_of_memory
      ≡ some (apply_batch digit two_sets short_of_memory))
    × AllOrNoneTold digit
        (batch_writes two_sets)
        short_of_memory
        (apply_batch digit two_sets short_of_memory)
unfolding reader_word read_u8
apply_batch-AllOrNone_example =
    apply_batch-AllOrNone digit two_sets short_of_memory (inl refl)
      (empty_map-Valid (true ∷ true ∷ false ∷ []))

abbrev write_set : Bytes
write_set = 8 ∷ 1 ∷ 1 ∷ 0 ∷ 0 ∷ 0 ∷ 97 ∷ 1 ∷ 0 ∷ 0 ∷ 0 ∷ 49 ∷ 4 ∷ 1 ∷ 0 ∷ 0 ∷ 0 ∷ 98 ∷ []

apply_exec-AllOrNone_example : AllOrNone (exec_writes write_set) idle (apply_exec write_set idle)
apply_exec-AllOrNone_example = apply_exec-AllOrNone write_set idle (empty_map-Valid [])

-- Set the key if it is absent.
abbrev set_absent : Bytes
set_absent = 7 ∷ 1 ∷ 0 ∷ 0 ∷ 0 ∷ 97 ∷ 6 ∷ 0 ∷ 0 ∷ 0 ∷ 0 ∷ 1 ∷ 0 ∷ 0 ∷ 0 ∷ 49 ∷ []

abbrev if_absent : Cas
if_absent = record { key = 97 ∷ []; new = 49 ∷ []; expected = absent }

abbrev key_a : Bytes
key_a = 97 ∷ []

abbrev value_1 : Bytes
value_1 = 49 ∷ []

apply_set-build_example :
    (let (rc, cmd) = build_write_command req_set key_a value_1 (empty_buf []) in
      (rc ≡ ok)
      × (apply_command digit cmd.bytes idle ≡ some (apply_set cmd.bytes idle))
      × ((apply_set cmd.bytes idle).0 ≡ ok)
      × Valid (apply_set cmd.bytes idle).1.tree
      × (entries (apply_set cmd.bytes idle).1.tree.root ≡ put key_a value_1 (entries leaf)))
apply_set-build_example =
    apply_set-build digit key_a value_1 idle
      (record { nonempty = omega arith; key_fits = omega arith; value_fits = omega arith })
      (empty_map-Valid []) refl

abbrev opened : Context
opened = record { txn = empty_map []; writes = empty_buf []; write_count = 0 }

abbrev two_pairs : List Pair
two_pairs = (key_a, value_1) ∷ (value_1, key_a) ∷ []

apply_exec-cmd_puts_example :
    (let entry = fcall_entry (cmd_puts two_pairs opened).1.writes.bytes [] in
      let out = apply_exec entry.bytes idle in
      (((out.0 ≡ ok)
          × Valid out.1.tree
          × (entries out.1.tree.root ≡ entries (cmd_puts two_pairs opened).1.txn.root))
        ⊎ ((out.0 ≡ fail) × Unchanged idle.tree out.1.tree))
      × (idle.tree.memory ≡ [] → out.0 ≡ ok))
unfolding cmd_puts next_put cmd_put recorded set leftmost split set_root merge key_cmp puts Buf.put
    written reserve write_u8 write_u32 Buf.grow allocate allocate_each set_needs hash priority_cmp
    remove_min fcall_entry
apply_exec-cmd_puts_example =
    apply_exec-cmd_puts two_pairs opened idle [] (empty_map-Valid []) (empty_map-Valid []) refl refl
      refl refl refl

apply_rdel-build_example :
    (let (rc, cmd) = build_write_command req_rdel key_a [] (empty_buf []) in
      (apply_command digit cmd.bytes idle ≡ some (apply_rdel digit cmd.bytes idle))
      × ClearedTold digit key_a [] idle (apply_rdel digit cmd.bytes idle))
unfolding build_write_command command_fields puts Buf.put written reserve write_u8 write_u32
    Buf.grow allocate
apply_rdel-build_example =
    apply_rdel-build digit key_a [] idle [] (omega arith) (omega arith) (empty_map-Valid []) refl

abbrev records : Reader
records = reader (1 ∷ 1 ∷ 0 ∷ 0 ∷ 0 ∷ 97 ∷ 1 ∷ 0 ∷ 0 ∷ 0 ∷ 49 ∷ [])

exec_loop_ends_example :
    exec_loop 11 0 records (empty_map []) ≡ exec_loop 30 0 records (empty_map [])
exec_loop_ends_example = exec_loop_ends 11 30 0 records (empty_map []) (omega arith) (omega arith)

abbrev three_ids : List ℕ
three_ids = 1 ∷ 2 ∷ 70000 ∷ []
