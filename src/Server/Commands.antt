-- ===== src/Server/Commands.antt =====
-- A command of code/kserver.h with several writes changes the map by all of them or by none.
use kynovo.Common.{
  ℕ, ◌≡◌, ◌⊎◌, List, [], Bool, true, false, Option, none, some, if◌then◌else◌, ltb, ◌==◌, inl, inr,
  refl, sym, ap, ◌∙◌, Bool-cases, length, arith,
}
use kynovo.Common.Memory.{Rc, ok, fail, allocate}
use kynovo.Bytes.Word.{Bytes}
use kynovo.Bytes.Reader.{Reader, reader, reader_u8, reader_u32, is_done}
use kynovo.Treap.Map.{Treap}
use kynovo.Treap.Entries.{entries}
use kynovo.Treap.Update.{Valid, Unchanged, same-Valid}
use kynovo.Server.{op_mset, op_mdel}
use kynovo.Server.State.{Server, fork, commit}
use kynovo.Server.Items.{Item, Ran, batch, exec_loop}
use kynovo.Server.Items.Memory.{batch_memory}
use kynovo.Server.Apply.{end_exec, on_fork, apply_exec, end_batch, apply_batch}
use kynovo.Server.Answer.{Answered, result_for-Answered, result_for_tree}
use kynovo.Server.Dispatch.{opcode, dispatch, apply_command, apply_command_lem}
use kynovo.Server.Atomic.{
  run, affected_of, Parsed, batch_items, exec_items, RunOf, batch-RunOf, exec_loop-RunOf,
}

-- The writes of a command that holds nothing else.
unfoldable pub complete : Parsed → Option (List Item)
complete none = none
complete (some (items, r)) = if is_done r then some items else none

unfoldable pub exec_writes : Bytes → Option (List Item)
exec_writes command = complete (exec_items (length command) (reader_u8 (reader command)).1)

unfoldable pub batch_writes : Bytes → Option (List Item)
batch_writes command =
    let (op, r) = reader_u8 (reader command) in
    let (count, r1) = reader_u32 r in
    if ltb count 1 then none else complete (batch_items (op == op_mset) count r1)

-- All writes of the command are made on a valid map, which stays valid, and affect so many keys.
pub record Made (writes : Option (List Item)) (affected : ℕ) (s out : Server) : Type 0 where
  pub items : List Item
  pub decoded : writes ≡ some items
  pub valid : Valid out.tree
  pub done : entries out.tree.root ≡ run items (entries s.tree.root)
  pub count : affected ≡ affected_of items (entries s.tree.root)

abbrev pub AllOrNone : Option (List Item) → Server → Rc × Server → Type 0
AllOrNone writes s out =
    ((n : ℕ) × (out.0 ≡ ok) × Made writes n s out.1)
    ⊎ ((out.0 ≡ fail) × Unchanged s.tree out.1.tree)

fork-Valid : (s : Server) → Valid s.tree → Valid (fork s).1
unfolding fork
fork-Valid s v = record { sorted = v.sorted; sized = v.sized; counted = v.counted }

fork_root : (s : Server) → (fork s).1.root ≡ s.tree.root
unfolding fork
fork_root s = refl

-- A loop over the writes that ended, at the end of the command or before it.
Ended : ℕ → Reader → Parsed → Server → Treap → Type 0
Ended m r parsed s t =
    (is_done r ≡ false) ⊎ ((is_done r ≡ true) × Made (complete parsed) m s (commit t s))

RunOf-Ended :
    (s : Server) (parsed : Parsed) (copy : Treap) (m : ℕ) (r : Reader) (t : Treap)
    → copy.root ≡ s.tree.root
    → RunOf parsed 0 copy (some (m, r), t)
    → Ended m r parsed s t
unfolding complete Ended
RunOf-Ended s parsed copy m r' t e (inr f) = cc f
RunOf-Ended s parsed copy m r' t e (inl (items, r, n, p, o, c, v, es)) =
    elim (Bool-cases (is_done r')) [
      | inr open' ↦ inl open'
      | inl over ↦ inr (
        over,
        record {
          items = items;
          decoded = ap complete p ∙ rw (sym (ap done_of o) ∙ over) refl;
          valid = record { sorted = v.sorted; sized = v.sized; counted = v.counted };
          done = es ∙ ap (λ x. run items (entries x)) e;
          count = omega (arith, ap count_of o, c, ap (λ x. affected_of items (entries x)) e);
        },
      )
    ]
  where
    done_of : Option (ℕ × Reader) → Bool
    done_of none = true
    done_of (some (k, q)) = is_done q

    count_of : Option (ℕ × Reader) → ℕ
    count_of none = 0
    count_of (some (k, q)) = k

fork_memory : (s : Server) → s.tree.memory ≡ [] → (fork s).1.memory ≡ []
unfolding fork allocate
fork_memory s m = simp m refl

end_exec-AllOrNone :
    (s : Server) (parsed : Parsed) (copy : Treap) (out : Ran)
    → copy.root ≡ s.tree.root
    → RunOf parsed 0 copy out
    → AllOrNone (complete parsed) s (end_exec s out)
unfolding end_exec Ended
end_exec-AllOrNone s parsed copy (none, t) e h = inr (refl, record { root = refl; count = refl })
end_exec-AllOrNone s parsed copy (some (m, r), t) e h = elim (RunOf-Ended s parsed copy m r t e h) [
  | inl open' ↦ rw open' (inr (refl, record { root = refl; count = refl }))
  | inr (over, made) ↦ rw over (inl (m, refl, made))
]

on_fork-AllOrNone :
    (writes : Option (List Item)) (s : Server) (next : Treap → Rc × Server) (got : Bool × Treap)
    → AllOrNone writes s (next got.1)
    → AllOrNone writes s (on_fork s next got)
unfolding on_fork
on_fork-AllOrNone writes s next (true, copy) h = h
on_fork-AllOrNone writes s next (false, copy) h = inr (refl, record { root = refl; count = refl })

-- Whatever the bytes of the command and the allocator: `k_server_apply_exec` on a valid map either
-- makes all the writes that the bytes hold, nothing else among them, and the map is valid; or it
-- returns -1 and tree and count are as they were.
pub apply_exec-AllOrNone :
    (command : Bytes) (s : Server)
    → Valid s.tree
    → AllOrNone (exec_writes command) s (apply_exec command s)
unfolding apply_exec exec_writes
apply_exec-AllOrNone command s v =
    let (op, r) = reader_u8 (reader command) in
    let copy = (fork s).1 in
    on_fork-AllOrNone (complete (exec_items (length command) r)) s _ (fork s) (
      end_exec-AllOrNone s (exec_items (length command) r) copy
        (exec_loop (length command) 0 r copy) (fork_root s)
        (exec_loop-RunOf (length command) 0 r copy (fork-Valid s v)))

module _ (decimal : ℕ → Bytes) where
  -- The writes are made, and the client that waits is told how many keys they affected; or nothing is
  -- changed.
  abbrev pub AllOrNoneTold : Option (List Item) → Server → Rc × Server → Type 0
  AllOrNoneTold writes s out =
      ((n : ℕ) × Made writes n s out.1 × Answered (decimal n) s out)
      ⊎ ((out.0 ≡ fail) × Unchanged s.tree out.1.tree)

  told :
      (writes : Option (List Item)) (n : ℕ) (s mid out : Server)
      → Unchanged mid.tree out.tree
      → Made writes n s mid
      → Made writes n s out
  told writes n s mid out same made = record {
    items = made.items;
    decoded = made.decoded;
    valid = same-Valid mid.tree out.tree same made.valid;
    done = ap entries same.root ∙ made.done;
    count = made.count;
  }

  end_batch-AllOrNone :
      (s : Server) (parsed : Parsed) (copy : Treap) (out : Ran)
      → copy.root ≡ s.tree.root
      → RunOf parsed 0 copy out
      → (s.tree.memory ≡ [] → out.1.memory ≡ [])
      → AllOrNoneTold (complete parsed) s (end_batch decimal s out)
  unfolding end_batch Ended
  end_batch-AllOrNone s parsed copy (none, t) e h m =
      inr (refl, record { root = refl; count = refl })
  end_batch-AllOrNone s parsed copy (some (n, r), t) e h m =
      elim (RunOf-Ended s parsed copy n r t e h) [
        | inl open' ↦ rw open' (inr (refl, record { root = refl; count = refl }))
        | inr (over, made) ↦ rw over (
            inl (
              n,
              told (complete parsed) n s (commit t s) _
                  (result_for_tree (decimal n) (commit t s) s.waiting) made,
              result_for-Answered (decimal n) s (commit t s) s.waiting refl m,
            ))
      ]

  on_fork-AllOrNoneTold :
      (writes : Option (List Item)) (s : Server) (next : Treap → Rc × Server) (got : Bool × Treap)
      → AllOrNoneTold writes s (next got.1)
      → AllOrNoneTold writes s (on_fork s next got)
  unfolding on_fork
  on_fork-AllOrNoneTold writes s next (true, copy) h = h
  on_fork-AllOrNoneTold writes s next (false, copy) h =
      inr (refl, record { root = refl; count = refl })

  apply_batch-AllOrNoneTold :
      (command : Bytes) (s : Server)
      → Valid s.tree
      → AllOrNoneTold (batch_writes command) s (apply_batch decimal command s)
  unfolding apply_batch batch_writes
  apply_batch-AllOrNoneTold command s v =
      let (op, r) = reader_u8 (reader command) in
      let (count, r1) = reader_u32 r in
      let sets : Bool = op == op_mset in
      let copy = (fork s).1 in
      elim (Bool-cases (ltb count 1)) [
        | inl empty ↦ rw empty (inr (refl, record { root = refl; count = refl }))
        | inr some_keys ↦ rw some_keys (
            on_fork-AllOrNoneTold (complete (batch_items sets count r1)) s _ (fork s) (
              end_batch-AllOrNone s (batch_items sets count r1) copy (batch sets count 0 r1 copy)
                (fork_root s) (batch-RunOf sets count 0 r1 copy (fork-Valid s v))
                (λ m. batch_memory sets count 0 r1 copy (fork_memory s m))))
      ]

  -- The command of an MSET or an MDEL, whatever its other bytes and the allocator: it goes to the
  -- branch for batches, which on a valid map either makes all the writes that the bytes hold, nothing
  -- else among them, the map is valid, and a client that waits finds the number of the keys that were
  -- affected if 0 is returned; -1 is then returned only if a client waits and the number could not be
  -- kept for it, which with memory and a number of a reasonable length does not happen. Or it
  -- returns -1 and tree and count are as they were.
  pub apply_batch-AllOrNone :
      (command : Bytes) (s : Server)
      → (opcode command ≡ op_mset) ⊎ (opcode command ≡ op_mdel)
      → Valid s.tree
      → (apply_command decimal command s ≡ some (apply_batch decimal command s))
        × AllOrNoneTold (batch_writes command) s (apply_batch decimal command s)
  unfolding dispatch
  apply_batch-AllOrNone command s (inl e) v = (
    apply_command_lem decimal op_mset command s (λ h. absurd (omega (arith, h))) e,
    apply_batch-AllOrNoneTold command s v,
  )
  apply_batch-AllOrNone command s (inr e) v = (
    apply_command_lem decimal op_mdel command s (λ h. absurd (omega (arith, h))) e,
    apply_batch-AllOrNoneTold command s v,
  )
