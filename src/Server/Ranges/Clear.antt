-- ===== src/Server/Ranges/Clear.antt =====
-- The command that code/kserver.h builds for a range deletion removes the range.
use mathlib.Core.Path.{subst}
use kynovo.Common.{
  keep, ℕ, ◌+◌, ◌≤◌, ◌≡◌, ◌≢◌, ◌⊎◌, List, [], ◌++◌, Bool, false, none, some, ltb, arith, length,
  refl, sym, ap, ◌∙◌, inl, inr,
}
use kynovo.Common.Memory.{Rc, fail}
use kynovo.Bytes.Word.{Bytes, write_u32}
use kynovo.Bytes.Buf.{empty_buf}
use kynovo.Bytes.Fields.{joined, sized, puts-Writes}
use kynovo.Bytes.Reader.{Reader, reader_u8-write, reader_u32-write, reader_bytes-append}
use kynovo.Wire.{key_max, req_rdel}
use kynovo.Treap.Key.{Key}
use kynovo.Treap.Map.{Treap, Code, delete_range}
use kynovo.Treap.Entries.{entries}
use kynovo.Treap.Range.{Cleared, delete_range-Cleared, is_outside}
use kynovo.Treap.Update.{Valid, Unchanged, same-Valid}
use kynovo.Treap.Memory.{delete_range_memory, delete_range_succeeds}
use kynovo.Server.{op_rdel}
use kynovo.Server.State.{Server, result_for}
use kynovo.Server.Answer.{Answered, result_for-Answered, result_for_tree}
use kynovo.Server.Dispatch.{opcode, dispatch, apply_command, apply_command_lem}
use kynovo.Server.Ranges.{read_range, range_removed, range_read, apply_rdel}
use kynovo.Server.Encode.{command_fields, build_write_command}

read_range-joined :
    (begin end : Bytes)
    → length begin ≤ key_max
    → length end ≤ key_max
    → read_range (joined (command_fields req_rdel begin end)) ≡ some (begin, end)
unfolding read_range joined command_fields
read_range-joined begin end hb he =
    let begin_ok : ltb key_max (length begin) ≡ false = ground arith in
    let end_ok : ltb key_max (length end) ≡ false = ground arith in
    let p3 : Bytes = end ++ [] in
    let p2 : Bytes = write_u32 (length end) ++ p3 in
    let p1 : Bytes = begin ++ p2 in
    let p0 : Bytes = write_u32 (length begin) ++ p1 in
    rw
      (
        reader_u8-write op_rdel p0 (omega arith),
        reader_u32-write (length begin) p1 (omega arith),
        reader_bytes-append begin p2,
        reader_u32-write (length end) p3 (omega arith),
        reader_bytes-append end [],
        begin_ok,
        end_ok,
      )
      refl

opcode-joined : (begin end : Bytes) → opcode (joined (command_fields req_rdel begin end)) ≡ op_rdel
unfolding joined command_fields
opcode-joined begin end =
    ap (λ (x : ℕ × Reader). x.0)
      (reader_u8-write op_rdel (joined (sized begin (sized end []))) (omega arith))

module _ (decimal : ℕ → Bytes) where
  -- The range is removed from a valid map, and a client that waits is told the number of its keys; or
  -- nothing is changed, and an allocation was denied.
  abbrev pub ClearedTold : Key → Key → Server → Rc × Server → Type 0
  ClearedTold begin end s out =
      ((n : ℕ) × Valid out.1.tree
        × (entries out.1.tree.root ≡ keep (is_outside begin end) (entries s.tree.root))
        × (n + length (entries out.1.tree.root) ≡ length (entries s.tree.root))
        × Answered (decimal n) s out)
      ⊎ ((s.tree.memory ≢ []) × (out.0 ≡ fail) × Unchanged s.tree out.1.tree)

  told :
      (begin end : Key) (n : ℕ) (s mid out : Server)
      → Unchanged mid.tree out.tree
      → Valid mid.tree
      → entries mid.tree.root ≡ keep (is_outside begin end) (entries s.tree.root)
      → n + length (entries mid.tree.root) ≡ length (entries s.tree.root)
      → Valid out.tree
        × (entries out.tree.root ≡ keep (is_outside begin end) (entries s.tree.root))
        × (n + length (entries out.tree.root) ≡ length (entries s.tree.root))
  told begin end n s mid out same v es sum = (
    same-Valid mid.tree out.tree same v,
    ap entries same.root ∙ es,
    omega (arith, sum, ap (λ x. length (entries x)) same.root),
  )

  removed-ClearedTold :
      (begin end : Key) (s : Server) (out : Code × Treap)
      → Cleared begin end s.tree out
      → (s.tree.memory ≡ [] → (n : ℕ) × (out.0 ≡ some n))
      → (s.tree.memory ≡ [] → out.1.memory ≡ [])
      → ClearedTold begin end s (range_removed decimal s out)
  unfolding range_removed
  removed-ClearedTold begin end s (none, t) (inl (n, f, v, es, sum)) g m = cc f
  removed-ClearedTold begin end s (none, t) (inr (f, same)) g m =
      inr (λ h. denied (g h), refl, same)
    where
      denied : (n : ℕ) × (◌≡◌ {A = Code} none (some n)) → ⊥
      denied (n, e) = cc e
  removed-ClearedTold begin end s (some k, t) (inr (f, same)) g m = cc f
  removed-ClearedTold begin end s (some k, t) (inl (n, f, v, es, sum)) g m =
      let mid = record s { tree = t } in
      let (valid, left, total) =
        told begin end k s mid (result_for (decimal k) mid s.waiting).1
          (result_for_tree (decimal k) mid s.waiting) v es (omega (arith, sum, ap code_of f)) in
      inl (k, valid, left, total, result_for-Answered (decimal k) s mid s.waiting refl m)
    where
      code_of : Code → ℕ
      code_of none = 0
      code_of (some i) = i

  -- The command that is built for an RDEL of two bounds that the protocol accepts, if no error is set
  -- in it, goes to the branch for range deletions, and on a valid map removes exactly the entries in
  -- the range, an empty bound being none; a client that waits finds their number if 0 is returned, and
  -- -1 is then returned only if a client waits and the number could not be kept for it, which with
  -- memory and a number of a reasonable length does not happen. Or, where an allocation is denied, it
  -- returns -1 and leaves tree and count as they were.
  pub apply_rdel-build :
      (begin end : Bytes) (s : Server) (memory : List Bool)
      → length begin ≤ key_max
      → length end ≤ key_max
      → Valid s.tree
      → (build_write_command req_rdel begin end (empty_buf memory)).1.err ≡ false
      → (let (rc, cmd) = build_write_command req_rdel begin end (empty_buf memory) in
          (apply_command decimal cmd.bytes s ≡ some (apply_rdel decimal cmd.bytes s))
          × ClearedTold begin end s (apply_rdel decimal cmd.bytes s))
  unfolding build_write_command apply_rdel range_read dispatch
  apply_rdel-build begin end s memory hb he v fine =
      let (start, bytes) =
        (puts-Writes (command_fields req_rdel begin end) (empty_buf memory)).wrote fine in
      let reads = ap read_range bytes ∙ read_range-joined begin end hb he in
      (
        apply_command_lem decimal op_rdel _ s (λ h. absurd (omega (arith, h)))
            (ap opcode bytes ∙ opcode-joined begin end),
        subst (λ r. ClearedTold begin end s (range_read decimal s r)) (sym reads)
            (removed-ClearedTold begin end s (delete_range begin end s.tree)
              (delete_range-Cleared begin end s.tree v) (delete_range_succeeds begin end s.tree)
              (delete_range_memory begin end s.tree)),
      )
