-- ===== src/Server/Encode/Fcall.antt =====
-- What a custom command of code/kserver.h did to its working tree is what its entry of the log does to
-- the map of every server (k_cmd_put, k_server_exec_cmd and k_server_apply_exec).
use mathlib.Core.Path.{subst}
use kynovo.Common.{
  ap₂, ℕ, ◌+◌, ◌≤◌, ◌≡◌, ◌⊎◌, List, [], ◌∷◌, ◌++◌, Bool, true, false, Option, none, some, leb,
  arith, length, append-nil, refl, sym, ap, ◌∙◌, inl, inr, zero, suc,
}
use kynovo.Common.Memory.{Rc, ok, fail, allocate}
use kynovo.Bytes.Word.{Bytes, write_u8}
use kynovo.Bytes.Buf.{empty_buf}
use kynovo.Bytes.Fields.{joined, puts-Writes}
use kynovo.Bytes.Reader.{Reader, reader, is_done, reader_u8-write}
use kynovo.Treap.Map.{Treap, Code, set, too_long}
use kynovo.Treap.Entries.{entries}
use kynovo.Treap.Update.{Valid, Unchanged, set_succeeds, set_memory}
use kynovo.Server.{op_fcall}
use kynovo.Server.State.{Server, fork}
use kynovo.Server.Items.{Item, apply_item, affected_by, with_item, with_code, exec_loop, Ran}
use kynovo.Server.Apply.{apply_exec, end_exec, on_fork}
use kynovo.Server.Atomic.{run}
use kynovo.Server.Commands.{exec_writes, AllOrNone, apply_exec-AllOrNone}
use kynovo.Server.Encode.{Context, fcall_entry}
use kynovo.Server.Encode.WriteSet.{
  Pair, records, items_of, ArePairs, cmd_puts, Recorded, exec_writes-records, cmd_puts-Recorded,
  read_op-records, length-records,
}
use kynovo.Server.Encode.Replay.{set_bytes, some_key-is_empty}

-- With memory left the loop makes all the writes that the records hold.
exec_loop_succeeds :
    (pairs : List Pair) (fuel n : ℕ) (t : Treap)
    → length pairs ≤ fuel
    → ArePairs pairs
    → t.memory ≡ []
    → (exec_loop fuel n (reader (records pairs)) t).0 ≡ some (n + length pairs, reader [])
unfolding exec_loop records write_u8 with_item apply_item with_code
exec_loop_succeeds [] zero n t h a m = ap (λ (k : ℕ). some (k, reader [])) (omega arith)
exec_loop_succeeds [] (suc fuel) n t h a m = ap (λ (k : ℕ). some (k, reader [])) (omega arith)
exec_loop_succeeds ((key, value) ∷ pairs) zero n t h a m = absurd (omega arith)
exec_loop_succeeds ((key, value) ∷ pairs) (suc fuel) n t h (p, a) m =
    let more : leb (suc (length (set_bytes key value (records pairs)))) 0 ≡ false = ground arith in
    let short : too_long key ≡ false = ground (arith, p.key_fits) in
    rw (read_op-records key value pairs p, more)
      (by_set (set key value t)
        (set_succeeds key value t (some_key-is_empty key p.nonempty) short m)
        (set_memory key value t m)
        (λ t' m'. exec_loop_succeeds pairs fuel (n + 1) t' (omega arith) a m'))
  where
    by_set :
        (out : Code × Treap)
        → out.0 ≡ some 0
        → out.1.memory ≡ []
        → ((t' : Treap)
            → t'.memory ≡ []
            → (exec_loop fuel (n + 1) (reader (records pairs)) t').0
              ≡ some (n + 1 + length pairs, reader []))
        → (with_code n (reader (records pairs)) (exec_loop fuel) (affected_by out)).0
          ≡ some (n + suc (length pairs), reader [])
    by_set (none, t') f m' ih = cc f
    by_set (some k, t') f m' ih = ih t' m' ∙ ap (λ (k : ℕ). some (k, reader [])) (omega arith)

end_exec_ok :
    (s : Server) (out : Ran) (n : ℕ) → out.0 ≡ some (n, reader []) → (end_exec s out).0 ≡ ok
unfolding end_exec
end_exec_ok s (none, t) n e = cc e
end_exec_ok s (some (k, r), t) n e = rw (ap done_of e) refl
  where
    done_of : Option (ℕ × Reader) → Bool
    done_of none = true
    done_of (some (k, q)) = is_done q

fork_granted : (s : Server) → s.tree.memory ≡ [] → ((fork s).0 ≡ true) × ((fork s).1.memory ≡ [])
unfolding fork allocate
fork_granted s m = simp m (refl, refl)

on_fork_ok :
    (s : Server) (next : Treap → Rc × Server) (got : Bool × Treap)
    → got.0 ≡ true
    → (next got.1).0 ≡ ok
    → (on_fork s next got).0 ≡ ok
unfolding on_fork
on_fork_ok s next (true, copy) e h = h
on_fork_ok s next (false, copy) e h = cc e

-- With memory left an entry of writes is applied.
apply_exec_ok :
    (pairs : List Pair) (s : Server)
    → ArePairs pairs
    → s.tree.memory ≡ []
    → (apply_exec (write_u8 op_fcall ++ records pairs) s).0 ≡ ok
unfolding apply_exec write_u8
apply_exec_ok pairs s a m =
    let (granted, memory) = fork_granted s m in
    rw (reader_u8-write op_fcall (records pairs) (omega arith)) (
      on_fork_ok s _ (fork s) granted (
        end_exec_ok s _ (0 + length pairs) (
          exec_loop_succeeds pairs (suc (length (records pairs))) 0 (fork s).1
            (omega (arith, length-records pairs)) a memory)))

-- A custom command makes some writes in turn on a working tree of the leader's map, all of which
-- succeed and are recorded. The entry built of the records, applied to any valid map with the entries
-- that the working tree started from, either leaves that map with the entries that the command left
-- in its working tree, and valid, or returns -1 and leaves it as it was; and with memory it succeeds.
pub apply_exec-cmd_puts :
    (pairs : List Pair) (ctx : Context) (s : Server) (memory : List Bool)
    → Valid ctx.txn
    → Valid s.tree
    → entries s.tree.root ≡ entries ctx.txn.root
    → ctx.writes.bytes ≡ []
    → (cmd_puts pairs ctx).0 ≡ some 0
    → (cmd_puts pairs ctx).1.writes.err ≡ false
    → (fcall_entry (cmd_puts pairs ctx).1.writes.bytes memory).err ≡ false
    → (let entry = fcall_entry (cmd_puts pairs ctx).1.writes.bytes memory in
        let out = apply_exec entry.bytes s in
        (((out.0 ≡ ok)
            × Valid out.1.tree
            × (entries out.1.tree.root ≡ entries (cmd_puts pairs ctx).1.txn.root))
          ⊎ ((out.0 ≡ fail) × Unchanged s.tree out.1.tree))
        × (s.tree.memory ≡ [] → out.0 ≡ ok))
unfolding fcall_entry joined
apply_exec-cmd_puts pairs ctx s memory vt vs same start o w e =
    by_recorded (cmd_puts-Recorded pairs ctx vt)
  where
    end : Context
    end = (cmd_puts pairs ctx).1

    Outcome : Bytes → Type 0
    Outcome bs =
        (((apply_exec bs s).0 ≡ ok)
          × Valid (apply_exec bs s).1.tree
          × (entries (apply_exec bs s).1.tree.root ≡ entries end.txn.root))
        ⊎ (((apply_exec bs s).0 ≡ fail) × Unchanged s.tree (apply_exec bs s).1.tree)

    Goal : Bytes → Type 0
    Goal bs = Outcome bs × (s.tree.memory ≡ [] → (apply_exec bs s).0 ≡ ok)

    entry_bytes :
        Recorded pairs ctx end
        → write_u8 op_fcall ++ records pairs ≡ (fcall_entry end.writes.bytes memory).bytes
    entry_bytes r =
        let (fine, bytes) =
          (puts-Writes (write_u8 op_fcall ∷ end.writes.bytes ∷ []) (empty_buf memory)).wrote e in
        let recorded' : end.writes.bytes ≡ records pairs =
          (r.written.wrote w).1 ∙ ap (λ b. b ++ records pairs) start in
        sym (bytes ∙ ap (λ b. write_u8 op_fcall ++ b) (append-nil end.writes.bytes ∙ recorded'))

    items_from : Option (List Item) → List Item
    items_from none = []
    items_from (some items) = items

    same_items :
        (made : Option (List Item)) (items : List Item)
        → made ≡ some items
        → made ≡ some (items_of pairs)
        → items ≡ items_of pairs
    same_items made items p q = ap items_from (sym p ∙ q)

    by_made :
        Recorded pairs ctx end
        → AllOrNone
            (exec_writes (write_u8 op_fcall ++ records pairs))
            s
            (apply_exec (write_u8 op_fcall ++ records pairs) s)
        → Outcome (write_u8 op_fcall ++ records pairs)
    by_made r (inr (f, kept)) = inr (f, kept)
    by_made r (inl (n, f, made)) = inl (
      f,
      made.valid,
      made.done
          ∙ ap₂ run (same_items _ made.items made.decoded (exec_writes-records pairs r.accepted))
              same
          ∙ sym r.done,
    )

    by_recorded :
        ((cmd_puts pairs ctx).0 ≡ none) ⊎ Recorded pairs ctx end
        → Goal (fcall_entry end.writes.bytes memory).bytes
    by_recorded (inl f) = cc (sym o ∙ f)
    by_recorded (inr r) = subst Goal (entry_bytes r) (
      by_made r (apply_exec-AllOrNone (write_u8 op_fcall ++ records pairs) s vs),
      apply_exec_ok pairs s r.accepted,
    )
