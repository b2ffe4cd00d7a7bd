-- ===== src/Server/Encode/WriteSet.antt =====
-- The write set of a custom command of code/kserver.h: what the command saw on its working tree is what
-- every replica gets.
use mathlib.Core.Path.{subst}
use kynovo.Common.{
  ℕ, ◌≤◌, ◌≡◌, ◌⊎◌, List, [], ◌∷◌, ◌++◌, false, none, some, ltb, leb, ◌==◌, ◌||◌, arith, length,
  length-append, append_assoc, append-nil, refl, ap, ◌∙◌, Bool-cases, inl, inr, zero, suc, All,
}
use kynovo.Bytes.Word.{Bytes, write_u8, write_u32}
use kynovo.Bytes.Buf.{Writes, Writes-trans}
use kynovo.Bytes.Fields.{sized, puts, joined, puts-Writes}
use kynovo.Bytes.Reader.{reader, reader_u8-write}
use kynovo.Wire.{key_max, value_max}
use kynovo.Treap.Key.{Key}
use kynovo.Treap.Map.{Treap, Code, set}
use kynovo.Treap.Entries.{entries}
use kynovo.Treap.Update.{Valid, Updated, set-Updated}
use kynovo.Server.{op_set, op_fcall}
use kynovo.Server.Items.{Item, put_item, read_op}
use kynovo.Server.Atomic.{run_item, run, exec_items, then_items, with_head}
use kynovo.Server.Commands.{exec_writes, complete}
use kynovo.Server.Encode.{Context, cmd_put, recorded}
use kynovo.Server.Encode.Replay.{IsPair, set_bytes, read_set-write}

abbrev pub Pair : Type 0
Pair = Key × Key

-- The records of some writes, and the writes.
unfoldable pub records : List Pair → Bytes
records [] = []
records ((key, value) ∷ pairs) = write_u8 op_set ++ set_bytes key value (records pairs)

unfoldable pub items_of : List Pair → List Item
items_of [] = []
items_of ((key, value) ∷ pairs) = put_item (some key) (length value) (some value) ∷ items_of pairs

abbrev pub ArePairs : List Pair → Type 0
ArePairs pairs = All (λ p. IsPair p.0 p.1) pairs

pub read_op-records :
    (key value : Key) (pairs : List Pair)
    → IsPair key value
    → read_op (reader (write_u8 op_set ++ set_bytes key value (records pairs)))
      ≡ some (put_item (some key) (length value) (some value), reader (records pairs))
unfolding read_op
read_op-records key value pairs h =
    let p : Bytes = set_bytes key value (records pairs) in
    rw (reader_u8-write op_set p (omega arith), read_set-write key value (records pairs) h) refl

-- The loop's records are read back, with fuel for each.
exec_items-records :
    (pairs : List Pair) (fuel : ℕ)
    → length pairs ≤ fuel
    → ArePairs pairs
    → exec_items fuel (reader (records pairs)) ≡ some (items_of pairs, reader [])
unfolding exec_items records items_of then_items with_head write_u8
exec_items-records [] zero h a = refl
exec_items-records [] (suc fuel) h a = refl
exec_items-records ((key, value) ∷ pairs) zero h a = absurd (omega arith)
exec_items-records ((key, value) ∷ pairs) (suc fuel) h (p, a) =
    let more : leb (suc (length (set_bytes key value (records pairs)))) 0 ≡ false = ground arith in
    rw (read_op-records key value pairs p, exec_items-records pairs fuel (omega arith) a, more) refl

pub length-records : (pairs : List Pair) → length pairs ≤ length (records pairs)
unfolding records write_u8 write_u32
length-records [] = omega arith
length-records ((key, value) ∷ pairs) = omega (
  arith,
  length-records pairs,
  length-append key (write_u32 (length value) ++ (value ++ records pairs)),
  length-append (write_u32 (length value)) (value ++ records pairs),
  length-append value (records pairs),
)

-- The bytes of an entry decode to the writes.
pub exec_writes-records :
    (pairs : List Pair)
    → ArePairs pairs
    → exec_writes (write_u8 op_fcall ++ records pairs) ≡ some (items_of pairs)
unfolding exec_writes complete write_u8
exec_writes-records pairs a =
    let read = reader_u8-write op_fcall (records pairs) (omega arith) in
    rw
      (
        read,
        exec_items-records pairs (suc (length (records pairs)))
            (omega (arith, length-records pairs)) a,
      )
      refl

-- A custom command that makes some writes in turn, up to the first that fails.
unfoldable pub next_put : (Context → Code × Context) → Code × Context → Code × Context
next_put next (none, ctx) = (none, ctx)
next_put next (some n, ctx) = next ctx

unfoldable pub cmd_puts : List Pair → Context → Code × Context
cmd_puts [] ctx = (some 0, ctx)
cmd_puts ((key, value) ∷ pairs) ctx = next_put (cmd_puts pairs) (cmd_put key value ctx)

-- What the command has done to its working tree, and what it has recorded.
pub record Recorded (pairs : List Pair) (ctx out : Context) : Type 0 where
  pub accepted : ArePairs pairs
  pub valid : Valid out.txn
  pub done : entries out.txn.root ≡ run (items_of pairs) (entries ctx.txn.root)
  pub written : Writes (records pairs) ctx.writes out.writes

recorded-Recorded :
    (key value : Key) (ctx : Context) (out : Code × Treap)
    → IsPair key value
    → Updated key value ctx.txn out
    → ((recorded key value ctx out).0 ≡ none)
      ⊎ Recorded ((key, value) ∷ []) ctx (recorded key value ctx out).1
unfolding recorded records run run_item items_of joined
recorded-Recorded key value ctx (none, t) p u = inl refl
recorded-Recorded key value ctx (some k, t) p (inr (f, same)) = cc f
recorded-Recorded key value ctx (some k, t) p (inl (f, (v, es))) = inr record {
  accepted = (p, tt);
  valid = v;
  done = es;
  written = puts-Writes (write_u8 op_set ∷ sized key (sized value [])) ctx.writes;
}

cmd_put-Recorded :
    (key value : Key) (ctx : Context)
    → Valid ctx.txn
    → ((cmd_put key value ctx).0 ≡ none)
      ⊎ Recorded ((key, value) ∷ []) ctx (cmd_put key value ctx).1
unfolding cmd_put
cmd_put-Recorded key value ctx v =
    elim (Bool-cases
      (length key == 0 || ltb key_max (length key) || ltb value_max (length value))) [
        | inl off ↦ rw off (inl refl)
        | inr fits ↦
            let p : IsPair key value = record {
              nonempty = ground arith;
              key_fits = ground arith;
              value_fits = ground arith;
            } in
            rw fits (
              recorded-Recorded key value ctx (set key value ctx.txn) p
                (set-Updated key value ctx.txn v))
      ]

records-append :
    (key value : Key) (pairs : List Pair)
    → records ((key, value) ∷ []) ++ records pairs ≡ records ((key, value) ∷ pairs)
unfolding records
records-append key value pairs = simp (append_assoc, append-nil) refl

Recorded-trans :
    (key value : Key) (pairs : List Pair) (a b c : Context)
    → Recorded ((key, value) ∷ []) a b
    → Recorded pairs b c
    → Recorded ((key, value) ∷ pairs) a c
unfolding run items_of run_item
Recorded-trans key value pairs a b c p q = record {
  accepted = (p.accepted.0, q.accepted);
  valid = q.valid;
  done = q.done ∙ ap (run (items_of pairs)) p.done;
  written =
      subst (λ bs. Writes bs a.writes c.writes) (records-append key value pairs)
        (Writes-trans (records ((key, value) ∷ [])) (records pairs) a.writes b.writes c.writes
          p.written q.written);
}

pub cmd_puts-Recorded :
    (pairs : List Pair) (ctx : Context)
    → Valid ctx.txn
    → ((cmd_puts pairs ctx).0 ≡ none) ⊎ Recorded pairs ctx (cmd_puts pairs ctx).1
unfolding cmd_puts next_put run items_of records joined puts
cmd_puts-Recorded [] ctx v =
    inr record { accepted = tt; valid = v; done = refl; written = puts-Writes [] ctx.writes }
cmd_puts-Recorded ((key, value) ∷ pairs) ctx v =
    by_put (cmd_put key value ctx) (cmd_put-Recorded key value ctx v) (cmd_puts-Recorded pairs)
  where
    by_rest :
        (ctx' : Context)
        → Recorded ((key, value) ∷ []) ctx ctx'
        → ((cmd_puts pairs ctx').0 ≡ none) ⊎ Recorded pairs ctx' (cmd_puts pairs ctx').1
        → ((cmd_puts pairs ctx').0 ≡ none)
          ⊎ Recorded ((key, value) ∷ pairs) ctx (cmd_puts pairs ctx').1
    by_rest ctx' p (inl f) = inl f
    by_rest ctx' p (inr q) = inr (Recorded-trans key value pairs ctx ctx' _ p q)

    by_put :
        (out : Code × Context)
        → (out.0 ≡ none) ⊎ Recorded ((key, value) ∷ []) ctx out.1
        → ((c : Context)
            → Valid c.txn
            → ((cmd_puts pairs c).0 ≡ none) ⊎ Recorded pairs c (cmd_puts pairs c).1)
        → ((next_put (cmd_puts pairs) out).0 ≡ none)
          ⊎ Recorded ((key, value) ∷ pairs) ctx (next_put (cmd_puts pairs) out).1
    by_put (none, ctx') h ih = inl refl
    by_put (some n, ctx') (inl f) ih = cc f
    by_put (some n, ctx') (inr p) ih = by_rest ctx' p (ih ctx' p.valid)
