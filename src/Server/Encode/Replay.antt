-- ===== src/Server/Encode/Replay.antt =====
-- The commands that code/kserver.h builds do what was asked when they are applied.
use mathlib.Core.Path.{subst}
use kynovo.Common.{
  ℕ, ◌+◌, ◌<◌, ◌≤◌, ◌≡◌, [], ◌∷◌, ◌++◌, false, none, some, ltb, ◌==◌, ◌||◌, arith, length,
  length-append, refl, sym, ap, ◌∙◌, inl, inr,
}
use kynovo.Common.Memory.{Rc, ok}
use kynovo.Bytes.Word.{Bytes, write_u8, write_u32}
use kynovo.Bytes.Buf.{len, empty_buf, Open}
use kynovo.Bytes.Fields.{puts, joined, puts-Writes, puts-Open}
use kynovo.Bytes.Reader.{Reader, reader, reader_u8-write, reader_u32-write, reader_bytes-append}
use kynovo.Wire.{key_max, value_max, command_max, req_set}
use kynovo.Treap.Key.{Key}
use kynovo.Treap.Map.{Treap, Code, set, is_empty, too_long}
use kynovo.Treap.Entries.{entries}
use kynovo.Treap.Refine.{put}
use kynovo.Treap.Update.{Valid, Updated, set_succeeds, set-Updated}
use kynovo.Server.{op_set}
use kynovo.Server.State.{Server}
use kynovo.Server.Dispatch.{opcode, dispatch, apply_command, apply_command_lem}
use kynovo.Server.Apply.{apply_set, single, end_single}
use kynovo.Server.Encode.{command_fields, build_write_command}
use kynovo.Server.Items.{apply_item, affected_by, put_item, read_set}

-- A key and a value that the protocol accepts.
pub record IsPair (key value : Bytes) : Type 0 where
  pub nonempty : 0 < length key
  pub key_fits : length key ≤ key_max
  pub value_fits : length value ≤ value_max

abbrev pub set_bytes : Bytes → Bytes → Bytes → Bytes
set_bytes key value p =
    write_u32 (length key) ++ (key ++ (write_u32 (length value) ++ (value ++ p)))

pub read_set-write :
    (key value p : Bytes)
    → IsPair key value
    → read_set (reader (set_bytes key value p))
      ≡ some (put_item (some key) (length value) (some value), reader p)
unfolding read_set
read_set-write key value p h =
    let key_ok : (length key == 0 || ltb key_max (length key)) ≡ false =
      ground (arith, h.nonempty, h.key_fits) in
    let value_ok : ltb value_max (length value) ≡ false = ground (arith, h.value_fits) in
    let p3 : Bytes = value ++ p in
    let p2 : Bytes = write_u32 (length value) ++ p3 in
    let p1 : Bytes = key ++ p2 in
    rw
      (
        reader_u32-write (length key) p1 (omega (arith, h.key_fits)),
        reader_bytes-append key p2,
        reader_u32-write (length value) p3 (omega (arith, h.value_fits)),
        reader_bytes-append value p,
        key_ok,
        value_ok,
      )
      refl

-- What K_OP_SET does with the command that was built for a key and a value.
apply_set-joined :
    (key value : Bytes) (s : Server)
    → IsPair key value
    → apply_set (joined (command_fields req_set key value)) s
      ≡ end_single s (apply_item (put_item (some key) (length value) (some value)) s.tree)
unfolding apply_set single joined command_fields
apply_set-joined key value s h =
    let p : Bytes = set_bytes key value [] in
    rw (reader_u8-write op_set p (omega arith), read_set-write key value [] h) refl

pub some_key-is_empty : (key : Key) → 0 < length key → is_empty key ≡ false
some_key-is_empty [] h = absurd (omega arith)
some_key-is_empty (b ∷ key) h = refl

set_ends :
    (key value : Key) (s : Server) (out : Code × Treap)
    → out.0 ≡ some 0
    → Updated key value s.tree out
    → ((end_single s (affected_by out)).0 ≡ ok)
      × Valid (end_single s (affected_by out)).1.tree
      × (entries (end_single s (affected_by out)).1.tree.root ≡ put key value (entries s.tree.root))
unfolding end_single
set_ends key value s (some n, t) o (inl (f, (v, es))) = (refl, v, es)
set_ends key value s (some n, t) o (inr (f, same)) = cc f
set_ends key value s (none, t) o u = cc o

length-command_fields :
    (key value : Bytes)
    → length (joined (command_fields req_set key value)) ≡ 9 + length key + length value
unfolding joined command_fields write_u8 write_u32
length-command_fields key value =
    omega
      (arith, length-append key (write_u32 (length value) ++ (value ++ [])), length-append value [])

opcode-joined : (key value : Bytes) → opcode (joined (command_fields req_set key value)) ≡ op_set
unfolding joined command_fields
opcode-joined key value =
    ap (λ (x : ℕ × Reader). x.0) (reader_u8-write op_set (set_bytes key value []) (omega arith))

-- With memory left, the command that is built for a SET of a key and a value that the protocol
-- accepts goes to the branch for SET, which puts the value under the key of a valid map, and
-- returns 0.
pub apply_set-build :
    (decimal : ℕ → Bytes) (key value : Bytes) (s : Server)
    → IsPair key value
    → Valid s.tree
    → s.tree.memory ≡ []
    → (let (rc, cmd) = build_write_command req_set key value (empty_buf []) in
        (rc ≡ ok)
        × (apply_command decimal cmd.bytes s ≡ some (apply_set cmd.bytes s))
        × ((apply_set cmd.bytes s).0 ≡ ok)
        × Valid (apply_set cmd.bytes s).1.tree
        × (entries (apply_set cmd.bytes s).1.tree.root ≡ put key value (entries s.tree.root)))
unfolding build_write_command apply_item dispatch
apply_set-build decimal key value s h v m =
    let size = length-command_fields key value in
    let fields = command_fields req_set key value in
    let open' : Open (puts fields (empty_buf [])) =
      puts-Open fields (empty_buf []) (record { fine = refl; memory = refl })
        (omega (arith, size, h.key_fits, h.value_fits)) in
    let (fine, bytes) = (puts-Writes fields (empty_buf [])).wrote open'.fine in
    let fits : ltb command_max (len (puts fields (empty_buf []))) ≡ false =
      ground (arith, size, ap length bytes, h.key_fits, h.value_fits) in
    let same = ap (λ bs. apply_set bs s) bytes ∙ apply_set-joined key value s h in
    let key_ok : is_empty key ≡ false = some_key-is_empty key h.nonempty in
    let short : too_long key ≡ false = ground (arith, h.key_fits) in
    let (returns, valid, es) =
      subst
        (λ (out : Rc × Server).
          (out.0 ≡ ok)
          × Valid out.1.tree
          × (entries out.1.tree.root ≡ put key value (entries s.tree.root)))
        (sym same)
        (set_ends key value s (set key value s.tree) (set_succeeds key value s.tree key_ok short m)
          (set-Updated key value s.tree v)) in
    let goes =
      apply_command_lem decimal op_set (puts fields (empty_buf [])).bytes s
        (λ e. absurd (omega (arith, e))) (ap opcode bytes ∙ opcode-joined key value) in
    simp (open'.fine, fits) (refl, goes, returns, valid, es)
