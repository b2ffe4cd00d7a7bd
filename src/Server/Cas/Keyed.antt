-- ===== src/Server/Cas/Keyed.antt =====
-- The key of a conditional write that is read from a command of code/kserver.h is one that the map
-- accepts.
use kynovo.Common.{
  ℕ, ◌≡◌, ◌≤◌, [], ◌∷◌, true, false, Option, none, some, ltb, ◌==◌, ◌||◌, inl, inr, refl, sym, ap,
  ◌∙◌, arith, length, length-take, Bool-cases,
}
use kynovo.Bytes.Word.{Bytes}
use kynovo.Bytes.Reader.{
  Reader, reader, reader_u8, reader_u32, reader_word, reader_bytes, has_room, is_done, bytes_of,
}
use kynovo.Wire.{key_max, value_max, cas_packed_max, cas_cmp, cas_setnx}
use kynovo.Treap.Key.{Key}
use kynovo.Treap.Map.{is_empty, too_long}
use kynovo.Server.Cas.{Cas, read_cas, read_packed}

reader_word_err :
    (size : ℕ) (read : Bytes → ℕ) (r : Reader)
    → (reader_word size read r).1.err ≡ false
    → r.err ≡ false
unfolding reader_word
reader_word_err size read r e = elim (Bool-cases (has_room size r)) [
  | inl room ↦ rw room at e
  | inr short ↦ cc (rw short at e)
]

reader_bytes_err :
    (size : ℕ) (r : Reader)
    → (reader_bytes size r).1.err ≡ false
    → (r.err ≡ false) × (length (bytes_of (reader_bytes size r).0) ≡ size)
unfolding reader_bytes
reader_bytes_err size r e = elim (Bool-cases (has_room size r)) [
  | inl room ↦ rw room (rw room at e, omega (arith, length-take size r.rest, fits_of room))
  | inr short ↦ cc (rw short at e)
]
  where
    fits_of : has_room size r ≡ true → size ≤ length r.rest
    fits_of h = ground arith

done_err : (r : Reader) → is_done r ≡ true → r.err ≡ false
done_err r h = ground arith

key_of : Option Cas → Key
key_of none = []
key_of (some cas) = cas.key

read_packed_key :
    (key : Key) (packed : Bytes) (cas : Cas) → read_packed key packed ≡ some cas → cas.key ≡ key
unfolding read_packed key_of
read_packed_key key packed cas e =
    let (mode, r1) = reader_u8 (reader packed) in
    let (new_len, r2) = reader_u32 r1 in
    let (new, r3) = reader_bytes new_len r2 in
    let (old_len, r4) = reader_u32 r3 in
    let r5 = (reader_bytes old_len r4).1 in
    elim (Bool-cases (ltb value_max new_len)) [
      | inl long ↦ cc (rw long at e)
      | inr new_ok ↦ elim (Bool-cases (mode == cas_cmp)) [
        | inl compares ↦ elim (Bool-cases (ltb value_max old_len)) [
          | inl long ↦ cc (rw (new_ok, compares, long) at e)
          | inr old_ok ↦ elim (Bool-cases (is_done r5)) [
            | inl over ↦ sym (ap key_of (rw (new_ok, compares, old_ok, over) at e))
            | inr more ↦ cc (rw (new_ok, compares, old_ok, more) at e)
          ]
        ]
        | inr other ↦ elim (Bool-cases (mode == cas_setnx)) [
          | inl sets ↦ elim (Bool-cases (is_done r3)) [
            | inl over ↦ sym (ap key_of (rw (new_ok, other, sets, over) at e))
            | inr more ↦ cc (rw (new_ok, other, sets, more) at e)
          ]
          | inr unknown ↦ cc (rw (new_ok, other, unknown) at e)
        ]
      ]
    ]

-- Not empty, and not too long for a node.
pub record IsKey (key : Key) : Type 0 where
  pub nonempty : is_empty key ≡ false
  pub short : too_long key ≡ false

length-IsKey : (key : Key) → (length key == 0 || ltb key_max (length key)) ≡ false → IsKey key
length-IsKey [] h = cc h
length-IsKey (b ∷ key) h = record { nonempty = refl; short = ground arith }

pub read_cas-IsKey : (command : Bytes) (cas : Cas) → read_cas command ≡ some cas → IsKey cas.key
unfolding read_cas
read_cas-IsKey command cas e =
    let (op, r0) = reader_u8 (reader command) in
    let (key_len, r1) = reader_u32 r0 in
    let (key, r2) = reader_bytes key_len r1 in
    let (value_len, r3) = reader_u32 r2 in
    let (value, r4) = reader_bytes value_len r3 in
    elim (Bool-cases (key_len == 0 || ltb key_max key_len)) [
      | inl off ↦ cc (rw off at e)
      | inr key_ok ↦ elim (Bool-cases (ltb cas_packed_max value_len)) [
        | inl long ↦ cc (rw (key_ok, long) at e)
        | inr value_ok ↦ elim (Bool-cases (is_done r4)) [
          | inr more ↦ cc (rw (key_ok, value_ok, more) at e)
          | inl over ↦
              let same =
                read_packed_key (bytes_of key) (bytes_of value) cas
                  (rw (key_ok, value_ok, over) at e) in
              let fine3 = (reader_bytes_err value_len r3 (done_err r4 over)).0 in
              let size = (reader_bytes_err key_len r1 (reader_word_err 4 _ r2 fine3)).1 in
              length-IsKey cas.key
                (ap (λ (n : ℕ). n == 0 || ltb key_max n) (ap length same ∙ size) ∙ key_ok)
        ]
      ]
    ]
