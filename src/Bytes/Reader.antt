-- ===== src/Bytes/Reader.antt =====
-- k_reader of code/kbase.h. `rest` is what lies between the offset and the end.
use kynovo.Common.{
  [], take-append, drop-append, ℕ, ◌^◌, ◌<◌, ◌≡◌, ◌++◌, Bool, true, false, Option, none, some, not,
  ◌&&◌, leb, if◌then◌else◌, arith, length, length-append, refl, ap, ◌∙◌, take, drop,
}
use kynovo.Bytes.Word.{
  Bytes, write_u8, write_u16, write_u32, write_u64, read_u8, read_u16, read_u32, read_u64,
  read-write_u8, read-write_u16, read-write_u32, read-write_u64,
}

pub record Reader : Type 0 where
  pub rest : Bytes
  pub err : Bool

abbrev pub reader : Bytes → Reader
reader bs = record { rest = bs; err = false }

abbrev pub has_room : ℕ → Reader → Bool
has_room size r = not r.err && leb size (length r.rest)

abbrev pub skip : ℕ → Reader → Reader
skip size r = record r { rest = drop size r.rest }

abbrev fail_read : Reader → Reader
fail_read r = record r { err = true }

-- A read that has too few bytes left gives 0, and the error stays.
unfoldable pub reader_word : ℕ → (Bytes → ℕ) → Reader → ℕ × Reader
reader_word size read r = if has_room size r then (read r.rest, skip size r) else (0, fail_read r)

abbrev pub reader_u8 : Reader → ℕ × Reader
reader_u8 r = reader_word 1 read_u8 r

abbrev pub reader_u16 : Reader → ℕ × Reader
reader_u16 r = reader_word 2 read_u16 r

abbrev pub reader_u32 : Reader → ℕ × Reader
reader_u32 r = reader_word 4 read_u32 r

abbrev pub reader_u64 : Reader → ℕ × Reader
reader_u64 r = reader_word 8 read_u64 r

-- `none` is a null pointer.
unfoldable pub reader_bytes : ℕ → Reader → Option Bytes × Reader
reader_bytes size r =
    if has_room size r then (some (take size r.rest), skip size r) else (none, fail_read r)

-- The bytes at a pointer, none at a null pointer.
abbrev pub bytes_of : Option Bytes → Bytes
bytes_of none = []
bytes_of (some bs) = bs

-- Everything was read, and nothing beyond.
abbrev pub is_done : Reader → Bool
is_done r = not r.err && (leb (length r.rest) 0)

has_room-append : (bs p : Bytes) → has_room (length bs) (reader (bs ++ p)) ≡ true
has_room-append bs p = ground (arith, length-append bs p)

pub reader_word-append :
    (size : ℕ) (read : Bytes → ℕ) (bs p : Bytes)
    → size ≡ length bs
    → reader_word size read (reader (bs ++ p)) ≡ (read (bs ++ p), reader p)
unfolding reader_word
reader_word-append size read bs p e = rw (e, has_room-append bs p, drop-append bs p) refl

pub reader_bytes-append :
    (bs p : Bytes) → reader_bytes (length bs) (reader (bs ++ p)) ≡ (some bs, reader p)
unfolding reader_bytes
reader_bytes-append bs p = rw (has_room-append bs p, drop-append bs p, take-append bs p) refl

-- A reader gets back what the buffer's word writers wrote, whatever follows it.
pub reader_u8-write :
    (v : ℕ) (p : Bytes) → v < 2 ^ 8 → reader_u8 (reader (write_u8 v ++ p)) ≡ (v, reader p)
unfolding write_u8
reader_u8-write v p h =
    reader_word-append 1 read_u8 (write_u8 v) p refl ∙ ap (λ n. (n, reader p)) (read-write_u8 v p h)

pub reader_u16-write :
    (v : ℕ) (p : Bytes) → v < 2 ^ 16 → reader_u16 (reader (write_u16 v ++ p)) ≡ (v, reader p)
unfolding write_u16
reader_u16-write v p h =
    reader_word-append 2 read_u16 (write_u16 v) p refl
    ∙ ap (λ n. (n, reader p)) (read-write_u16 v p h)

pub reader_u32-write :
    (v : ℕ) (p : Bytes) → v < 2 ^ 32 → reader_u32 (reader (write_u32 v ++ p)) ≡ (v, reader p)
unfolding write_u32
reader_u32-write v p h =
    reader_word-append 4 read_u32 (write_u32 v) p refl
    ∙ ap (λ n. (n, reader p)) (read-write_u32 v p h)

pub reader_u64-write :
    (v : ℕ) (p : Bytes) → v < 2 ^ 64 → reader_u64 (reader (write_u64 v ++ p)) ≡ (v, reader p)
unfolding write_u64
reader_u64-write v p h =
    reader_word-append 8 read_u64 (write_u64 v) p refl
    ∙ ap (λ n. (n, reader p)) (read-write_u64 v p h)
