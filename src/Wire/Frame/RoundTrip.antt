-- ===== src/Wire/Frame/RoundTrip.antt =====
-- What k_frame_header_build of code/kproto.h writes, k_rx_feed reads.
use kynovo.Common.{
  take, drop, ℕ, ◌+◌, ◌^◌, ◌<◌, ◌≤◌, ◌≡◌, ◌++◌, true, false, ltb, arith, length, length-append,
  refl, ◌∙◌, take-append, drop-append, drop_add,
}
use kynovo.Bytes.Word.{
  Bytes, write_u8, write_u16, write_u32, read_u8, read_u16, read_u32, read-write_u8, read-write_u32,
}
use kynovo.Wire.{frame_header, frame_max}
use kynovo.Wire.Frame.{frame_header_build, version_of, frame, front, header_ok}

version_of-small : (magic : ℕ) → version_of magic < 2 ^ 8
version_of-small magic = ground arith

front_lem :
    (magic size : ℕ) (x : Bytes)
    → ltb (length x) frame_header ≡ false
    → header_ok magic x ≡ true
    → read_u32 (drop 8 x) ≡ size
    → size ≤ frame_max
    → ltb (length x) (frame_header + size) ≡ false
    → front magic x
      ≡ frame (read_u8 (drop 5 x)) (take size (drop frame_header x)) (drop (frame_header + size) x)
unfolding front
front_lem magic size x long head s small whole =
    let fits : ltb frame_max size ≡ false = ground arith in rw (long, head, s, fits, whole) refl

header_ok-build :
    (magic type size : ℕ) (tail : Bytes)
    → magic < 2 ^ 32
    → header_ok magic (frame_header_build magic type size ++ tail) ≡ true
unfolding frame_header_build write_u8 write_u16 write_u32 read_u8 read_u16 read_u32
header_ok-build magic type size tail h =
    let v = version_of-small magic in
    ground (arith, read-write_u32 magic tail h, read-write_u8 (version_of magic) tail v)

size-build :
    (magic type size : ℕ) (tail : Bytes)
    → size < 2 ^ 32
    → read_u32 (drop 8 (frame_header_build magic type size ++ tail)) ≡ size
unfolding frame_header_build write_u8 write_u16 write_u32 read_u32
size-build magic type size tail h = read-write_u32 size tail h

length-build :
    (magic type size : ℕ) (tail : Bytes)
    → length (frame_header_build magic type size ++ tail) ≡ frame_header + length tail
unfolding frame_header_build write_u8 write_u16 write_u32
length-build magic type size tail = omega arith

-- A frame of any kind of connection that is at most the greatest is found at the front of the
-- bytes, with its type and payload, whatever follows it.
pub front-build :
    (magic type : ℕ) (payload rest : Bytes)
    → magic < 2 ^ 32
    → type < 2 ^ 8
    → length payload ≤ frame_max
    → front magic (frame_header_build magic type (length payload) ++ (payload ++ rest))
      ≡ frame type payload rest
unfolding frame_header_build write_u8 write_u16 write_u32 read_u8
front-build magic type payload rest hm ht hp =
    let size = length payload in
    let tail = payload ++ rest in
    let x = frame_header_build magic type size ++ tail in
    let all = length-build magic type size tail in
    let total = length-append payload rest in
    front_lem magic size x (ground (arith, all)) (header_ok-build magic type size tail hm)
      (size-build magic type size tail (omega arith)) hp (ground (arith, all, total))
    ∙ rw
        (
          drop_add 12 size x,
          read-write_u8 type tail ht,
          take-append payload rest,
          drop-append payload rest,
        )
        refl
