-- ===== src/Bytes/Tests.antt =====
-- The buffers at concrete inputs.
use kynovo.Common.{refl, ◌≡◌, List, [], ◌∷◌, true, false}
use kynovo.Bytes.Word.{Bytes, write_u16}
use kynovo.Bytes.Buf.{Buf, empty_buf, Writes}
use kynovo.Bytes.Crc.{crc32, crc32_update}
use kynovo.Bytes.Fields.{puts, joined, puts-Writes}

abbrev fields : List Bytes
fields = write_u16 513 ∷ (9 ∷ 9 ∷ []) ∷ []

-- An allocator that grants one allocation and denies the next.
abbrev start : Buf
start = empty_buf (true ∷ false ∷ [])

puts-Writes_example : Writes (joined fields) start (puts fields start)
puts-Writes_example = puts-Writes fields start

-- The checksum of the digits 1 to 9, the usual test of its polynomial.
digits : crc32 (49 ∷ 50 ∷ 51 ∷ 52 ∷ 53 ∷ 54 ∷ 55 ∷ 56 ∷ 57 ∷ []) ≡ 0xcbf43926
unfolding crc32 crc32_update
digits = refl
