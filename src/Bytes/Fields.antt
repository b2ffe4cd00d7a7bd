-- ===== src/Bytes/Fields.antt =====
-- Calls of k_buf_* of code/kbase.h one after the other.
use kynovo.Common.{
  ◌+◌, ◌^◌, ◌<◌, List, [], ◌∷◌, ◌++◌, arith, length, length-append, append-nil, sym, ap,
}
use kynovo.Bytes.Word.{Bytes, write_u32}
use kynovo.Bytes.Buf.{Buf, len, put, Writes, Writes-trans, put-Writes, Open, put-Open}

-- A length and its bytes.
abbrev pub sized : Bytes → List Bytes → List Bytes
sized bs fields = write_u32 (length bs) ∷ bs ∷ fields

unfoldable pub puts : List Bytes → Buf → Buf
puts [] b = b
puts (bs ∷ fields) b = puts fields (put bs b)

unfoldable pub joined : List Bytes → Bytes
joined [] = []
joined (bs ∷ fields) = bs ++ joined fields

-- A run of writes is one write of all the bytes.
pub puts-Writes : (fields : List Bytes) (b : Buf) → Writes (joined fields) b (puts fields b)
unfolding puts joined
puts-Writes [] b = record { wrote = λ e. (e, sym (append-nil b.bytes)); within = λ h. h }
puts-Writes (bs ∷ fields) b =
    Writes-trans bs (joined fields) b (put bs b) (puts fields (put bs b)) (put-Writes bs b)
      (puts-Writes fields (put bs b))

pub puts-Open :
    (fields : List Bytes) (b : Buf)
    → Open b
    → len b + length (joined fields) < 2 ^ 32
    → Open (puts fields b)
unfolding puts joined
puts-Open [] b o room = o
puts-Open (bs ∷ fields) b o room =
    let total = length-append bs (joined fields) in
    let o' = put-Open bs b o (omega arith) in
    let (fine, bytes) = (put-Writes bs b).wrote o'.fine in
    puts-Open fields (put bs b) o' (omega (arith, ap length bytes, length-append b.bytes bs))
