-- ===== src/Server/Mask.antt =====
-- The codec of id sets in code/kserver.h: k_buf_mask and k_reader_mask. A set is the list of its ids,
-- each a word.
use kynovo.Common.{
  ℕ, zero, suc, ◌^◌, ◌<◌, ◌≤◌, ◌≡◌, List, [], ◌∷◌, ◌++◌, Bool, false, Option, none, some,
  if◌then◌else◌, ltb, ◌==◌, ◌||◌, arith, length, append_assoc, refl, ap, ◌∙◌, All,
}
use kynovo.Common.Memory.{allocate}
use kynovo.Bytes.Word.{Bytes, write_u32}
use kynovo.Bytes.Buf.{Buf, set_err, empty_buf}
use kynovo.Bytes.Fields.{puts, joined, puts-Writes}
use kynovo.Bytes.Reader.{Reader, reader, reader_u32, reader_u32-write}

-- K_MAX_NODES
abbrev pub max_nodes : ℕ
max_nodes = 16

unfoldable pub id_fields : List ℕ → List Bytes
id_fields [] = []
id_fields (id ∷ ids) = write_u32 id ∷ id_fields ids

abbrev pub mask_fields : List ℕ → List Bytes
mask_fields ids = write_u32 (length ids) ∷ id_fields ids

unfoldable pub buf_mask : List ℕ → Buf → Buf
buf_mask ids b = if ltb max_nodes (length ids) then set_err b else puts (mask_fields ids) b

unfoldable pub read_ids : ℕ → Reader → List ℕ × Reader
read_ids zero r = ([], r)
read_ids (suc count) r =
    let (id, r1) = reader_u32 r in let (ids, r2) = read_ids count r1 in (id ∷ ids, r2)

-- `none` is -1.
unfoldable pub reader_mask : List Bool → Reader → Option (List ℕ) × Reader × List Bool
reader_mask memory r =
    let (count, r1) = reader_u32 r in
    let (got, memory') = allocate memory in
    let (ids, r2) = read_ids count r1 in
    if r1.err || ltb max_nodes count
    then (none, r1, memory)
    else if count == 0
    then (some [], r1, memory)
    else if got
    then (if r2.err then none else some ids, r2, memory')
    else (none, r1, memory')

read_ids-fields :
    (ids : List ℕ) (p : Bytes)
    → All (λ id. id < 2 ^ 32) ids
    → read_ids (length ids) (reader (joined (id_fields ids) ++ p)) ≡ (ids, reader p)
unfolding read_ids id_fields joined
read_ids-fields [] p a = refl
read_ids-fields (id ∷ ids) p (h, a) =
    let rest : Bytes = joined (id_fields ids) ++ p in
    rw
      (
        append_assoc (write_u32 id) (joined (id_fields ids)) p,
        reader_u32-write id rest h,
        read_ids-fields ids p a,
      )
      refl

reader_mask-fields :
    (ids : List ℕ) (p : Bytes)
    → All (λ id. id < 2 ^ 32) ids
    → length ids ≤ max_nodes
    → reader_mask [] (reader (joined (mask_fields ids) ++ p)) ≡ (some ids, reader p, [])
unfolding reader_mask joined allocate id_fields
reader_mask-fields [] p a h =
    rw (append_assoc (write_u32 0) [] p, reader_u32-write 0 p (omega arith)) refl
reader_mask-fields (id ∷ ids) p a h =
    let rest : Bytes = joined (id_fields (id ∷ ids)) ++ p in
    let few : ltb max_nodes (length (id ∷ ids)) ≡ false = ground arith in
    let some_ids : (length (id ∷ ids) == 0) ≡ false = ground arith in
    rw
      (
        append_assoc (write_u32 (length (id ∷ ids))) (joined (id_fields (id ∷ ids))) p,
        reader_u32-write (length (id ∷ ids)) rest (omega arith),
        read_ids-fields (id ∷ ids) p a,
        few,
        some_ids,
      )
      refl

-- A set of at most `K_MAX_NODES` ids that was written to a buffer with no error is read back, with
-- memory left, whatever follows it.
pub reader_mask-buf_mask :
    (ids : List ℕ) (p : Bytes) (memory : List Bool)
    → All (λ id. id < 2 ^ 32) ids
    → length ids ≤ max_nodes
    → (buf_mask ids (empty_buf memory)).err ≡ false
    → reader_mask [] (reader ((buf_mask ids (empty_buf memory)).bytes ++ p))
      ≡ (some ids, reader p, [])
unfolding buf_mask
reader_mask-buf_mask ids p memory a h fine =
    let few : ltb max_nodes (length ids) ≡ false = ground arith in
    let (start, bytes) =
      (puts-Writes (mask_fields ids) (empty_buf memory)).wrote (rw few at fine) in
    rw few (ap (λ bs. reader_mask [] (reader (bs ++ p))) bytes ∙ reader_mask-fields ids p a h)
