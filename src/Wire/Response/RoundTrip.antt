-- ===== src/Wire/Response/RoundTrip.antt =====
-- Encoding and decoding of the responses of code/kserver.h and code/kproto.h.
use kynovo.Common.{
  ◌+◌, ◌≡◌, [], ◌++◌, some, false, ltb, leb, ◌==◌, arith, length, length-append, refl, ap, ◌∙◌,
  Bool-cases, inl, inr,
}
use kynovo.Common.Memory.{allocate, ok}
use kynovo.Bytes.Word.{Bytes, write_u8, write_u16, write_u32}
use kynovo.Bytes.Buf.{empty_buf, len, Open}
use kynovo.Bytes.Fields.{puts, joined, puts-Writes, puts-Open}
use kynovo.Bytes.Reader.{reader_u8-write, reader_u16-write, reader_u32-write, reader_bytes-append}
use kynovo.Wire.{frame_max, host_max}
use kynovo.Wire.Response.{Response, IsResponse, response_fields, response_payload, response_decode}

-- The bytes of a response decode to it.
decode-joined :
    (r : Response) → IsResponse r → response_decode [] (joined (response_fields r)) ≡ (some r, [])
unfolding response_decode joined allocate
decode-joined r h =
    let short : leb host_max (length r.host) ≡ false = ground (arith, h.host) in
    let p8 : Bytes = r.body ++ [] in
    let p7 : Bytes = write_u32 (length r.body) ++ p8 in
    let p6 : Bytes = write_u16 r.port ++ p7 in
    let p5 : Bytes = r.host ++ p6 in
    let p4 : Bytes = write_u16 (length r.host) ++ p5 in
    let p3 : Bytes = write_u32 r.leader_id ++ p4 in
    let p2 : Bytes = write_u8 r.status ++ p3 in
    rw
      (
        reader_u32-write r.request_id p2 h.request_id,
        reader_u8-write r.status p3 h.status,
        reader_u32-write r.leader_id p4 h.leader_id,
        reader_u16-write (length r.host) p5 (omega (arith, h.host)),
        reader_bytes-append r.host p6,
        reader_u16-write r.port p7 h.port,
        reader_u32-write (length r.body) p8 (omega (arith, h.body)),
        reader_bytes-append r.body [],
        short,
      )
      (elim (Bool-cases (length r.body == 0)) [
        | inl none' ↦ rw none' refl
        | inr some' ↦ rw some' refl
      ])

length-fields :
    (r : Response) → length (joined (response_fields r)) ≡ 17 + length r.host + length r.body
unfolding joined write_u8 write_u16 write_u32
length-fields r = omega (
  arith,
  length-append r.host (write_u16 r.port ++ (write_u32 (length r.body) ++ (r.body ++ []))),
  length-append r.body [],
)

-- With memory left, a response whose fields fit is encoded, and its payload decodes to the same
-- response.
pub response_decode-payload :
    (r : Response)
    → IsResponse r
    → ((response_payload [] r).0 ≡ ok)
      × (response_decode [] (response_payload [] r).1.bytes ≡ (some r, []))
unfolding response_payload
response_decode-payload r h =
    let size = length-fields r in
    let open' : Open (puts (response_fields r) (empty_buf [])) =
      puts-Open (response_fields r) (empty_buf []) (record { fine = refl; memory = refl })
        (omega (arith, size, h.host, h.body)) in
    let (fine, bytes) = (puts-Writes (response_fields r) (empty_buf [])).wrote open'.fine in
    let short : ltb 65535 (length r.host) ≡ false = ground (arith, h.host) in
    let fits : ltb frame_max (len (puts (response_fields r) (empty_buf []))) ≡ false =
      ground (arith, size, ap length bytes, h.host, h.body) in
    rw short (simp (open'.fine, fits) (refl, ap (response_decode []) bytes ∙ decode-joined r h))
