-- ===== src/Wire/Response.antt =====
-- Responses: k_response_payload of code/kserver.h and k_response_decode of code/kproto.h.
pub mod RoundTrip
use kynovo.Common.{
  ℕ, ◌+◌, ◌^◌, ◌<◌, ◌≤◌, ◌≡◌, List, [], ◌∷◌, ◌++◌, Option, none, some, Bool, true, false, not, ◌||◌,
  ltb, leb, ◌==◌, if◌then◌else◌, arith, length,
}
use kynovo.Common.Memory.{allocate, Rc, ok, fail}
use kynovo.Bytes.Word.{Bytes, write_u8, write_u16, write_u32}
use kynovo.Bytes.Buf.{Buf, empty_buf, len}
use kynovo.Bytes.Fields.{puts}
use kynovo.Bytes.Reader.{reader, reader_u8, reader_u16, reader_u32, reader_bytes, is_done, bytes_of}
use kynovo.Wire.{frame_max, host_max, response_body_max}

-- A response: what is encoded, and what is decoded. A null host is an empty one, and the leader's id
-- is a word.
pub record Response : Type 0 where
  pub request_id : ℕ
  pub status : ℕ
  pub leader_id : ℕ
  pub host : Bytes
  pub port : ℕ
  pub body : Bytes

-- The end of an encoder: a payload with an error, or one too large for a frame, is freed.
abbrev pub checked : Buf → Rc × Buf
checked b = if b.err || ltb frame_max (len b) then (fail, empty_buf b.memory) else (ok, b)

abbrev pub response_fields : Response → List Bytes
response_fields r =
    write_u32 r.request_id
    ∷ write_u8 r.status
    ∷ write_u32 r.leader_id
    ∷ write_u16 (length r.host)
    ∷ r.host
    ∷ write_u16 r.port
    ∷ write_u32 (length r.body)
    ∷ r.body
    ∷ []

unfoldable pub response_payload : List Bool → Response → Rc × Buf
response_payload memory r =
    if ltb 65535 (length r.host)
    then (fail, empty_buf memory)
    else checked (puts (response_fields r) (empty_buf memory))

-- The response, or `none` for -1.
unfoldable pub response_decode : List Bool → Bytes → Option Response × List Bool
response_decode memory bs =
    let (request_id, r1) = reader_u32 (reader bs) in
    let (status, r2) = reader_u8 r1 in
    let (leader_id, r3) = reader_u32 r2 in
    let (host_len, r4) = reader_u16 r3 in
    let (host, r5) = reader_bytes host_len r4 in
    let (port, r6) = reader_u16 r5 in
    let (body_size, r7) = reader_u32 r6 in
    let (body, r8) = reader_bytes body_size r7 in
    let (got, memory') = if body_size == 0 then (true, memory) else allocate memory in
    if not (is_done r8) || leb host_max host_len
    then (none, memory)
    else if got
    then (
      some record {
        request_id = request_id;
        status = status;
        leader_id = leader_id;
        host = bytes_of host;
        port = port;
        body = bytes_of body;
      },
      memory',
    )
    else (none, memory')

-- The fields fit their types, the host fits the decoder's array, and the body fits a frame.
pub record IsResponse (r : Response) : Type 0 where
  pub request_id : r.request_id < 2 ^ 32
  pub status : r.status < 2 ^ 8
  pub leader_id : r.leader_id < 2 ^ 32
  pub host : length r.host < host_max
  pub port : r.port < 2 ^ 16
  pub body : length r.body ≤ response_body_max
