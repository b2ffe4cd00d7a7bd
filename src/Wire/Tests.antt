-- ===== src/Wire/Tests.antt =====
-- The wire protocol at concrete inputs.
use kynovo.Common.{false, ℕ, ◌≡◌, List, [], ◌∷◌, ◌++◌, refl, arith, some}
use kynovo.Common.Memory.{allocate, ok}
use kynovo.Bytes.Word.{write_u32, Bytes, read_u32, read_u16, read_u8}
use kynovo.Bytes.Buf.{Buf, empty_buf}
use kynovo.Bytes.Fields.{joined}
use kynovo.Wire.Request.{shape_of, request_payload}
use kynovo.Wire.Request.Sent.{fields_of, request_payload_ok}
use kynovo.Wire.{client_magic, req_get}
use kynovo.Wire.Frame.{
  after, at_front, feed_loop, fed, rx_append, feed_appended, frame_header_build, front, frame, Rx,
  Verdict, taken, rx_feed,
}
use kynovo.Wire.Frame.Chunks.{rx_feed-append}
use kynovo.Wire.Frame.Loop.{seen, feed_loop_ends}
use kynovo.Wire.Frame.RoundTrip.{front-build}
use kynovo.Wire.Response.{Response, response_payload, response_decode}
use kynovo.Wire.Response.RoundTrip.{response_decode-payload}

abbrev payload : Bytes
payload = 7 ∷ 8 ∷ 9 ∷ []

front-build_example :
    front client_magic (frame_header_build client_magic 4 3 ++ (payload ++ payload))
    ≡ frame 4 payload payload
front-build_example =
    front-build client_magic 4 payload payload (omega arith) (omega arith) (omega arith)

abbrev moved : Response
moved = record {
  request_id = 70000;
  status = 3;
  leader_id = 2;
  host = 104 ∷ 50 ∷ [];
  port = 7001;
  body = 5 ∷ [];
}

response_decode-payload_example :
    ((response_payload [] moved).0 ≡ ok)
    × (response_decode [] (response_payload [] moved).1.bytes ≡ (some moved, []))
response_decode-payload_example = response_decode-payload moved (record {
  request_id = omega arith;
  status = omega arith;
  leader_id = omega arith;
  host = omega arith;
  port = omega arith;
  body = omega arith;
})

-- A handler that keeps the payloads in a list.
abbrev keep_payload : ℕ → Bytes → List Bytes → Verdict × List Bytes
keep_payload type bs s = (taken, bs ∷ s)

abbrev idle : Rx
idle = record { bytes = []; cap = 0; memory = [] }

-- A frame that is cut within its header.
abbrev cut : Bytes
cut = 75 ∷ 67 ∷ 76 ∷ 49 ∷ 1 ∷ []

abbrev rest : Bytes
rest = 4 ∷ 0 ∷ 0 ∷ 1 ∷ 0 ∷ 0 ∷ 0 ∷ 42 ∷ []

rx_feed-append_example :
    (let (rc, rx', s') = rx_feed client_magic keep_payload cut idle [] in
      seen client_magic keep_payload (rx_feed client_magic keep_payload rest rx' s'))
    ≡ seen client_magic keep_payload (rx_feed client_magic keep_payload (cut ++ rest) idle [])
unfolding rx_feed feed_appended rx_append allocate fed feed_loop at_front after front
rx_feed-append_example =
    rx_feed-append client_magic keep_payload cut rest idle [] (omega arith) refl refl

two_parts :
    seen client_magic keep_payload (rx_feed client_magic keep_payload (cut ++ rest) idle [])
    ≡ (ok, [], (42 ∷ []) ∷ [])
unfolding rx_feed feed_appended rx_append allocate fed feed_loop at_front after front read_u32
    read_u8 read_u16
two_parts = refl

feed_loop_ends_example :
    feed_loop client_magic keep_payload 13 (cut ++ rest) []
    ≡ feed_loop client_magic keep_payload 40 (cut ++ rest) []
feed_loop_ends_example =
    feed_loop_ends client_magic keep_payload 13 40 (cut ++ rest) [] (omega arith) (omega arith)

-- A buffer whose allocator denies
abbrev denied : Buf
denied = empty_buf (false ∷ [])

request_payload_ok_example : (request_payload 9 req_get payload [] (empty_buf [])).0 ≡ ok
unfolding shape_of fields_of joined write_u32
request_payload_ok_example =
    request_payload_ok 9 req_get payload [] (empty_buf []) refl refl (omega arith) (omega arith)
      (omega arith)
