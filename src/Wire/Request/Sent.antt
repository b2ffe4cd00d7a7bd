-- ===== src/Wire/Request/Sent.antt =====
-- Which requests k_request_payload of code/kproto.h encodes, and how.
use kynovo.Common.{
  ℕ, ◌+◌, ◌^◌, ◌<◌, length-append, ◌≡◌, ◌≤◌, List, [], ◌∷◌, ◌++◌, Bool, true, false, ltb, ◌==◌,
  ◌||◌, arith, length, refl, sym, append-nil, ap,
}
use kynovo.Common.Memory.{ok}
use kynovo.Bytes.Word.{Bytes, write_u32}
use kynovo.Bytes.Buf.{Buf, len, empty_buf, set_err, Open}
use kynovo.Bytes.Fields.{puts, sized, joined, puts-Writes, puts-Open}
use kynovo.Wire.{frame_max, cas_packed_max}
use kynovo.Wire.Request.{
  Shape, pair, key_only, listed, bare, unknown, shape_of, has_key, body, request_payload,
}

-- What a request of each shape looks like on the wire, behind its id.
unfoldable pub fields_of : Shape → Bytes → Bytes → List Bytes
fields_of (pair needs_key) key value = sized key (sized value [])
fields_of key_only key value = sized key []
fields_of listed key value = key ∷ []
fields_of bare key value = []
fields_of unknown key value = []

-- Whether a request of a shape may be sent.
abbrev pub is_sendable : Shape → Bytes → Bool
is_sendable (pair true) key = ltb 0 (length key)
is_sendable (pair false) key = true
is_sendable key_only key = ltb 0 (length key)
is_sendable listed key = ltb 0 (length key)
is_sendable bare key = true
is_sendable unknown key = false

-- What was written, if no error is set.
abbrev Sent : Bool → List Bytes → Buf → Buf → Type 0
Sent sendable fields b out =
    (sendable ≡ true) × (out.bytes ≡ b.bytes ++ joined fields) × (b.err ≡ false)

puts-Sent :
    (fields : List Bytes) (b : Buf)
    → (puts fields b).err ≡ false
    → Sent true fields b (puts fields b)
puts-Sent fields b h = let (fine, bytes) = (puts-Writes fields b).wrote h in (refl, bytes, fine)

has_key-Sent :
    (key : Bytes) (fields : List Bytes) (b : Buf)
    → (puts fields (has_key key b)).err ≡ false
    → Sent (ltb 0 (length key)) fields b (puts fields (has_key key b))
has_key-Sent [] fields b h = cc ((puts-Writes fields (set_err b)).wrote h).0
has_key-Sent (k ∷ key) fields b h =
    let some_key : (length (k ∷ key) == 0) ≡ false = ground arith in
    let positive : ltb 0 (length (k ∷ key)) ≡ true = ground arith in
    let (sent, bytes, fine) = puts-Sent fields b (rw some_key at h) in
    rw some_key (positive, bytes, fine)

body-Sent :
    (shape : Shape) (key value : Bytes) (b : Buf)
    → (body shape key value b).err ≡ false
    → Sent (is_sendable shape key) (fields_of shape key value) b (body shape key value b)
unfolding body fields_of joined
body-Sent (pair true) key value b h = has_key-Sent key (sized key (sized value [])) b h
body-Sent (pair false) key value b h = puts-Sent (sized key (sized value [])) b h
body-Sent key_only key value b h = has_key-Sent key (sized key []) b h
body-Sent listed key value b h = has_key-Sent key (key ∷ []) b h
body-Sent bare key value b h = (refl, sym (append-nil b.bytes), h)
body-Sent unknown key value b h = cc h

has_key-Open :
    (key : Bytes) (fields : List Bytes) (b : Buf)
    → Open b
    → ltb 0 (length key) ≡ true
    → len b + length (joined fields) < 2 ^ 32
    → Open (puts fields (has_key key b))
has_key-Open [] fields b o h room = cc h
has_key-Open (k ∷ key) fields b o h room =
    let some_key : (length (k ∷ key) == 0) ≡ false = ground arith in
    rw some_key (puts-Open fields b o room)

body-Open :
    (shape : Shape) (key value : Bytes) (b : Buf)
    → Open b
    → is_sendable shape key ≡ true
    → len b + length (joined (fields_of shape key value)) < 2 ^ 32
    → Open (body shape key value b)
unfolding body fields_of
body-Open (pair true) key value b o h room =
    has_key-Open key (sized key (sized value [])) b o h room
body-Open (pair false) key value b o h room = puts-Open (sized key (sized value [])) b o room
body-Open key_only key value b o h room = has_key-Open key (sized key []) b o h room
body-Open listed key value b o h room = has_key-Open key (key ∷ []) b o h room
body-Open bare key value b o h room = o
body-Open unknown key value b o h room = cc h

-- With memory left, a request that may be sent and fits a frame is encoded.
pub request_payload_ok :
    (request_id type : ℕ) (key value : Bytes) (payload : Buf)
    → payload.memory ≡ []
    → is_sendable (shape_of type) key ≡ true
    → length key ≤ frame_max
    → length value ≤ cas_packed_max
    → 4 + length (joined (fields_of (shape_of type) key value)) ≤ frame_max
    → (request_payload request_id type key value payload).0 ≡ ok
unfolding request_payload joined write_u32
request_payload_ok request_id type key value payload m h hk hv size =
    let id : List Bytes = write_u32 request_id ∷ [] in
    let start = puts id (empty_buf payload.memory) in
    let out = body (shape_of type) key value start in
    let four = length-id request_id in
    let opened =
      puts-Open id (empty_buf payload.memory) (record { fine = refl; memory = m })
        (omega (arith, four)) in
    let (e, head) = (puts-Writes id (empty_buf payload.memory)).wrote opened.fine in
    let sent =
      body-Open (shape_of type) key value start opened h
        (omega (arith, four, ap length head, size)) in
    let (may, bytes, started) = body-Sent (shape_of type) key value start sent.fine in
    let fits : (ltb frame_max (length key) || ltb cas_packed_max (length value)) ≡ false =
      ground arith in
    let small : ltb frame_max (len out) ≡ false = ground (
      arith,
      four,
      ap length head,
      ap length bytes,
      length-append start.bytes (joined (fields_of (shape_of type) key value)),
      size,
    ) in
    rw fits (simp (sent.fine, small) refl)
  where
    length-id : (n : ℕ) → length (joined (write_u32 n ∷ [])) ≡ 4
    length-id n = refl
