-- ===== src/Wire/Request.antt =====
-- The payload of a request: k_request_payload of code/kproto.h.
pub mod Sent
use kynovo.Common.{
  ℕ, ◌≡◌, ◌⊎◌, ◌≤◌, List, [], ◌∷◌, ◌++◌, Bool, true, false, if◌then◌else◌, ltb, ◌==◌, ◌||◌, arith,
  length, refl, sym, append-nil, ap, ◌∙◌, Bool-cases, inl, inr,
}
use kynovo.Common.Memory.{Rc, ok, fail}
use kynovo.Bytes.Word.{Bytes, write_u32}
use kynovo.Bytes.Buf.{Buf, len, empty_buf, set_err, Writes}
use kynovo.Bytes.Fields.{puts, sized, joined, puts-Writes}
use kynovo.Wire.{
  frame_max, cas_packed_max, req_set, req_fcall, req_cas, req_rset, req_rdel, req_count, req_min,
  req_max, req_get, req_del, req_mset, req_mdel, req_mget, req_member, req_info, req_shutdown,
  req_help, req_stats, req_members, req_topology,
}
use kynovo.Wire.Response.{checked}

-- What a type of request carries, and whether its key must not be empty.
pub data Shape : Type 0 where
  pair : (needs_key : Bool) → Shape
  key_only listed bare unknown : Shape

unfoldable pub shape_of : ℕ → Shape
shape_of type =
    if type == req_set || type == req_fcall || type == req_cas || type == req_rset
    then pair true
    else if type == req_rdel || type == req_count || type == req_min || type == req_max
    then pair false
    else if type == req_get || type == req_del
    then key_only
    else if type == req_mset || type == req_mdel || type == req_mget || type == req_member
    then listed
    else if type == req_info
        || type == req_shutdown
        || type == req_help
        || type == req_stats
        || type == req_members
        || type == req_topology
    then bare
    else unknown

abbrev pub has_key : Bytes → Buf → Buf
has_key key b = if length key == 0 then set_err b else b

unfoldable pub body : Shape → Bytes → Bytes → Buf → Buf
body (pair true) key value b = puts (sized key (sized value [])) (has_key key b)
body (pair false) key value b = puts (sized key (sized value [])) b
body key_only key value b = puts (sized key []) (has_key key b)
body listed key value b = puts (key ∷ []) (has_key key b)
body bare key value b = b
body unknown key value b = set_err b

unfoldable pub request_payload : ℕ → ℕ → Bytes → Bytes → Buf → Rc × Buf
request_payload request_id type key value payload =
    if ltb frame_max (length key) || ltb cas_packed_max (length value)
    then (fail, payload)
    else checked (
        body (shape_of type) key value
          (puts (write_u32 request_id ∷ []) (empty_buf payload.memory)))
