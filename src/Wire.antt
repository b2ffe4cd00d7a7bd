-- ===== src/Wire.antt =====
-- The wire protocol of code/kproto.h, with the peer side of it in code/kserver.h.
pub mod Frame
pub mod Response
pub mod Request
mod Tests
use kynovo.Common.{ℕ}

-- K_FRAME_HEADER, K_FRAME_MAX, K_KEY_MAX, K_VALUE_MAX
abbrev pub frame_header : ℕ
frame_header = 12

abbrev pub frame_max : ℕ
frame_max = 1048576

abbrev pub key_max : ℕ
key_max = 65536

abbrev pub value_max : ℕ
value_max = 524288

-- K_CLIENT_MAGIC, K_PEER_MAGIC, K_WIRE_VERSION, K_PEER_WIRE_VERSION
abbrev pub client_magic : ℕ
client_magic = 0x314c434b

abbrev pub peer_magic : ℕ
peer_magic = 0x3152504b

-- K_HOST_MAX, K_RESPONSE_BODY_MAX
abbrev pub host_max : ℕ
host_max = 64

abbrev pub response_body_max : ℕ
response_body_max = 1048320

-- K_CAS_SETNX, K_CAS_CMP, K_CAS_PACKED_MAX
abbrev pub cas_setnx : ℕ
cas_setnx = 0

abbrev pub cas_cmp : ℕ
cas_cmp = 1

abbrev pub cas_packed_max : ℕ
cas_packed_max = 1048585

-- K_REQ_GET, K_REQ_MGET, K_REQ_COUNT, K_REQ_MIN, K_REQ_MAX, K_REQ_FCALL and the operations' requests
abbrev pub req_get : ℕ
req_get = 1

abbrev pub req_mget : ℕ
req_mget = 2

abbrev pub req_count : ℕ
req_count = 10

abbrev pub req_min : ℕ
req_min = 11

abbrev pub req_max : ℕ
req_max = 12

abbrev pub req_fcall : ℕ
req_fcall = 14

abbrev pub req_info : ℕ
req_info = 15

abbrev pub req_stats : ℕ
req_stats = 16

abbrev pub req_member : ℕ
req_member = 17

abbrev pub req_members : ℕ
req_members = 18

abbrev pub req_help : ℕ
req_help = 19

abbrev pub req_shutdown : ℕ
req_shutdown = 20

abbrev pub req_topology : ℕ
req_topology = 21

-- K_REQ_SET, K_REQ_MSET, K_REQ_RSET, K_REQ_DEL, K_REQ_MDEL, K_REQ_RDEL, K_REQ_CAS
abbrev pub req_set : ℕ
req_set = 4

abbrev pub req_mset : ℕ
req_mset = 5

abbrev pub req_rset : ℕ
req_rset = 6

abbrev pub req_del : ℕ
req_del = 7

abbrev pub req_mdel : ℕ
req_mdel = 8

abbrev pub req_rdel : ℕ
req_rdel = 9

abbrev pub req_cas : ℕ
req_cas = 13

-- K_RAFT_COMMAND_MAX
abbrev pub command_max : ℕ
command_max = 1048320
