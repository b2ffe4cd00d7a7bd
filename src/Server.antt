-- ===== src/Server.antt =====
-- The server of code/kserver.h.
pub mod State
pub mod Items
pub mod Apply
pub mod Atomic
pub mod Commands
pub mod Cas
pub mod Encode
pub mod Ranges
pub mod Mask
pub mod Answer
pub mod Dispatch
pub mod Meta
mod Tests
use kynovo.Common.{ℕ}

-- K_OP_SET, K_OP_MSET, K_OP_RSET, K_OP_DEL, K_OP_MDEL, K_OP_RDEL, K_OP_CAS, K_OP_FCALL, K_OP_ADDR
abbrev pub op_set : ℕ
op_set = 1

abbrev pub op_mset : ℕ
op_mset = 2

abbrev pub op_del : ℕ
op_del = 4

abbrev pub op_mdel : ℕ
op_mdel = 5

abbrev pub op_fcall : ℕ
op_fcall = 8

abbrev pub op_rset : ℕ
op_rset = 3

abbrev pub op_rdel : ℕ
op_rdel = 6

abbrev pub op_cas : ℕ
op_cas = 7

abbrev pub op_addr : ℕ
op_addr = 9
