-- ===== src/Server/Dispatch.antt =====
-- k_server_apply_command of code/kserver.h: the first byte of a command says which branch applies it.
-- The branches K_OP_RSET and K_OP_ADDR are not modelled: for these the result is `none`. The printing
-- of a number for the client (`sprintf`) is a parameter.
use kynovo.Common.{
  ℕ, suc, ◌≡◌, ◌≢◌, [], ◌∷◌, false, Option, none, some, if◌then◌else◌, ◌==◌, ◌||◌, length, refl,
  sym, arith,
}
use kynovo.Common.Memory.{Rc, fail}
use kynovo.Bytes.Word.{Bytes}
use kynovo.Bytes.Reader.{reader, reader_u8, reader_word}
use kynovo.Server.{op_set, op_mset, op_rset, op_del, op_mdel, op_fcall, op_rdel, op_cas, op_addr}
use kynovo.Server.State.{Server}
use kynovo.Server.Apply.{apply_exec, apply_batch, apply_set, apply_del}
use kynovo.Server.Ranges.{apply_rdel}
use kynovo.Server.Cas.{apply_cas}

abbrev pub opcode : Bytes → ℕ
opcode command = (reader_u8 (reader command)).0

module _ (decimal : ℕ → Bytes) where
  unfoldable pub dispatch : ℕ → Bytes → Server → Option (Rc × Server)
  dispatch op command s =
      if op == op_mset || op == op_mdel
      then some (apply_batch decimal command s)
      else if op == op_rset
      then none
      else if op == op_fcall
      then some (apply_exec command s)
      else if op == op_rdel
      then some (apply_rdel decimal command s)
      else if op == op_cas
      then some (apply_cas command s)
      else if op == op_addr
      then none
      else if op == op_set
      then some (apply_set command s)
      else if op == op_del
      then some (apply_del command s)
      else some (fail, s)

  unfoldable pub apply_command : Bytes → Server → Option (Rc × Server)
  apply_command command s =
      if length command == 0 then some (fail, s) else dispatch (opcode command) command s

  -- A command with an operation is not empty, and goes to the operation's branch.
  pub apply_command_lem :
      (op : ℕ) (command : Bytes) (s : Server)
      → op ≢ 0
      → opcode command ≡ op
      → apply_command command s ≡ dispatch op command s
  unfolding apply_command reader_word
  apply_command_lem op [] s h e = absurd (h (sym e))
  apply_command_lem op (b ∷ command) s h e =
      let some_byte : (suc (length command) == 0) ≡ false = ground arith in rw (some_byte, e) refl
