-- ===== src/Raft/Client.antt =====
-- Client requests of code/raft.h: raft_submit and the entry point raft_recvfrom_client.
pub mod Submitted
pub mod OneChange
use kynovo.Common.{
  ℕ, zero, suc, ◌+◌, Bool, true, false, not, ◌&&◌, ◌||◌, Option, none, some, List, [], ◌∷◌, ◌++◌,
  map, ◌==◌, ltb, if◌then◌else◌,
}
use kynovo.Raft.Ids.{Mask, id_valid}
use kynovo.Raft.Log.{Log, Entry, entry_command, last_index}
use kynovo.Raft.State.{Ctx, Rc, ok, fail, is_leader, phase_running, allocate, set_memory}
use kynovo.Raft.Lead.{persist}
use kynovo.Raft.Progress.{is_nil}
use kynovo.Raft.Reads.{barrier, hurry}
use kynovo.Raft.Reconfig.Requests.{reconfig, add_learner, remove_learner, transfer}

-- raft_command: `none` is a size without a pointer, an empty command is `some []`.
pub record Command : Type 0 where
  pub cookie : ℕ
  pub bytes : Option (List ℕ)

abbrev pub bytes_of : Option (List ℕ) → List ℕ
bytes_of none = []
bytes_of (some bs) = bs

abbrev pub command_entry : ℕ → Command → Entry
command_entry term c = record {
  term = term;
  kind = entry_command;
  bytes = bytes_of c.bytes;
  cfg_old = [];
  cfg_new = [];
  cfg_learners = [];
}

abbrev has_bytes : Option (List ℕ) → Bool
has_bytes none = false
has_bytes (some bs) = true

abbrev pub command_ok : Command → Bool
command_ok c = not (c.cookie == 0) && has_bytes c.bytes

unfoldable pub commands_ok : List Command → Bool
commands_ok [] = true
commands_ok (c ∷ cs) = command_ok c && commands_ok cs

-- `raft_log_append_commands`, once it has memory: no entry has id lists.
abbrev pub append_commands : Log → ℕ → List Command → Log
append_commands log term cs = record log { entries = log.entries ++ map (command_entry term) cs }

-- The cookies with the indices of their entries, from `idx` on.
unfoldable pub pending_from : ℕ → List Command → List (ℕ × ℕ)
pending_from idx [] = []
pending_from idx (c ∷ cs) = (c.cookie, idx) ∷ pending_from (idx + 1) cs

abbrev pub submitted : List Command → Ctx → Ctx
submitted cs r = hurry (
    persist (record r {
      log = append_commands r.log r.current_term cs;
      waiting = record r.waiting {
        client_pending = r.waiting.client_pending ++ pending_from (last_index r.log + 1) cs;
      };
    }))

-- Room for the cookies, then room for the entries.
unfoldable pub enqueue : List Command → Ctx → Rc × Ctx
unfolding allocate pending_from
enqueue cs r =
    let (got, memory) = allocate r.output.memory in
    let (got', memory') = allocate memory in
    if not got
    then (fail, set_memory r memory)
    else if got'
    then (ok, submitted cs (set_memory r memory'))
    else (fail, set_memory r memory')

unfoldable pub submit : List Command → Ctx → Rc × Ctx
unfolding commands_ok enqueue
submit cs r =
    if is_nil cs
    then (ok, r)
    else if not (r.phase == phase_running)
    then (fail, r)
    else if not (is_leader r.role)
    then (fail, r)
    else if id_valid r.transfer.target
    then (fail, r)
    else if not (commands_ok cs)
    then (fail, r)
    else enqueue cs r

-- raft_client_message
pub data ClientMessage : Type 0 where
  client_submit : List Command → ClientMessage
  client_barrier : (cookie : ℕ) → ClientMessage
  client_reconfig : (cookie : ℕ) (ids : Mask) → ClientMessage
  client_add_learner client_remove_learner client_transfer : (cookie id : ℕ) → ClientMessage

unfoldable pub recvfrom_client : ClientMessage → Ctx → Rc × Ctx
unfolding submit barrier reconfig add_learner remove_learner transfer
recvfrom_client (client_submit cs) r = submit cs r
recvfrom_client (client_barrier cookie) r = barrier cookie r
recvfrom_client (client_reconfig cookie ids) r = reconfig cookie ids r
recvfrom_client (client_add_learner cookie id) r = add_learner cookie id r
recvfrom_client (client_remove_learner cookie id) r = remove_learner cookie id r
recvfrom_client (client_transfer cookie id) r = transfer cookie id r
