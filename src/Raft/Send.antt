-- ===== src/Raft/Send.antt =====
-- Heartbeats of a leader: raft_queue_append_entries of code/raft.h, and the part of raft_leader_tick
-- that sends a round.
pub mod Faithful
pub mod Received
use kynovo.Common.{
  ℕ, zero, suc, ◌+◌, ◌-◌, ◌%◌, ◌^◌, min, Bool, true, false, not, ◌&&◌, ◌||◌, List, [], ◌∷◌, ◌++◌,
  map, take, drop, length, ltb, leb, ◌==◌, if◌then◌else◌, keep, count_if, add32,
}
use kynovo.Raft.Log.{Log, Entry, last_index, term_at}
use kynovo.Raft.State.{
  Ctx, Peer, Output, SnapRead, Message, append_entries, request_vote, vote_result, append_result,
  read_index_result, ok, fail, allocate, set_memory, send,
}

-- The peer, the offset into the buffer of sizes, and the context, after one peer.
pub record Queued : Type 0 where
  pub peer : Peer
  pub offset : ℕ
  pub ctx : Ctx

abbrev set_snap_reads : (List SnapRead → List SnapRead) → Ctx → Ctx
set_snap_reads f r = record r { output = record r.output { snap_reads = f r.output.snap_reads } }

abbrev snap_read : Peer → Ctx → SnapRead
snap_read p r = record {
  follower_id = p.id;
  last_included_index = r.log.last_included_index;
  byte_offset = p.pending_snapshot_offset;
  byte_count = r.snapshot_chunk_size;
}

unfoldable pub has_read : ℕ → List SnapRead → Bool
has_read id [] = false
has_read id (s ∷ ss) = s.follower_id == id || has_read id ss

-- The first request of the follower.
replace_read : SnapRead → List SnapRead → List SnapRead
replace_read x [] = []
replace_read x (s ∷ ss) =
    let rest = replace_read x ss in if s.follower_id == x.follower_id then x ∷ ss else s ∷ rest

unfoldable pub request_read : Peer → Ctx → Ctx
unfolding allocate has_read replace_read
request_read p r =
    let (got, memory) = allocate r.output.memory in
    if has_read p.id r.output.snap_reads
    then set_snap_reads (replace_read (snap_read p r)) r
    else if got
    then set_snap_reads (λ ss. ss ++ snap_read p r ∷ []) (set_memory r memory)
    else set_memory r memory

-- A stream that reached its end starts again.
abbrev streaming : Peer → Ctx → Peer
streaming p r = record p {
  pending_snapshot_offset =
      if leb r.snapshot.size p.pending_snapshot_offset then 0 else p.pending_snapshot_offset;
  pending_snapshot_last_index = r.snapshot.last_index;
}

unfoldable pub queue_snapshot : Peer → ℕ → Ctx → Queued
unfolding request_read
queue_snapshot p offset r =
    if r.snapshot.size == 0
    then record { peer = p; offset = offset; ctx = r }
    else record { peer = streaming p r; offset = offset; ctx = request_read (streaming p r) r }

-- The room in the chunk from the peer's next entry on.
abbrev pub chunk_room : Log → ℕ → ℕ
chunk_room log next = 2 ^ log.chunk_bits - (next - log.last_included_index - 1) % 2 ^ log.chunk_bits

-- How many entries go into one message: up to the end of the chunk, and none when the buffer of sizes
-- has no room for them.
unfoldable pub batch_count : Peer → ℕ → Ctx → ℕ
batch_count p offset r =
    let count = min (last_index r.log + 1 - p.next_index) (chunk_room r.log p.next_index) in
    if ltb r.output.entry_size_cap (offset + count) then 0 else count

abbrev pub append_message : Peer → ℕ → Ctx → Message
append_message p count r =
    append_entries p.id r.current_term r.id (p.next_index - 1) (term_at r.log (p.next_index - 1))
      (take count (drop (p.next_index - r.log.last_included_index - 1) r.log.entries))
      r.commit_index r.waiting.read_context

unfoldable pub queue_entries : Peer → ℕ → Ctx → Queued
unfolding allocate batch_count
queue_entries p offset r =
    let (got, memory) = allocate r.output.memory in
    let p' = record p { pending_snapshot_offset = 0 } in
    let count = batch_count p offset r in
    if got
    then record {
      peer = p';
      offset = offset + count;
      ctx = record r {
        output = record r.output {
          memory = memory;
          msgs = r.output.msgs ++ append_message p count r ∷ [];
        };
      };
    }
    else record { peer = p'; offset = offset; ctx = set_memory r memory }

unfoldable pub queue_append_entries : Peer → ℕ → Ctx → Queued
unfolding queue_snapshot queue_entries
queue_append_entries p offset r =
    if leb p.next_index r.log.last_included_index
    then queue_snapshot p offset r
    else queue_entries p offset r

-- The second pass, over the peers.
unfoldable pub queue_all : List Peer → ℕ → Ctx → List Peer × Ctx
unfolding queue_append_entries
queue_all [] offset r = ([], r)
queue_all (p ∷ ps) offset r =
    let q = queue_append_entries p offset r in
    let (rest, r') = queue_all ps q.offset q.ctx in (q.peer ∷ rest, r')

-- The first pass: the room for sizes, which stays as it is when it cannot grow.
unfoldable pub total_count : Log → List Peer → ℕ
total_count log ps =
    count_if
      (λ p. if leb p.next_index log.last_included_index then 0 else chunk_room log p.next_index) ps

unfoldable pub grow_sizes : Ctx → Ctx
unfolding allocate total_count
grow_sizes r =
    let (got, memory) = allocate r.output.memory in
    let total = total_count r.log r.members.peers in
    if ltb r.output.entry_size_cap total && leb total (2 ^ 31 - 1)
    then (if got
        then record r { output = record r.output { memory = memory; entry_size_cap = total } }
        else set_memory r memory)
    else r

abbrev pub new_window : Peer → Peer
new_window p = record p {
  missed_rounds = if p.quorum_acked then 0 else add32 p.missed_rounds 1;
  quorum_acked = false;
}

abbrev pub is_append : Message → Bool
is_append (request_vote t term i l c pre) = false
is_append (vote_result t term g pre) = false
is_append (append_result t term s rej last ct cf ctx) = false
is_append (read_index_result t term i c) = false
is_append (append_entries t term id i l es c ctx) = true

-- Earlier AppendEntries that were not sent yet are superseded.
abbrev pub supersede : List Message → List Message → List Message
supersede before msgs = keep (λ m. not (is_append m)) before ++ drop (length before) msgs

unfoldable pub send_round : Ctx → Ctx
unfolding queue_all grow_sizes
send_round r =
    let r1 = grow_sizes r in
    let (peers, r2) = queue_all r1.members.peers 0 r1 in
    record r2 {
      members = record r2.members { peers = peers };
      output = record r2.output { msgs = supersede r.output.msgs r2.output.msgs };
      waiting = record r2.waiting { read_index_heartbeat_sent = true };
    }

unfoldable pub heartbeat : Ctx → Ctx
unfolding send_round
heartbeat r = send_round (record r {
  heartbeat_elapsed = 0;
  members = record r.members { peers = map new_window r.members.peers };
})
