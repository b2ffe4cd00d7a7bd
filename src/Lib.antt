-- ===== src/Lib.antt =====
-- kynovo: a replicated key-value database in C, as a set of single-file libraries under code/.
--
-- code/kserver.h puts the parts together: it stores the data in an ordered map (code/treap.h),
-- replicates the commands that change it with Raft (code/raft.h), speaks code/kproto.h to its
-- clients and runs on an event loop (code/cemon.h), worker threads (code/runtime.h) and files
-- (code/vfs.h). Of these the Raft core, the map, the buffers of code/kbase.h and the wire protocol
-- are modelled, and of the server what the sections below name.
--
-- Common has the shared names: Boolean tests on numbers (Common/Tests), lists that are measured
-- and indexed by native numbers (Common/Lists), machine words (Common/Words) and the allocator
-- (Common/Memory).
--
-- Raft models code/raft.h. The library is driven by calls and queues what its caller is to do; a
-- call is a function from a context to a return code and a context. Raft/Ids has the voter sets
-- (raft_mask_has, raft_make_sorted_ids), Raft/Log the log (raft_log_append, raft_log_truncate),
-- Raft/State the context raft_ctx in groups of fields, Raft/Quorum the counting of votes and
-- matches, Raft/Peers the peers of a configuration (raft_peer_carry and the loops of the
-- rebuilds), Raft/Config the live configuration (raft_apply_config_from_log), Raft/Durable the
-- durable frontier under a cut, Raft/Step stepping down and standing (raft_step_down,
-- raft_become_candidate, raft_start_pre_vote), Raft/Lead taking office (raft_become_leader),
-- Raft/Vote the vote messages (raft_recv_request_vote and its result), Raft/Append the replication
-- at a follower (raft_recv_append_entries), and Raft/Commit the commit index of a leader
-- (raft_advance_commit). At a leader, Raft/Progress has a follower's progress
-- (raft_recv_append_entries_result), Raft/Send the heartbeats (raft_queue_append_entries and its
-- passes in raft_leader_tick), Raft/Tick and Raft/Tick/Rounds the other parts of raft_leader_tick
-- and the tick itself, in which a part that ends the tick returns the code fail; Raft/Reads has
-- reads (raft_barrier, raft_check_barriers, raft_recv_read_index, raft_recv_read_index_result),
-- Raft/Reconfig and Raft/Reconfig/Requests membership changes and transfers
-- (raft_commit_config_entry, raft_reconfig, raft_add_learner, raft_remove_learner, raft_transfer),
-- and Raft/Client raft_submit and the entry point raft_recvfrom_client. Raft/Persist has the
-- report of a durable index (raft_persist_complete) and the nudge of a transfer
-- (raft_recv_timeout_now). The modules below these have their theorems: Ids/Search, Ids/Sort,
-- Log/Agree, Step/Fields, Vote/Once, Vote/Granted, Election, Election/View, Election/Commit,
-- Commit/Bounds, Append/Keeps, Append/Stage, Append/Entries, Append/Matching, Progress/Search,
-- Progress/Bounds, Progress/Paths, Progress/Counted, Send/Faithful, Send/Received, Reads/Check,
-- Client/Submitted, Client/OneChange, Tick/Fresh, Tick/Calls, Tick/Between, Tick/Serving,
-- Tick/Kept, Tick/KeptChange, Tick/KeptTick, Tick/KeptRounds and Persist/Frontier; Tick/Serving
-- has the calls of a leader that serves reads, with some that may come between them, as a data
-- type of sequences of calls; changes of the configuration and messages of other kinds are not
-- among them. Raft/Tests and Raft/Tick/Tests run the handlers on the cluster of three servers of
-- Raft/Cluster.
--
-- Treap models code/treap.h: an ordered map from byte strings to byte strings, balanced by
-- priorities that are hashes of the keys. Treap/Key has the order of the keys (treap_key_cmp),
-- Treap/Tree the nodes and the walks over them (treap_find, treap_split, treap_merge,
-- treap_remove_min, the walks of treap_rank and treap_select, treap_hash), Treap/Map the
-- operations on a whole map with their allocations (treap_set, treap_delete, treap_delete_range,
-- treap_get, treap_rank, treap_count_range). Nodes are shared between versions and never change
-- once they are published, so a tree is a value. Treap/Entries reads a tree as the list of its
-- entries in order, which Treap/Refine, Treap/Sizes, Treap/Listing, Treap/Update, Treap/Delete,
-- Treap/Range, Treap/Count, Treap/Queries, Treap/Memory and Treap/Laws reason about; Treap/Tests
-- runs the operations on three keys.
--
-- Bytes models the byte buffers of code/kbase.h: Bytes/Word the little-endian words (k_read_u32
-- and the like), Bytes/Buf the growing buffer k_buf with its error flag, Bytes/Fields runs of its
-- writers, Bytes/Reader the reader k_reader, Bytes/Crc the checksum. A pointer into a buffer is
-- the list of the bytes from it on. Wire models code/kproto.h: Wire/Frame the frame header and the
-- receiver (k_frame_header_build, k_rx_append, k_rx_feed, with the frame handler as a parameter),
-- Wire/Response the payload of a response with its two ends, k_response_payload of code/kserver.h
-- and k_response_decode, Wire/Request the payload of a request (k_request_payload). The modules
-- below have their theorems: Wire/Frame/Fronts, Wire/Frame/Loop, Wire/Frame/Chunks,
-- Wire/Frame/RoundTrip, Wire/Response/RoundTrip and Wire/Request/Sent.
--
-- Server models the part of code/kserver.h that applies commands to the map (k_server_apply_exec,
-- and k_server_apply_command but for the branches K_OP_RSET and K_OP_ADDR) and that builds them
-- (k_server_build_write_command, k_cmd_put, the entry of k_server_exec_cmd). Server/State has the
-- map with the request that waits, and treap_fork, treap_commit and treap_abort of code/treap.h;
-- Server/Items the writes within a command, Server/Apply the commands, Server/Cas the conditional
-- write, Server/Ranges the range deletion, Server/Dispatch the choice of the branch by the first
-- byte (its result is `none` where the branch is not modelled), Server/Mask the codec of id sets
-- (k_buf_mask, k_reader_mask), Server/Encode the builders. Server/Atomic and Server/Commands show
-- what a command with several writes does, Server/Cas/Swap, with Server/Cas/Keyed on its key, the
-- conditional write, Server/Ranges/Clear the range deletion, Server/Encode/Replay,
-- Server/Encode/WriteSet and Server/Encode/Fcall that applying undoes building. The state of the
-- server is the map and the request that k_request_find gives for the command's cookie; the
-- printing of a number with sprintf is a parameter. The loop over a command takes as many rounds
-- as the command has bytes, which Server/Items/Ends proves to be enough. Server/Answer shows what
-- a client that waits finds, and Server/Items/Memory that memory is left. Server/Meta has the meta
-- file of the write-ahead log with its two slots (k_wal_meta_slot_encode, k_wal_meta_slot_decode,
-- k_wal_meta_load, k_wal_meta_store), as the bytes of the slots: a file call either does what it
-- says or fails and leaves any bytes in the slot that it wrote; Server/Meta/Slots has its
-- theorems.
--
-- Numbers are native natural numbers. Terms, indices and ids are not negative in the source once
-- they are validated, and an id 0 stands for nobody; generations wrap at 32 bits as in the source.
-- The allocator is a list of outcomes that a context and a map carry: the theorems on what happens
-- whatever the outcome quantify over it. The binary search takes one round of fuel more than the
-- mask has ids, which Ids/Search proves to be enough; the binary search for the end of a term's
-- entries takes one round for each index above the log's base, which Progress/Search proves to be
-- enough; the search for the first entry of a term takes as many rounds as the index it starts at,
-- and every round steps down by one. The growth of a buffer takes 32 doublings at most, which
-- Bytes/Buf proves to be enough for a word. The receiver's loop takes one round for each byte, and
-- every frame has twelve of them at least; Wire/Frame/Loop proves that to be enough.
--
-- Not modelled: the rest of code/raft.h (raft_advance with what it hands to the caller, snapshots,
-- the reports other than that of a durable index, and the sizes of entries, which the model has
-- with their bytes), the chunked storage of the log; of code/treap.h the accounting of nodes and
-- bytes, snapshots, scans and the stream format; of code/kbase.h the clock and the formatted
-- printing; of code/kproto.h the cluster specification and the request of a scan; the rest of
-- code/kserver.h; and every other file of code/. The event loop, the threads, the file wrappers
-- and the command line are input and output of the operating system.
pub mod Common
pub mod Bytes
pub mod Wire
pub mod Raft
pub mod Treap
pub mod Server
