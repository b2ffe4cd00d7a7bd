-- ===== src/Raft/State.antt =====
-- `raft_ctx` of code/raft.h, in groups of fields, and the messages and results that it queues.
-- Terms and indices are not negative in the source and are numbers. A pointer to a caller's cookie is
-- a number, 0 for NULL. An id 0 is "nobody".
unfoldable pub use kynovo.Common.Memory.{allocate}
pub use kynovo.Common.Memory.{Rc, ok, fail}
use kynovo.Common.{
  ℕ, ◌-◌, ◌^◌, Bool, true, false, Option, List, [], ◌∷◌, ◌++◌, if◌then◌else◌, add32,
}
use kynovo.Raft.Ids.{Mask}
use kynovo.Raft.Log.{Log, Entry}

pub data Role : Type 0 where
  follower candidate leader : Role

abbrev pub is_leader : Role → Bool
is_leader leader = true
is_leader r = false

abbrev pub is_candidate : Role → Bool
is_candidate candidate = true
is_candidate r = false

abbrev pub is_follower : Role → Bool
is_follower follower = true
is_follower r = false

-- RAFT_PHASE_READY, RAFT_PHASE_RUNNING and RAFT_PHASE_DRAINING; the phases are in this order.
abbrev pub phase_ready : ℕ
phase_ready = 1

abbrev pub phase_running : ℕ
phase_running = 2

abbrev pub phase_draining : ℕ
phase_draining = 4

-- RAFT_TERM_MAX, the highest term that the library holds: INT64_MAX - 1
abbrev pub term_max : ℕ
term_max = 2 ^ 63 - 2

pub data Status : Type 0 where
  redirect committed ready failed catchup_ready catchup_failed : Status

pub record ClientResult : Type 0 where
  pub cookie : ℕ
  pub status : Status
  pub leader_id : ℕ

-- The peer messages that the modelled handlers queue, each with its addressee.
pub data Message : Type 0 where
  request_vote : (to term last_log_index last_log_term candidate_id : ℕ) (pre_vote : Bool) → Message
  vote_result : (to term : ℕ) (vote_granted pre_vote : Bool) → Message
  append_result :
      (to term : ℕ) (success : Bool)
      (rejected last_log_index conflict_term conflict_first_index read_context : ℕ)
      → Message
  read_index_result : (to term read_index context : ℕ) → Message
  append_entries :
      (to term leader_id prev_log_index prev_log_term : ℕ) (entries : List Entry)
      (leader_commit read_context : ℕ)
      → Message

-- A learner's `catchup_round`: the round it is in, or -1 and -2 once its outcome was told.
pub data Round : Type 0 where
  round : ℕ → Round
  caught_up gave_up : Round

pub record Peer : Type 0 where
  pub id : ℕ
  pub is_learner : Bool
  pub next_index : ℕ
  pub match_index : ℕ
  pub pending_snapshot_offset : ℕ
  pub pending_snapshot_last_index : ℕ
  pub vote : Bool
  pub pre_vote_acked : Bool
  pub in_old_config : Bool
  pub in_new_config : Bool
  pub read_index_acked : Bool
  pub quorum_acked : Bool
  pub missed_rounds : ℕ
  pub catchup_round : Round
  pub catchup_round_start_index : ℕ
  pub catchup_round_elapsed : ℕ
  pub catchup_cookie : ℕ

-- The live configuration, and the peers that were built from it.
pub record Members : Type 0 where
  pub config_old : Mask
  pub config_new : Mask
  pub config_learners : Mask
  pub config_bootstrap : Mask
  pub config_joint : Bool
  pub config_apply_stale : Bool
  pub peers : List Peer

-- The membership change that is under way.
pub record Change : Type 0 where
  pub pending_old : Mask
  pub pending_new : Mask
  pub pending_learners : Mask
  pub config_pending : Bool
  pub config_index : ℕ
  pub catchup_new : Mask
  pub catchup_cookie : ℕ
  pub catchup_active : Bool
  pub catchup_round : ℕ
  pub catchup_start_index : ℕ
  pub catchup_elapsed : ℕ
  pub catchup_total_elapsed : ℕ
  pub joint_elapsed : ℕ

-- What waits for the caller to report a write as durable. `append_last_index` is `none` where the
-- source has -1.
pub record Deferred : Type 0 where
  pub vote_response : Bool
  pub vote_to : ℕ
  pub vote_gen : ℕ
  pub vote_request : Bool
  pub vote_request_gen : ℕ
  pub append_response : Bool
  pub append_to : ℕ
  pub append_last_index : Option ℕ
  pub append_confirmed : ℕ
  pub append_read_context : ℕ
  pub append_gen : ℕ
  pub reject_pending : Bool
  pub reject_gen : ℕ
  pub reject_hint : ℕ
  pub reject_to : ℕ
  pub reject_last_index : ℕ
  pub reject_conflict_term : ℕ
  pub reject_conflict_first_index : ℕ
  pub reject_read_context : ℕ

-- The durable frontier.
pub record Durable : Type 0 where
  pub persist_needed : Bool
  pub persist_gen : ℕ
  pub term_dirty_gen : ℕ
  pub durable_index : ℕ
  pub persist_synced_index : ℕ
  pub durable_confirm : ℕ

pub record Snapshot : Type 0 where
  pub last_index : ℕ
  pub size : ℕ
  pub cfg_old : Mask
  pub cfg_new : Mask
  pub cfg_learners : Mask
  pub pending_dirty : Bool
  pub data_ready_flag : Bool
  pub install_pending : Bool
  pub recv_last_index : ℕ
  pub recv_expected_offset : ℕ

-- A read that waits for the state machine, and at a leader for a later round of heartbeats.
pub record Barrier : Type 0 where
  pub cookie : ℕ
  pub target_index : ℕ
  pub needs_gen : ℕ

-- A follower's ReadIndex request; the source keeps an index with it that is always 0.
pub record ReadIndexPending : Type 0 where
  pub from : ℕ
  pub context : ℕ

-- Reads that wait, and client commands that wait: a command has its cookie and its log index. A read
-- of a follower is its cookie.
pub record Waiting : Type 0 where
  pub read_barriers : List Barrier
  pub read_barrier_gen : ℕ
  pub client_pending : List (ℕ × ℕ)
  pub follower_read_pending : List ℕ
  pub follower_read_frozen : ℕ
  pub follower_read_waiting : Bool
  pub follower_read_context : ℕ
  pub follower_read_elapsed : ℕ
  pub read_index_pending : List ReadIndexPending
  pub read_context : ℕ
  pub read_index_heartbeat_sent : Bool

pub record Transfer : Type 0 where
  pub target : ℕ
  pub elapsed : ℕ
  pub cookie : ℕ

-- raft_snapshot_read_req
pub record SnapRead : Type 0 where
  pub follower_id : ℕ
  pub last_included_index : ℕ
  pub byte_offset : ℕ
  pub byte_count : ℕ

-- The queued output, the room for the sizes of entries that are sent, and the allocator.
pub record Output : Type 0 where
  pub msgs : List Message
  pub snap_reads : List SnapRead
  pub entry_size_cap : ℕ
  pub results : List ClientResult
  pub result_dropped : ℕ
  pub memory : List Bool

pub record Ctx : Type 0 where
  pub id : ℕ
  pub phase : ℕ
  pub heartbeat_ms : ℕ
  pub election_min_ms : ℕ
  pub election_max_ms : ℕ
  pub snapshot_chunk_size : ℕ
  pub role : Role
  pub voted_for : ℕ
  pub leader_id : ℕ
  pub ready_leader_change : Bool
  pub current_term : ℕ
  pub commit_index : ℕ
  pub last_applied : ℕ
  pub rng : ℕ
  pub heartbeat_elapsed : ℕ
  pub election_elapsed : ℕ
  pub election_deadline : ℕ
  pub leader_contact_elapsed : ℕ
  pub in_pre_vote : Bool
  pub leadership_confirmed : Bool
  pub log : Log
  pub members : Members
  pub change : Change
  pub deferred : Deferred
  pub durable : Durable
  pub snapshot : Snapshot
  pub waiting : Waiting
  pub transfer : Transfer
  pub output : Output

abbrev pub set_memory : Ctx → List Bool → Ctx
set_memory r memory = record r { output = record r.output { memory = memory } }

-- The generation that the next completed persist will reach.
abbrev pub next_gen : Durable → ℕ
next_gen d = add32 d.persist_gen 1

-- Room for one more message, and the message (`raft_msg_ensure`, then the write at `msg_count`).
unfoldable pub send : Message → Ctx → Rc × Ctx
unfolding allocate
send m r =
    let (got, memory) = allocate r.output.memory in
    if got
    then (
      ok,
      record r { output = record r.output { memory = memory; msgs = r.output.msgs ++ m ∷ [] } },
    )
    else (fail, set_memory r memory)
