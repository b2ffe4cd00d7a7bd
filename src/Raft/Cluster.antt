-- ===== src/Raft/Cluster.antt =====
-- A cluster of the servers 1, 2 and 3, seen by server 1: what the Raft core's tests run on.
use kynovo.Common.{none, true, [], Bool, false, ◌∷◌, ℕ}
use kynovo.Raft.Ids.{Mask}
use kynovo.Raft.Log.{Log, Entry}
use kynovo.Raft.State.{Ctx, Peer, candidate}
use kynovo.Raft.Peers.{fresh_peer}

abbrev pub three : Mask
three = 1 ∷ 2 ∷ 3 ∷ []

abbrev pub voter : ℕ → Bool → ℕ → Peer
voter id vote match = record (fresh_peer id false true true 3) { vote = vote; match_index = match }

abbrev pub entry : ℕ → Entry
entry term = record {
  term = term;
  kind = 0;
  bytes = 7 ∷ [];
  cfg_old = [];
  cfg_new = [];
  cfg_learners = [];
}

abbrev pub two_entries : Log
two_entries = record {
  last_included_index = 0;
  last_included_term = 0;
  entries = entry 1 ∷ entry 2 ∷ [];
  chunk_bits = 2;
  has_cfg = λ c. false;
}

-- Server 1 at term 2, with both entries durable; server 2 has them, and has voted for it.
abbrev pub server : Ctx
server = record {
  id = 1;
  phase = 2;
  heartbeat_ms = 50;
  election_min_ms = 150;
  election_max_ms = 300;
  snapshot_chunk_size = 4096;
  role = candidate;
  voted_for = 1;
  leader_id = 0;
  ready_leader_change = false;
  current_term = 2;
  commit_index = 0;
  last_applied = 0;
  rng = 1;
  heartbeat_elapsed = 0;
  election_elapsed = 0;
  election_deadline = 200;
  leader_contact_elapsed = 500;
  in_pre_vote = false;
  leadership_confirmed = false;
  log = two_entries;
  members = record {
    config_old = three;
    config_new = three;
    config_learners = [];
    config_bootstrap = three;
    config_joint = false;
    config_apply_stale = false;
    peers = voter 2 true 2 ∷ voter 3 false 0 ∷ [];
  };
  change = record {
    pending_old = [];
    pending_new = [];
    pending_learners = [];
    config_pending = false;
    config_index = 0;
    catchup_new = [];
    catchup_cookie = 0;
    catchup_active = false;
    catchup_round = 0;
    catchup_start_index = 0;
    catchup_elapsed = 0;
    catchup_total_elapsed = 0;
    joint_elapsed = 0;
  };
  deferred = record {
    vote_response = false;
    vote_to = 0;
    vote_gen = 0;
    vote_request = false;
    vote_request_gen = 0;
    append_response = false;
    append_to = 0;
    append_last_index = none;
    append_confirmed = 0;
    append_read_context = 0;
    append_gen = 0;
    reject_pending = false;
    reject_gen = 0;
    reject_hint = 0;
    reject_to = 0;
    reject_last_index = 0;
    reject_conflict_term = 0;
    reject_conflict_first_index = 0;
    reject_read_context = 0;
  };
  durable = record {
    persist_needed = false;
    persist_gen = 4;
    term_dirty_gen = 4;
    durable_index = 2;
    persist_synced_index = 2;
    durable_confirm = 2;
  };
  snapshot = record {
    last_index = 0;
    size = 0;
    cfg_old = [];
    cfg_new = [];
    cfg_learners = [];
    pending_dirty = false;
    data_ready_flag = false;
    install_pending = false;
    recv_last_index = 0;
    recv_expected_offset = 0;
  };
  waiting = record {
    read_barriers = [];
    read_barrier_gen = 0;
    client_pending = [];
    follower_read_pending = [];
    follower_read_frozen = 0;
    follower_read_waiting = false;
    follower_read_context = 0;
    follower_read_elapsed = 0;
    read_index_pending = [];
    read_context = 0;
    read_index_heartbeat_sent = false;
  };
  transfer = record { target = 0; elapsed = 0; cookie = 0 };
  output = record {
    snap_reads = [];
    entry_size_cap = 0;
    msgs = [];
    results = [];
    result_dropped = 0;
    memory = [];
  };
}
