-- ===== src/Raft/Step.antt =====
-- Results to clients, stepping down, and becoming a candidate: code/raft.h.
pub mod Fields
use Prim.Native.Nat.{bit_xor}
use mathlib.Core.List.{map}
use kynovo.Common.{
  ℕ, zero, suc, ◌+◌, ◌-◌, ◌*◌, ◌/◌, ◌%◌, ◌^◌, Bool, true, false, not, ◌&&◌, ◌||◌, Option, none,
  some, List, [], ◌∷◌, ◌++◌, ltb, leb, ◌==◌, if◌then◌else◌, length, u32_mod, mul32,
}
use kynovo.Raft.Ids.{set_has, mask_has}
use kynovo.Raft.Log
use kynovo.Raft.Log.{last_index, term_at, noop}
use kynovo.Raft.State.{
  Ctx, Peer, Members, Waiting, Output, ClientResult, Status, redirect, Message, request_vote, Role,
  follower, candidate, leader, is_leader, Rc, ok, fail, allocate, set_memory, next_gen, send,
  term_max,
}
use kynovo.Raft.Quorum.{has_voter_peer}
use kynovo.Raft.Config.{config_pending_clear}

-- One result, once there is room for it.
abbrev pub result_of : Ctx → Status → ℕ → ClientResult
result_of r status cookie = record {
  cookie = cookie;
  status = status;
  leader_id = if is_leader r.role then r.id else r.leader_id;
}

-- Room is made for all the results first; without it nothing is reported and nothing is dropped. (Where
-- the buffer has room already, the allocation that is not made counts as one that succeeds.)
unfoldable pub flush_client_results : Status → Ctx → Ctx
unfolding allocate
flush_client_results status r =
    let (got, memory) = allocate r.output.memory in
    let w = r.waiting in
    if got
    then record r {
      output = record r.output {
        memory = memory;
        results =
            r.output.results
            ++ map (result_of r status) (
                map (λ b. b.cookie) w.read_barriers
                ++ (map (λ p. p.0) w.client_pending ++ w.follower_read_pending));
      };
      waiting = record w {
        read_barriers = [];
        client_pending = [];
        follower_read_pending = [];
        follower_read_frozen = 0;
        follower_read_waiting = false;
        follower_read_context = 0;
      };
    }
    else set_memory r memory

-- The results for the initiators of a transfer and of a reconfiguration.
unfoldable pub flush_cookies : ℕ → ℕ → Ctx → Ctx
unfolding allocate
flush_cookies tc cc r =
    let (got, memory) = allocate r.output.memory in
    let some_of = λ (c : ℕ). if c == 0 then [] else result_of r redirect c ∷ [] in
    if got
    then record r {
      output = record r.output {
        memory = memory;
        results = r.output.results ++ (some_of tc ++ some_of cc);
      };
    }
    else set_memory r memory

abbrev pub clear_votes : Peer → Peer
clear_votes p = record p { vote = false; quorum_acked = false; read_index_acked = false }

-- The fields that stepping down writes before anybody is told.
unfoldable pub become_follower : ℕ → ℕ → Ctx → Ctx
unfolding config_pending_clear
become_follower term new_leader r = record r {
  current_term = term;
  durable = record r.durable { persist_needed = true; term_dirty_gen = next_gen r.durable };
  role = follower;
  voted_for = 0;
  leader_id = new_leader;
  ready_leader_change = true;
  in_pre_vote = false;
  transfer = record { target = 0; elapsed = 0; cookie = 0 };
  leader_contact_elapsed = 0;
  leadership_confirmed = false;
  change = record (config_pending_clear r.change) { joint_elapsed = 0 };
  deferred = record r.deferred {
    vote_response = false;
    vote_request = false;
    append_response = false;
  };
  snapshot = record r.snapshot {
    pending_dirty = false;
    data_ready_flag = false;
    install_pending = false;
    recv_expected_offset = 0;
    recv_last_index = 0;
  };
  waiting = record r.waiting {
    follower_read_elapsed = 0;
    read_index_pending = [];
    read_index_heartbeat_sent = false;
  };
  election_elapsed = 0;
  members = record r.members { peers = map clear_votes r.members.peers };
}

abbrev pub clear_barrier_gen : Ctx → Ctx
clear_barrier_gen r = record r { waiting = record r.waiting { read_barrier_gen = 0 } }

unfoldable pub step_down : ℕ → ℕ → Ctx → Ctx
step_down term new_leader r =
    if leb (term_max + 1) term
    then r
    else flush_cookies r.transfer.cookie
        (if r.change.catchup_active then r.change.catchup_cookie else 0)
        (clear_barrier_gen (flush_client_results redirect (become_follower term new_leader r)))

-- xorshift32; 0 is its fixed point and is replaced.
rng_step : ℕ → ℕ
rng_step x =
    let x0 = if x == 0 then 2463534242 else x in
    let x1 = bit_xor x0 ((x0 * 2 ^ 13) % u32_mod) in
    let x2 = bit_xor x1 (x1 / 2 ^ 17) in bit_xor x2 ((x2 * 2 ^ 5) % u32_mod)

-- The modulus is `range + 1` in 64 bits, where it does not wrap.
unfoldable pub reset_election_deadline : Ctx → Ctx
unfolding rng_step
reset_election_deadline r =
    let range =
      if leb r.election_max_ms r.election_min_ms
      then 0
      else r.election_max_ms - r.election_min_ms in
    let x = rng_step r.rng in
    record r {
      rng = x;
      election_deadline =
          (r.election_min_ms + bit_xor x (mul32 r.id 2654435761) % (range + 1)) % u32_mod;
    }

vote_requests : Bool → Ctx → List Peer → List Message
unfolding term_at
vote_requests pre_vote r [] = []
vote_requests pre_vote r (p ∷ ps) =
    let rest = vote_requests pre_vote r ps in
    if p.is_learner
    then rest
    else request_vote p.id r.current_term (last_index r.log) (term_at r.log (last_index r.log)) r.id
        pre_vote
      ∷ rest

-- One message to each voter peer. The source makes room for each in turn and takes all back if one
-- has none; here that is one allocation.
unfoldable pub broadcast_vote : Bool → Ctx → Rc × Ctx
unfolding allocate vote_requests
broadcast_vote pre_vote r =
    let (got, memory) = allocate r.output.memory in
    if got
    then (
      ok,
      record r {
        output = record r.output {
          memory = memory;
          msgs = r.output.msgs ++ vote_requests pre_vote r r.members.peers;
        };
      },
    )
    else (fail, set_memory r memory)

abbrev pub forget_votes : Peer → Peer
forget_votes p = record p { vote = false; pre_vote_acked = false }

-- The new term with the node's own vote, before the log is touched.
unfoldable pub stand : Ctx → Ctx
stand r =
    let r' = reset_election_deadline (record r {
      role = candidate;
      current_term = r.current_term + 1;
      voted_for = r.id;
      deferred = record r.deferred { vote_response = false; vote_to = 0 };
      durable = record r.durable { persist_needed = true; term_dirty_gen = next_gen r.durable };
      leader_id = 0;
      ready_leader_change = true;
      in_pre_vote = false;
      election_elapsed = 0;
    }) in
    record r' { members = record r'.members { peers = map forget_votes r'.members.peers } }

abbrev lead_peer : ℕ → Peer → Peer
lead_peer next p = record p { next_index = next; match_index = 0; missed_rounds = 0 }

-- A node that is its own quorum leads at once, if its first entry can be appended.
lead_alone : Ctx → Rc × Ctx
unfolding allocate
lead_alone r =
    let (got, memory) = allocate r.output.memory in
    let log = Log.append r.log (noop r.current_term) in
    if got
    then (
      ok,
      record (set_memory r memory) {
        log = log;
        role = leader;
        leader_id = r.id;
        heartbeat_elapsed = 0;
        leader_contact_elapsed = 0;
        durable = record r.durable { persist_needed = true };
        members = record r.members { peers = map (lead_peer (last_index log + 1)) r.members.peers };
      },
    )
    else (
      fail,
      record (set_memory r memory) {
        current_term = r.current_term - 1;
        voted_for = 0;
        role = follower;
        ready_leader_change = true;
      },
    )

abbrev ask_for_votes : Ctx → Ctx
ask_for_votes r = record r {
  deferred = record r.deferred { vote_request = true; vote_request_gen = next_gen r.durable };
}

unfoldable pub become_candidate : Ctx → Rc × Ctx
unfolding lead_alone
become_candidate r =
    if set_has r.members.config_learners r.id
    then (fail, r)
    else if leb term_max r.current_term
    then (fail, r)
    else if has_voter_peer r
    then (ok, ask_for_votes (stand r))
    else lead_alone (stand r)

abbrev forget_pre_votes : Peer → Peer
forget_pre_votes p = record p { pre_vote_acked = false }

ask_pre_votes : Rc × Ctx → Rc × Ctx
ask_pre_votes (ok, r) = (ok, r)
ask_pre_votes (fail, r) = (ok, record r { in_pre_vote = false })

-- Out of memory the round is given up, and tried again at the next deadline.
unfoldable pub start_pre_vote : Ctx → Rc × Ctx
unfolding ask_pre_votes
start_pre_vote r =
    let r0 = reset_election_deadline (record r { in_pre_vote = true; election_elapsed = 0 }) in
    let r1 = record r0 {
      deferred = record r0.deferred { vote_request = false };
      members = record r0.members { peers = map forget_pre_votes r0.members.peers };
    } in
    if has_voter_peer r1
    then ask_pre_votes (broadcast_vote true r1)
    else if mask_has r1.members.config_old r1.id
    then become_candidate r1
    else (ok, r1)
