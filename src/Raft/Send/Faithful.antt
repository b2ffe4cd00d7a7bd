-- ===== src/Raft/Send/Faithful.antt =====
-- What a leader's heartbeats say of its log: the messages of raft_queue_append_entries of code/raft.h.
use kynovo.Common.{
  ◌^◌, ◌&&◌, ◌==◌, All-map, All-append, length-take, get_elem?-take, get_elem?-drop, ℕ, ◌+◌, ◌-◌,
  ◌≤◌, ◌<◌, ◌≡◌, refl, sym, ap, ◌∙◌, inl, inr, false, not, List, [], ◌∷◌, ◌++◌, map, arith, take,
  drop, length, get_elem?, ltb, leb, Bool-cases, All, keep, append_assoc, append-nil, drop-append,
}
use kynovo.Raft.Log.{Log, term_at, entry_at}
use kynovo.Raft.State.{
  Ctx, Peer, Output, Message, append_entries, request_vote, vote_result, append_result,
  read_index_result, allocate,
}
use kynovo.Raft.Send.{
  has_read, new_window, total_count, send_round, grow_sizes, request_read, queue_snapshot,
  queue_entries, batch_count, append_message, queue_append_entries, queue_all, heartbeat, is_append,
  supersede,
}

-- An AppendEntries message that carries the leader's term, commit index and round, the term of the
-- entry before its own, and the leader's entries from there on.
unfoldable pub IsFaithful : Ctx → Message → Type 0
IsFaithful r (request_vote t term i l c pre) = Unit
IsFaithful r (vote_result t term g pre) = Unit
IsFaithful r (append_result t term s rej last ct cf ctx) = Unit
IsFaithful r (read_index_result t term i c) = Unit
IsFaithful r (append_entries t term id prev prev_term es commit context) =
    (term ≡ r.current_term)
    × (id ≡ r.id)
    × (commit ≡ r.commit_index)
    × (context ≡ r.waiting.read_context)
    × (r.log.last_included_index ≤ prev)
    × (prev_term ≡ term_at r.log prev)
    × ((j : ℕ) → j < length es → get_elem? es j ≡ entry_at r.log (prev + 1 + j))

-- The entries from an index above the base on are found there.
entries_lem :
    (log : Log) (next count j : ℕ)
    → log.last_included_index < next
    → j < length (take count (drop (next - log.last_included_index - 1) log.entries))
    → get_elem? (take count (drop (next - log.last_included_index - 1) log.entries)) j
      ≡ entry_at log (next - 1 + 1 + j)
unfolding entry_at
entries_lem log next count j above h =
    let over : leb (next - 1 + 1 + j) log.last_included_index ≡ false = ground arith in
    let place : next - 1 + 1 + j - log.last_included_index - 1
        ≡ next - log.last_included_index - 1 + j =
      omega arith in
    rw (over, place)
      (get_elem?-take count (drop (next - log.last_included_index - 1) log.entries) j (
          omega
            (arith, h, length-take count (drop (next - log.last_included_index - 1) log.entries)))
        ∙ get_elem?-drop (next - log.last_included_index - 1) log.entries j)

append_message-IsFaithful :
    (p : Peer) (count : ℕ) (r : Ctx)
    → r.log.last_included_index < p.next_index
    → IsFaithful r (append_message p count r)
unfolding IsFaithful
append_message-IsFaithful p count r above = (
  refl,
  refl,
  refl,
  refl,
  omega arith,
  refl,
  λ j h. entries_lem r.log p.next_index count j above h,
)

-- Of the leader `r` with the output `o`, only the output is another, and it has faithful messages more.
pub record Told (r : Ctx) (o : Output) (out : Ctx) : Type 0 where
  pub output : Output
  pub same : out ≡ record r { output = output }
  pub added : List Message
  pub grown : output.msgs ≡ o.msgs ++ added
  pub faithful : All (IsFaithful r) added

module _ (r : Ctx) where
  Told-quiet : (o o' : Output) → o'.msgs ≡ o.msgs → Told r o (record r { output = o' })
  Told-quiet o o' e = record {
    output = o';
    same = refl;
    added = [];
    grown = e ∙ sym (append-nil o.msgs);
    faithful = tt;
  }

  pub Told-then :
      (o : Output) (mid : Ctx) (f : Ctx → Ctx)
      → Told r o mid
      → ((o' : Output) → Told r o' (f (record r { output = o' })))
      → Told r o (f mid)
  Told-then o mid f t next =
      let u = next t.output in
      record {
        output = u.output;
        same = ap f t.same ∙ u.same;
        added = t.added ++ u.added;
        grown = u.grown ∙ ap (λ l. l ++ u.added) t.grown ∙ append_assoc o.msgs t.added u.added;
        faithful = All-append (IsFaithful r) t.added u.added t.faithful u.faithful;
      }

  queue_snapshot-Told :
      (p : Peer) (offset : ℕ) (o : Output)
      → Told r o (queue_snapshot p offset (record r { output = o })).ctx
  unfolding queue_snapshot request_read
  queue_snapshot-Told p offset o = elim (Bool-cases (r.snapshot.size == 0)) [
    | inl nothing ↦ rw nothing (Told-quiet o o refl)
    | inr there ↦ elim (Bool-cases (has_read p.id o.snap_reads)) [
      | inl again ↦ rw (there, again) (Told-quiet o _ refl)
      | inr new ↦ elim (Bool-cases (allocate o.memory).0) [
        | inl got ↦ rw (there, new, got) (Told-quiet o _ refl)
        | inr full ↦ rw (there, new, full) (Told-quiet o _ refl)
      ]
    ]
  ]

  queue_entries-Told :
      (p : Peer) (offset : ℕ) (o : Output)
      → r.log.last_included_index < p.next_index
      → Told r o (queue_entries p offset (record r { output = o })).ctx
  unfolding queue_entries
  queue_entries-Told p offset o above = elim (Bool-cases (allocate o.memory).0) [
    | inr full ↦ rw full (Told-quiet o _ refl)
    | inl got ↦ rw got record {
      output = _;
      same = refl;
      added = append_message p (batch_count p offset (record r { output = o })) r ∷ [];
      grown = refl;
      faithful = (
        append_message-IsFaithful p (batch_count p offset (record r { output = o })) r above,
        tt,
      );
    }
  ]

  queue_append_entries-Told :
      (p : Peer) (offset : ℕ) (o : Output)
      → Told r o (queue_append_entries p offset (record r { output = o })).ctx
  unfolding queue_append_entries
  queue_append_entries-Told p offset o =
      elim (Bool-cases (leb p.next_index r.log.last_included_index)) [
        | inl below ↦ rw below (queue_snapshot-Told p offset o)
        | inr above ↦ rw above (queue_entries-Told p offset o (ground (arith, above)))
      ]

  pub queue_all-Told :
      (ps : List Peer) (offset : ℕ) (o : Output)
      → Told r o (queue_all ps offset (record r { output = o })).1
  unfolding queue_all
  queue_all-Told [] offset o = Told-quiet o o refl
  queue_all-Told (p ∷ ps) offset o =
      let q = queue_append_entries p offset (record r { output = o }) in
      Told-then o q.ctx (λ c. (queue_all ps q.offset c).1) (queue_append_entries-Told p offset o)
        (λ o'. queue_all-Told ps q.offset o')

  pub grow_sizes-Told : Told r r.output (grow_sizes r)
  unfolding grow_sizes
  grow_sizes-Told =
      elim (Bool-cases (
        ltb r.output.entry_size_cap (total_count r.log r.members.peers)
        && leb (total_count r.log r.members.peers) (2 ^ 31 - 1))) [
          | inr enough ↦ rw enough (Told-quiet r.output r.output refl)
          | inl wanted ↦ elim (Bool-cases (allocate r.output.memory).0) [
            | inl got ↦ rw (wanted, got) (Told-quiet r.output _ refl)
            | inr full ↦ rw (wanted, full) (Told-quiet r.output _ refl)
          ]
        ]

-- Every other message is faithful.
other-IsFaithful : (r : Ctx) (m : Message) → is_append m ≡ false → IsFaithful r m
unfolding IsFaithful
other-IsFaithful r (request_vote t term i l c pre) e = tt
other-IsFaithful r (vote_result t term g pre) e = tt
other-IsFaithful r (append_result t term s rej last ct cf ctx) e = tt
other-IsFaithful r (read_index_result t term i c) e = tt
other-IsFaithful r (append_entries t term id prev prev_term es commit context) e = cc

others-IsFaithful :
    (r : Ctx) (ms : List Message) → All (IsFaithful r) (keep (λ m. not (is_append m)) ms)
others-IsFaithful r [] = tt
others-IsFaithful r (m ∷ ms) = elim (Bool-cases (is_append m)) [
  | inl sent ↦ rw sent (others-IsFaithful r ms)
  | inr other ↦ rw other (other-IsFaithful r m other, others-IsFaithful r ms)
]

supersede-IsFaithful :
    (r : Ctx) (before added : List Message)
    → All (IsFaithful r) added
    → All (IsFaithful r) (supersede before (before ++ added))
supersede-IsFaithful r before added h =
    All-append (IsFaithful r) (keep (λ m. not (is_append m)) before) _ (others-IsFaithful r before)
      (rw (drop-append before added) h)

send_round-IsFaithful : (r : Ctx) → All (IsFaithful r) (send_round r).output.msgs
unfolding send_round
send_round-IsFaithful r =
    let told =
      Told-then r r.output (grow_sizes r) (λ c. (queue_all (grow_sizes r).members.peers 0 c).1)
        (grow_sizes-Told r) (λ o. queue_all-Told r (grow_sizes r).members.peers 0 o) in
    rw (told.same, told.grown) (supersede-IsFaithful r r.output.msgs told.added told.faithful)

abbrev pub new_round : Ctx → Ctx
new_round r = record r {
  heartbeat_elapsed = 0;
  members = record r.members { peers = map new_window r.members.peers };
}

new_round-IsFaithful : (r : Ctx) (m : Message) → IsFaithful (new_round r) m → IsFaithful r m
unfolding IsFaithful
new_round-IsFaithful r (request_vote t term i l c pre) h = h
new_round-IsFaithful r (vote_result t term g pre) h = h
new_round-IsFaithful r (append_result t term s rej last ct cf ctx) h = h
new_round-IsFaithful r (read_index_result t term i c) h = h
new_round-IsFaithful r (append_entries t term id prev prev_term es commit context) h = h

-- Every AppendEntries message in the queue after a heartbeat carries the leader's term, id, commit
-- index and round, the term of the leader's entry before its own, and the leader's entries from there
-- on.
pub heartbeat-IsFaithful : (r : Ctx) → All (IsFaithful r) (heartbeat r).output.msgs
unfolding heartbeat
heartbeat-IsFaithful r =
    All-map (IsFaithful (new_round r)) (IsFaithful r) (heartbeat r).output.msgs
      (new_round-IsFaithful r) (send_round-IsFaithful (new_round r))
