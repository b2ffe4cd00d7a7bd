-- ===== src/Raft/Log.antt =====
-- The Raft log of code/raft.h as its users see it: the snapshot base and the entries above it. Of the
-- chunks that store the entries only what a scan of the log can observe is kept: which of them have
-- room for id lists.
pub mod Agree
use kynovo.Common.{
  ℕ, ◌+◌, ◌-◌, ◌/◌, ◌^◌, ◌||◌, Bool, true, false, Option, none, some, List, [], ◌∷◌, ◌++◌, ◌&&◌,
  ltb, leb, ◌==◌, if◌then◌else◌, length, get_elem?, take,
}
use kynovo.Raft.Ids.{Mask, mask_any}

-- RAFT_ENTRY_COMMAND, RAFT_ENTRY_NOOP, RAFT_ENTRY_CONFIG
abbrev pub entry_command : ℕ
entry_command = 0

abbrev pub entry_noop : ℕ
entry_noop = 1

abbrev pub entry_config : ℕ
entry_config = 2

-- One slot of a chunk, with the bytes of the entry. A configuration entry has its three id lists.
pub record Entry : Type 0 where
  pub term : ℕ
  pub kind : ℕ
  pub bytes : List ℕ
  pub cfg_old : Mask
  pub cfg_new : Mask
  pub cfg_learners : Mask

abbrev pub noop : ℕ → Entry
noop term = record {
  term = term;
  kind = entry_noop;
  bytes = [];
  cfg_old = [];
  cfg_new = [];
  cfg_learners = [];
}

pub record Log : Type 0 where
  pub last_included_index : ℕ
  pub last_included_term : ℕ
  pub entries : List Entry
  -- a chunk holds `2 ^ chunk_bits` entries; it has room for id lists once an entry needed it
  pub chunk_bits : ℕ
  pub has_cfg : ℕ → Bool

abbrev pub last_index : Log → ℕ
last_index log = log.last_included_index + length log.entries

unfoldable pub term_of : Option Entry → ℕ
term_of none = 0
term_of (some e) = e.term

-- The entry at an index above the base.
unfoldable pub entry_at : Log → ℕ → Option Entry
entry_at log idx =
    if leb idx log.last_included_index
    then none
    else get_elem? log.entries (idx - log.last_included_index - 1)

-- The base's term at and below the base, 0 past the tip.
unfoldable pub term_at : Log → ℕ → ℕ
unfolding term_of
term_at log idx =
    if leb idx log.last_included_index
    then log.last_included_term
    else if ltb (last_index log) idx
    then 0
    else term_of (get_elem? log.entries (idx - log.last_included_index - 1))

-- The id lists are stored for a configuration entry that has an old configuration, and for no other.
unfoldable pub stored : Entry → Entry
stored e =
    if e.kind == entry_config && mask_any e.cfg_old
    then e
    else record e { cfg_old = []; cfg_new = []; cfg_learners = [] }

-- The chunk that an offset above the base falls in: `off >> chunk_bits`.
abbrev pub chunk_of : Log → ℕ → ℕ
chunk_of log off = off / 2 ^ log.chunk_bits

abbrev pub stores_cfg : Entry → Bool
stores_cfg e = e.kind == entry_config && mask_any e.cfg_old

unfoldable pub append : Log → Entry → Log
unfolding stored
append log e = record log {
  entries = log.entries ++ stored e ∷ [];
  has_cfg = λ c. log.has_cfg c || (stores_cfg e && c == chunk_of log (length log.entries));
}

-- The chunks that `n` entries need: `(n + chunk_size - 1) >> chunk_bits`.
abbrev pub chunks_for : Log → ℕ → ℕ
chunks_for log n = (n + 2 ^ log.chunk_bits - 1) / 2 ^ log.chunk_bits

-- `none` is the -1 below the base; at and past the tip nothing happens. The chunks that are no longer
-- needed are released.
unfoldable pub truncate : Log → ℕ → Option Log
truncate log idx =
    if ltb idx log.last_included_index
    then none
    else if leb (last_index log) idx
    then some log
    else some (record log {
      entries = take (idx - log.last_included_index) log.entries;
      has_cfg = λ c. ltb c (chunks_for log (idx - log.last_included_index)) && log.has_cfg c;
    })

-- The id lists that a scan of the log finds at an index: those of a configuration entry, in a chunk
-- with room for id lists.
unfoldable pub config_at : Log → ℕ → Option (Mask × Mask × Mask)
unfolding entry_at
config_at log idx = elim (entry_at log idx) [
  | none ↦ none
  | some e ↦
      if e.kind == entry_config && log.has_cfg (chunk_of log (idx - log.last_included_index - 1))
      then some (e.cfg_old, e.cfg_new, e.cfg_learners)
      else none
]
