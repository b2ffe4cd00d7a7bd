-- ===== src/Raft/Durable.antt =====
-- The durable frontier under a cut of the log: raft_durable_clamp and raft_log_cut of code/raft.h.
use kynovo.Common.{ℕ, Option, none, some, ltb, if◌then◌else◌}
use kynovo.Raft.Log.{truncate}
use kynovo.Raft.State.{Ctx}

-- `if(x > highest) x = highest`
abbrev pub lower : ℕ → ℕ → ℕ
lower highest x = if ltb highest x then highest else x

-- -1 is below every index.
abbrev pub lower_option : ℕ → Option ℕ → Option ℕ
lower_option highest none = none
lower_option highest (some x) = some (lower highest x)

unfoldable pub durable_clamp : ℕ → Ctx → Ctx
durable_clamp highest r = record r {
  durable = record r.durable {
    durable_index = lower highest r.durable.durable_index;
    durable_confirm = lower highest r.durable.durable_confirm;
    persist_synced_index = lower highest r.durable.persist_synced_index;
  };
  deferred = record r.deferred {
    append_last_index = lower_option highest r.deferred.append_last_index;
  };
}

-- A refused cut (below the base) changes nothing; no caller looks at the result.
unfoldable pub log_cut : ℕ → Ctx → Ctx
unfolding truncate durable_clamp
log_cut idx r = elim (truncate r.log idx) [
  | none ↦ r
  | some log ↦ durable_clamp idx (record r { log = log })
]
