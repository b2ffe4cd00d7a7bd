-- ===== src/Raft/Commit.antt =====
-- Advancing the commit index: raft_advance_commit of code/raft.h.
pub mod Bounds
use kynovo.Common.{
  ℕ, zero, suc, ◌+◌, ◌-◌, Bool, true, false, not, ◌&&◌, ltb, leb, ◌==◌, if◌then◌else◌, of_bool,
}
use kynovo.Raft.Log.{last_index, term_at}
use kynovo.Raft.State.{Ctx}
use kynovo.Raft.Quorum.{self_in, quorum_size_of, count_match, has_voter_peer}

-- The node's own entry counts once it is durable, unless it has no voter to wait for.
abbrev pub self_match : Bool → ℕ → Ctx → ℕ
self_match old idx r =
    if has_voter_peer r
    then of_bool (self_in old r && leb idx r.durable.durable_index)
    else of_bool (self_in old r)

unfoldable pub is_majority : Bool → ℕ → Ctx → Bool
is_majority old idx r = leb (quorum_size_of old r) (self_match old idx r + count_match old idx r)

-- Both majorities in a joint configuration.
unfoldable pub may_commit : ℕ → Ctx → Bool
unfolding is_majority
may_commit idx r =
    if r.members.config_joint
    then is_majority true idx r && is_majority false idx r
    else is_majority false idx r

-- The loop, with `n` indices left up to the tip: an entry of another term is passed over.
commit_from : ℕ → ℕ → Ctx → Ctx
commit_from zero idx r = r
commit_from (suc n) idx r =
    let next =
      commit_from n (idx + 1) (record r { commit_index = idx; leadership_confirmed = true }) in
    let skip = commit_from n (idx + 1) r in
    if term_at r.log idx == r.current_term then (if may_commit idx r then next else r) else skip

unfoldable pub advance_commit : Ctx → Ctx
unfolding commit_from
advance_commit r = commit_from (last_index r.log - r.commit_index) (r.commit_index + 1) r
