-- ===== src/Server/State.antt =====
-- The part of a `k_server` of code/kserver.h that a command changes, and the writes of a command on a
-- fork of the tree (treap_fork, treap_commit and treap_abort of code/treap.h).
use kynovo.Common.{Bool, Option, none, some, if◌then◌else◌}
use kynovo.Common.Memory.{allocate, Rc, ok, fail}
use kynovo.Bytes.Word.{Bytes}
use kynovo.Bytes.Buf.{Buf, empty_buf, put}
use kynovo.Treap.Map.{Treap}

-- What a command leaves for the client that waits for it.
pub record Request : Type 0 where
  pub conflict : Bool
  pub result : Bytes

-- The map, whose allocator is that of the whole server, and the request that `k_request_find` finds
-- for the command's cookie, if there is one.
pub record Server : Type 0 where
  pub tree : Treap
  pub waiting : Option Request

-- A fork has the root and the count of the tree, and nodes of its own for what it changes.
unfoldable pub fork : Server → Bool × Treap
unfolding allocate
fork s = let (got, memory) = allocate s.tree.memory in (got, record s.tree { memory = memory })

abbrev pub commit : Treap → Server → Server
commit copy s = record s {
  tree = record s.tree { root = copy.root; count = copy.count; memory = copy.memory };
}

-- The fork's nodes are freed; what is left of it is the allocator.
abbrev pub abort : Treap → Server → Server
abort copy s = record s { tree = record s.tree { memory = copy.memory } }

abbrev pub with_result : Bool → Buf → Server → Rc × Server
with_result conflict b s = (
  if b.err then fail else ok,
  record {
    tree = record s.tree { memory = b.memory };
    waiting = some record { conflict = conflict; result = b.bytes };
  },
)

unfoldable pub result_for : Bytes → Server → Option Request → Rc × Server
result_for bs s none = (ok, s)
result_for bs s (some q) = with_result q.conflict (put bs (empty_buf s.tree.memory)) s

-- The result for the client, if one waits.
abbrev pub set_result : Bytes → Server → Rc × Server
set_result bs s = result_for bs s s.waiting
