-- ===== src/Server/Cas/Swap.antt =====
-- K_OP_CAS of code/kserver.h as an update of a sorted list of entries.
use kynovo.Common.{◌^◌, ◌<◌, ◌≡◌, ◌≢◌, ◌⊎◌, [], Bool, true, false, Option, none, some, length}
use kynovo.Common.Memory.{Rc, ok, fail}
use kynovo.Bytes.Word.{Bytes}
use kynovo.Bytes.Reader.{bytes_of}
use kynovo.Treap.Key.{Key}
use kynovo.Treap.Map.{Treap}
use kynovo.Treap.Entries.{entries}
use kynovo.Treap.Refine.{put}
use kynovo.Treap.Queries.{lookup}
use kynovo.Treap.Update.{Valid, Unchanged}
use kynovo.Server.State.{Request, Server}
use kynovo.Server.Cas.{Cas, conflict_with}

-- What stands under the key, and whether it conflicts with what is expected.
abbrev pub current_of : Cas → Server → Option Key
current_of cas s = lookup cas.key (entries s.tree.root)

abbrev pub conflict_of : Cas → Server → Bool
conflict_of cas s = conflict_with cas.expected (current_of cas s)

-- A client that waits finds the conflict and the value that was there if 0 is returned. -1 is returned
-- only if a client waits, and, while the value has a length of one word, not with memory left.
pub record Told (conflict : Bool) (current : Option Key) (s : Server) (out : Rc × Server)
    : Type 0 where
  pub answered :
      (q : Request)
      → s.waiting ≡ some q
      → out.0 ≡ ok
      → out.1.waiting ≡ some record { conflict = conflict; result = bytes_of current }
  pub alone : s.waiting ≡ none → out.0 ≡ ok
  pub fits : s.tree.memory ≡ [] → length (bytes_of current) < 2 ^ 32 → out.0 ≡ ok

-- On a conflict the map stays. With no conflict the new value is under the key; or, where an
-- allocation is denied, -1 is returned and the map stays.
abbrev pub Swapped : Cas → Server → Rc × Server → Type 0
Swapped cas s out =
    ((conflict_of cas s ≡ true) × Unchanged s.tree out.1.tree × Told true (current_of cas s) s out)
    ⊎ ((conflict_of cas s ≡ false)
        × ((Valid out.1.tree
              × (entries out.1.tree.root ≡ put cas.key cas.new (entries s.tree.root))
              × Told false (current_of cas s) s out)
            ⊎ ((s.tree.memory ≢ []) × (out.0 ≡ fail) × Unchanged s.tree out.1.tree)))
