-- ===== src/Common/Memory.antt =====
-- Return codes, and the allocator: the outcomes of the allocations to come, in order. After the last of them every
-- allocation succeeds.
use mathlib.Core.Bool.{Bool, true, false}
use mathlib.Core.List.{List, [], ◌∷◌}
use kynovo.Common.Tests.{if◌then◌else◌}

-- What a function returns as 0 or -1.
pub data Rc : Type 0 where
  ok fail : Rc

-- One allocation: whether it succeeds, and the allocator after it.
unfoldable pub allocate : List Bool → Bool × List Bool
allocate [] = (true, [])
allocate (b ∷ bs) = (b, bs)

-- The allocations of one call in turn, each made if its flag is set; the first failure is the last.
unfoldable pub allocate_each : List Bool → List Bool → Bool × List Bool
unfolding allocate
allocate_each [] memory = (true, memory)
allocate_each (needed ∷ ns) memory =
    let (got, memory') = if needed then allocate memory else (true, memory) in
    let rest = allocate_each ns memory' in if got then rest else (false, memory')
