-- ===== src/Treap/Tests.antt =====
-- The map at concrete inputs: three keys are set in an empty map, and one is deleted.
use kynovo.Common.{◌≡◌, refl, [], ◌∷◌, some, if◌then◌else◌, length}
use kynovo.Common.Memory.{allocate, allocate_each}
use kynovo.Treap.Key.{Key, key_cmp, is_equal}
use kynovo.Treap.Tree.{Tree, leaf, node, find, split, remove_min, leftmost}
use kynovo.Treap.Map.{count_range, Treap, set, delete, get, delete_needs, delete_with}
use kynovo.Treap.Entries.{entries}
use kynovo.Treap.Delete.{Deleted, delete-Deleted}
use kynovo.Treap.Update.{Valid, Updated, set-Updated, set_succeeds}
use kynovo.Treap.Count.{count_range-keep}
use kynovo.Common.{keep, not, ◌&&◌}
use kynovo.Treap.Range.{is_before, is_after, Cleared, delete_range-Cleared}
use kynovo.Treap.Map.{delete_range, delete_range_with, range_needs, from_bound, to_bound, nodes}
use kynovo.Treap.Laws.{get-set}

abbrev apple : Key
apple = 1 ∷ 2 ∷ []

abbrev banana : Key
banana = 1 ∷ []

abbrev cherry : Key
cherry = 3 ∷ []

-- `banana` and `apple` below `cherry`, at the root.
abbrev fruits : Tree
fruits =
    node 90 3 cherry (7 ∷ []) (node 50 2 banana [] leaf (node 40 1 apple (8 ∷ 9 ∷ []) leaf leaf))
      leaf

abbrev basket : Treap
basket = record { root = fruits; count = 3; seed = 5; memory = [] }

basket-Valid : Valid basket
unfolding entries key_cmp
basket-Valid = record {
  sorted = ((refl, (refl, tt)), ((refl, tt), (tt, tt)));
  sized = (refl, ((refl, (tt, (refl, (tt, tt)))), tt));
  counted = refl;
}

finds_apple : find apple fruits ≡ some (8 ∷ 9 ∷ [])
unfolding find key_cmp
finds_apple = refl

set-Updated_example : Updated apple (6 ∷ []) basket (set apple (6 ∷ []) basket)
set-Updated_example = set-Updated apple (6 ∷ []) basket basket-Valid

set_succeeds_example : (set apple (6 ∷ []) basket).0 ≡ some 0
set_succeeds_example = set_succeeds apple (6 ∷ []) basket refl refl refl

delete-Deleted_example : Deleted banana basket (delete banana basket)
delete-Deleted_example = delete-Deleted banana basket basket-Valid

get-set_example :
    get apple (set apple (6 ∷ []) basket).1
    ≡ (if is_equal (key_cmp apple apple) then some (some (6 ∷ [])) else get apple basket)
get-set_example = get-set apple apple (6 ∷ []) basket basket-Valid set_succeeds_example

deletes_banana : (delete banana basket).0 ≡ some 1
unfolding delete delete_with delete_needs allocate_each allocate split leftmost remove_min key_cmp
deletes_banana = refl

delete_range-Cleared_example : Cleared apple [] basket (delete_range apple [] basket)
delete_range-Cleared_example = delete_range-Cleared apple [] basket basket-Valid

-- From `apple` on: two of the three.
clears_two : (delete_range apple [] basket).0 ≡ some 2
unfolding delete_range delete_range_with range_needs from_bound to_bound nodes allocate_each
    allocate split key_cmp
clears_two = refl

count_range-keep_example :
    count_range apple cherry basket
    ≡ length (keep (λ e. not (is_before apple e) && not (is_after cherry e)) (entries fruits))
count_range-keep_example = count_range-keep apple cherry basket basket-Valid
