-- ===== src/Treap/Listing.antt =====
-- Sorted lists of entries under the updates of code/treap.h.
use kynovo.Common.{
  ◌≡◌, refl, List, [], ◌∷◌, ◌++◌, Bool, true, Bool-cases, All, inl, inr, All-map, All-keep,
  keep-All, keep,
}
use kynovo.Treap.Key.{Sign, less, equal, greater, Key, key_cmp, is_less}
use kynovo.Treap.Key.Order.{key_cmp_trans}
use kynovo.Treap.Entries.{Entry, Below, Above, IsSorted, below, above}
use kynovo.Treap.Refine.{put}

pub All-append : (P : Entry → Type 0) (xs ys : List Entry) → All P xs → All P ys → All P (xs ++ ys)
All-append P [] ys a b = b
All-append P (x ∷ xs) ys a b = (a.0, All-append P xs ys a.1 b)

pub keep-IsSorted : (f : Entry → Bool) (es : List Entry) → IsSorted es → IsSorted (keep f es)
keep-IsSorted f [] h = tt
keep-IsSorted f (e ∷ es) (a, h) = elim (Bool-cases (f e)) [
  | inl kept ↦ rw kept (All-keep _ f es a, keep-IsSorted f es h)
  | inr dropped ↦ rw dropped (keep-IsSorted f es h)
]

pub IsSorted-join :
    (key : Key) (value : Key) (xs ys : List Entry)
    → IsSorted xs
    → Below key xs
    → Above key ys
    → IsSorted ys
    → IsSorted (xs ++ (key, value) ∷ ys)
IsSorted-join key value [] ys h b a s = (a, s)
IsSorted-join key value (x ∷ xs) ys (g, h) (b, bs) a s = (
  All-append _ xs _ g (b, All-map _ _ ys (λ y p. key_cmp_trans x.0 key y.0 b p) a),
  IsSorted-join key value xs ys h bs a s,
)

pub is_less_lem : (a b : Key) → is_less (key_cmp a b) ≡ true → key_cmp a b ≡ less
is_less_lem a b h = by_sign (key_cmp a b) h
  where
    by_sign : (s : Sign) → is_less s ≡ true → s ≡ less
    by_sign less n = refl
    by_sign equal n = cc n
    by_sign greater n = cc n

pub put-IsSorted : (key value : Key) (es : List Entry) → IsSorted es → IsSorted (put key value es)
put-IsSorted key value es h =
    IsSorted-join key value (below key es) (above key es) (keep-IsSorted _ es h)
      (All-map _ _ _ (λ e p. is_less_lem e.0 key p) (keep-All _ es))
      (All-map _ _ _ (λ e p. is_less_lem key e.0 p) (keep-All _ es)) (keep-IsSorted _ es h)
