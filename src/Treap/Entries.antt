-- ===== src/Treap/Entries.antt =====
-- The entries of a tree of code/treap.h in order, and what the walks do to them.
use kynovo.Common.{
  keep-none, keep_whole, keep-append, All-map, keep, All-halves, inr, inl, ◌≡◌, ◌∙◌, refl, sym, ap,
  ap₂, List, [], ◌∷◌, ◌++◌, true, false, not, length, append_assoc, append-nil, Bool-cases, All,
}
use kynovo.Treap.Key.{Sign, less, equal, greater, Key, key_cmp, is_less, is_greater}
use kynovo.Treap.Key.Order.{key_cmp-flip, key_cmp-equal, key_cmp_trans, flip}
use kynovo.Treap.Tree.{Tree, leaf, node, split, merge, priority_cmp}

abbrev pub Entry : Type 0
Entry = Key × Key

unfoldable pub entries : Tree → List Entry
entries leaf = []
entries (node p s k v l r) = entries l ++ (k, v) ∷ entries r

-- Every stored size is the number of entries of its subtree.
abbrev pub IsSized : Tree → Type 0
IsSized leaf = Unit
IsSized (node p s k v l r) = (s ≡ length (entries (node p s k v l r))) × (IsSized l × IsSized r)

abbrev pub Below : Key → List Entry → Type 0
Below key es = All (λ e. key_cmp e.0 key ≡ less) es

abbrev pub Above : Key → List Entry → Type 0
Above key es = All (λ e. key_cmp key e.0 ≡ less) es

-- Strictly ascending keys.
abbrev pub IsSorted : List Entry → Type 0
IsSorted [] = Unit
IsSorted (e ∷ es) = Above e.0 es × IsSorted es

-- The entries with a smaller key, those with a greater one, and those whose key is not smaller.
abbrev pub below : Key → List Entry → List Entry
below key es = keep (λ e. is_less (key_cmp e.0 key)) es

abbrev pub above : Key → List Entry → List Entry
above key es = keep (λ e. is_less (key_cmp key e.0)) es

abbrev pub from : Key → List Entry → List Entry
from key es = keep (λ e. not (is_less (key_cmp e.0 key))) es

pub merge-entries : (a b : Tree) → entries (merge a b) ≡ entries a ++ entries b
unfolding merge entries
merge-entries leaf b = refl
merge-entries (node p s k v l r) leaf = sym (append-nil _)
merge-entries (node p s k v l r) (node q t m w x y) =
    elim (Bool-cases (is_greater (priority_cmp p k q m))) [
      | inl high ↦ rw (high, merge-entries r (node q t m w x y), append_assoc) refl
      | inr low ↦ rw (low, merge-entries (node p s k v l r) x, append_assoc) refl
    ]

-- The two sides of an entry in a sorted list.
pub IsSorted-split :
    (xs ys : List Entry) (e : Entry)
    → IsSorted (xs ++ e ∷ ys)
    → (IsSorted xs × Below e.0 xs) × (Above e.0 ys × IsSorted ys)
IsSorted-split [] ys e h = ((tt, tt), h)
IsSorted-split (x ∷ xs) ys e (a, h) =
    let ((s, b), r) = IsSorted-split xs ys e h in
    let (left, mid) = All-halves _ xs (e ∷ ys) a in (((left, s), (mid.0, b)), r)

not_greater :
    (key k x : Key) → is_greater (key_cmp key k) ≡ false → key_cmp k x ≡ less → key_cmp key x ≡ less
not_greater key k x ng h = by_sign (key_cmp key k) refl ng
  where
    by_sign : (s : Sign) → key_cmp key k ≡ s → is_greater s ≡ false → key_cmp key x ≡ less
    by_sign less e n = key_cmp_trans key k x e h
    by_sign equal e n = rw (key_cmp-equal key k e) h
    by_sign greater e n = cc n

is_greater_lem : (a b : Key) → is_greater (key_cmp a b) ≡ true → key_cmp b a ≡ less
is_greater_lem a b h = by_sign (key_cmp a b) refl h
  where
    by_sign : (s : Sign) → key_cmp a b ≡ s → is_greater s ≡ true → key_cmp b a ≡ less
    by_sign less e n = cc n
    by_sign equal e n = cc n
    by_sign greater e n = key_cmp-flip a b ∙ ap flip e

pub not_less : (a b : Key) → key_cmp a b ≡ less → is_less (key_cmp b a) ≡ false
not_less a b h = rw (key_cmp-flip a b, h) refl

is_greater-is_less : (a b : Key) → is_greater (key_cmp a b) ≡ false → is_less (key_cmp b a) ≡ false
is_greater-is_less a b h = rw (key_cmp-flip a b) (by_sign (key_cmp a b) h)
  where
    by_sign : (s : Sign) → is_greater s ≡ false → is_less (flip s) ≡ false
    by_sign less n = refl
    by_sign equal n = refl
    by_sign greater n = cc n

pub split_root :
    (key k : Key) (v : Key) (xs ys : List Entry)
    → is_greater (key_cmp key k) ≡ true
    → IsSorted (xs ++ (k, v) ∷ ys)
    → (below key (xs ++ (k, v) ∷ ys) ≡ xs ++ (k, v) ∷ below key ys)
      × (from key (xs ++ (k, v) ∷ ys) ≡ from key ys)
split_root key k v xs ys h sorted =
    let ((sx, bx), (ay, sy)) = IsSorted-split xs ys (k, v) sorted in
    let small = is_greater_lem key k h in
    let smaller : All (λ e. is_less (key_cmp e.0 key) ≡ true) xs =
      All-map _ _ xs (λ e p. ap is_less (key_cmp_trans e.0 k key p small)) bx in
    (
      keep-append _ xs _ ∙ ap₂ (λ a b. a ++ b) (keep_whole _ xs smaller) (rw small refl),
      keep-append _ xs _
          ∙ ap₂ (λ a b. a ++ b) (keep-none _ xs (All-map _ _ xs (λ e p. ap not p) smaller))
              (rw small refl),
    )

pub split_below :
    (key k : Key) (v : Key) (xs ys : List Entry)
    → is_greater (key_cmp key k) ≡ false
    → IsSorted (xs ++ (k, v) ∷ ys)
    → (below key (xs ++ (k, v) ∷ ys) ≡ below key xs)
      × (from key (xs ++ (k, v) ∷ ys) ≡ from key xs ++ (k, v) ∷ ys)
split_below key k v xs ys h sorted =
    let ((sx, bx), (ay, sy)) = IsSorted-split xs ys (k, v) sorted in
    let here = is_greater-is_less key k h in
    let later : All (λ e. is_less (key_cmp e.0 key) ≡ false) ys =
      All-map _ _ ys (λ e p. not_less key e.0 (not_greater key k e.0 h p)) ay in
    (
      keep-append _ xs _
          ∙ ap (λ a. below key xs ++ a) (rw here (keep-none _ ys later))
          ∙ append-nil _,
      keep-append _ xs _
          ∙ ap (λ a. from key xs ++ a)
              (rw here
                (ap (λ l. (k, v) ∷ l) (keep_whole _ ys (All-map _ _ ys (λ e p. ap not p) later)))),
    )

pub split-entries :
    (key : Key) (t : Tree)
    → IsSorted (entries t)
    → (entries (split key t).0 ≡ below key (entries t))
      × (entries (split key t).1 ≡ from key (entries t))
unfolding split entries
split-entries key leaf h = (refl, refl)
split-entries key (node p s k v l r) h =
    let ((sl, bl), (ar, sr)) = IsSorted-split (entries l) (entries r) (k, v) h in
    elim (Bool-cases (is_greater (key_cmp key k))) [
      | inl gt ↦
          (let (b, f) = split_root key k v (entries l) (entries r) gt h in
            let (rb, rf) = split-entries key r sr in
            rw gt (ap (λ a. entries l ++ (k, v) ∷ a) rb ∙ sym b, rf ∙ sym f))
      | inr ng ↦
          (let (b, f) = split_below key k v (entries l) (entries r) ng h in
            let (lb, lf) = split-entries key l sl in
            rw ng (lb ∙ sym b, ap (λ a. a ++ (k, v) ∷ entries r) lf ∙ sym f))
    ]
