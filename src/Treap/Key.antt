-- ===== src/Treap/Key.antt =====
-- The order of the keys of code/treap.h: treap_key_cmp.
pub mod Order
use kynovo.Common.{
  ℕ, zero, suc, min, List, [], ◌∷◌, ltb, ◌==◌, if◌then◌else◌, length, Bool, true, false,
}

-- The sign of an `int` that compares.
pub data Sign : Type 0 where
  less equal greater : Sign

abbrev pub Key : Type 0
Key = List ℕ

abbrev pub sign_of : ℕ → ℕ → Sign
sign_of a b = if ltb a b then less else if a == b then equal else greater

-- A sign that decides, or the next one.
abbrev pub then_by : Sign → Sign → Sign
then_by less s = less
then_by equal s = s
then_by greater s = greater

-- `memcmp(a,b,n)`; the source never reads past an end.
pub memcmp : ℕ → Key → Key → Sign
memcmp zero a b = equal
memcmp (suc n) [] b = equal
memcmp (suc n) (x ∷ a) [] = equal
memcmp (suc n) (x ∷ a) (y ∷ b) = then_by (sign_of x y) (memcmp n a b)

unfoldable pub key_cmp : Key → Key → Sign
unfolding memcmp
key_cmp a b = then_by (memcmp (min (length a) (length b)) a b) (sign_of (length a) (length b))

abbrev pub is_less : Sign → Bool
is_less less = true
is_less s = false

abbrev pub is_equal : Sign → Bool
is_equal equal = true
is_equal s = false

abbrev pub is_greater : Sign → Bool
is_greater greater = true
is_greater s = false
