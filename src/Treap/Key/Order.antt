-- ===== src/Treap/Key/Order.antt =====
-- The order of the keys is the lexicographic one, and a strict total order.
use kynovo.Common.{
  ℕ, suc, ◌<◌, ◌≡◌, min, [], ◌∷◌, length, arith, refl, ◌∙◌, sym, ◌⊎◌, inl, inr, ap₂,
}
use kynovo.Treap.Key.{Sign, less, equal, greater, Key, sign_of, then_by, memcmp, key_cmp}

-- The first byte that differs decides, and a proper prefix comes first.
unfoldable pub lex : Key → Key → Sign
lex [] [] = equal
lex [] (y ∷ b) = less
lex (x ∷ a) [] = greater
lex (x ∷ a) (y ∷ b) = then_by (sign_of x y) (lex a b)

abbrev pub flip : Sign → Sign
flip less = greater
flip equal = equal
flip greater = less

then_by_assoc : (s t u : Sign) → then_by (then_by s t) u ≡ then_by s (then_by t u)
then_by_assoc less t u = refl
then_by_assoc equal t u = refl
then_by_assoc greater t u = refl

min-suc : (a b : ℕ) → min (suc a) (suc b) ≡ suc (min a b)
min-suc a b = omega arith

sign_of-suc : (a b : ℕ) → sign_of (suc a) (suc b) ≡ sign_of a b
sign_of-suc a b = ground arith

-- The comparison of a common prefix and then of the lengths is the lexicographic order of the bytes.
pub key_cmp-eq-lex : (a b : Key) → key_cmp a b ≡ lex a b
unfolding key_cmp memcmp lex
key_cmp-eq-lex [] [] = refl
key_cmp-eq-lex [] (y ∷ b) = ground arith
key_cmp-eq-lex (x ∷ a) [] = ground arith
key_cmp-eq-lex (x ∷ a) (y ∷ b) =
    rw (min-suc (length a) (length b), sign_of-suc, then_by_assoc, ← key_cmp-eq-lex a b) refl

sign_of-flip : (a b : ℕ) → sign_of b a ≡ flip (sign_of a b)
sign_of-flip a b = ground arith

flip-then_by : (s t : Sign) → flip (then_by s t) ≡ then_by (flip s) (flip t)
flip-then_by less t = refl
flip-then_by equal t = refl
flip-then_by greater t = refl

lex-flip : (a b : Key) → lex b a ≡ flip (lex a b)
unfolding lex
lex-flip [] [] = refl
lex-flip [] (y ∷ b) = refl
lex-flip (x ∷ a) [] = refl
lex-flip (x ∷ a) (y ∷ b) = rw (sign_of-flip x y, lex-flip a b, flip-then_by) refl

pub key_cmp-flip : (a b : Key) → key_cmp b a ≡ flip (key_cmp a b)
key_cmp-flip a b = rw (key_cmp-eq-lex a b, key_cmp-eq-lex b a) (lex-flip a b)

sign_of_self : (x : ℕ) → sign_of x x ≡ equal
sign_of_self x = ground arith

abbrev Signed : ℕ → ℕ → Type 0
Signed x y =
    ((x < y) × (sign_of x y ≡ less))
    ⊎ (((x ≡ y) × (sign_of x y ≡ equal)) ⊎ ((y < x) × (sign_of x y ≡ greater)))

Signed-all : (x y : ℕ) → Signed x y
Signed-all x y = ground arith

lex-equal : (a b : Key) → lex a b ≡ equal → a ≡ b
unfolding lex
lex-equal [] [] h = refl
lex-equal [] (y ∷ b) h = cc h
lex-equal (x ∷ a) [] h = cc h
lex-equal (x ∷ a) (y ∷ b) h = elim (Signed-all x y) [
  | inl (lt, e) ↦ cc (rw e at h)
  | inr (inl (same, e)) ↦ ap₂ (λ u v. u ∷ v) same (lex-equal a b (rw e at h))
  | inr (inr (gt, e)) ↦ cc (rw e at h)
]

less_lem : (x z : ℕ) → x < z → sign_of x z ≡ less
less_lem x z h = ground arith

lex_trans : (a b c : Key) → lex a b ≡ less → lex b c ≡ less → lex a c ≡ less
unfolding lex
lex_trans [] [] c h k = cc h
lex_trans [] (y ∷ b) [] h k = cc k
lex_trans [] (y ∷ b) (z ∷ c) h k = refl
lex_trans (x ∷ a) [] c h k = cc h
lex_trans (x ∷ a) (y ∷ b) [] h k = cc k
lex_trans (x ∷ a) (y ∷ b) (z ∷ c) h k = elim (Signed-all x y) [
  | inl (lt, e) ↦ elim (Signed-all y z) [
    | inl (lt', f) ↦ rw (less_lem x z (omega arith)) refl
    | inr (inl (same, f)) ↦ rw (less_lem x z (omega arith)) refl
    | inr (inr (gt, f)) ↦ cc (rw f at k)
  ]
  | inr (inl (same, e)) ↦ elim (Signed-all y z) [
    | inl (lt', f) ↦ rw (less_lem x z (omega arith)) refl
    | inr (inl (same', f)) ↦
        let eq : x ≡ z = omega arith in
        rw (eq, sign_of_self) (lex_trans a b c (rw e at h) (rw f at k))
    | inr (inr (gt, f)) ↦ cc (rw f at k)
  ]
  | inr (inr (gt, e)) ↦ cc (rw e at h)
]

pub key_cmp-equal : (a b : Key) → key_cmp a b ≡ equal → a ≡ b
key_cmp-equal a b h = lex-equal a b (sym (key_cmp-eq-lex a b) ∙ h)

pub key_cmp_trans : (a b c : Key) → key_cmp a b ≡ less → key_cmp b c ≡ less → key_cmp a c ≡ less
key_cmp_trans a b c h k =
    key_cmp-eq-lex a c
    ∙ lex_trans a b c (sym (key_cmp-eq-lex a b) ∙ h) (sym (key_cmp-eq-lex b c) ∙ k)
