-- ===== src/Wire/Frame/Fronts.antt =====
-- What stands at the front of the received bytes, when more bytes follow (k_rx_feed of code/kproto.h).
use kynovo.Common.{
  ℕ, ◌+◌, ◌<◌, ◌≤◌, ◌≡◌, [], ◌∷◌, ◌++◌, Bool, true, false, ltb, arith, length, drop, refl, ap,
  length-append, length-drop, take-append_left, drop-append_left, Bool-cases, inl, inr,
}
use kynovo.Common.Memory.{ok, fail}
use kynovo.Bytes.Word.{Bytes, read_u8, read_u16, read_u32}
use kynovo.Wire.{frame_header, frame_max}
use kynovo.Wire.Frame.{Front, wait, bad, frame, front, header_ok}

pub read_u32-append : (x b : Bytes) → 4 ≤ length x → read_u32 (x ++ b) ≡ read_u32 x
unfolding read_u32
read_u32-append [] b h = absurd (omega arith)
read_u32-append (p ∷ []) b h = absurd (omega arith)
read_u32-append (p ∷ q ∷ []) b h = absurd (omega arith)
read_u32-append (p ∷ q ∷ r ∷ []) b h = absurd (omega arith)
read_u32-append (p ∷ q ∷ r ∷ s ∷ x) b h = refl

pub read_u16-append : (x b : Bytes) → 2 ≤ length x → read_u16 (x ++ b) ≡ read_u16 x
unfolding read_u16
read_u16-append [] b h = absurd (omega arith)
read_u16-append (p ∷ []) b h = absurd (omega arith)
read_u16-append (p ∷ q ∷ x) b h = refl

pub read_u8-append : (x b : Bytes) → 1 ≤ length x → read_u8 (x ++ b) ≡ read_u8 x
unfolding read_u8
read_u8-append [] b h = absurd (omega arith)
read_u8-append (p ∷ x) b h = refl

-- A front that is not short of bytes stays when more bytes follow.
abbrev pub extend : Bytes → Front → Front
extend b wait = wait
extend b bad = bad
extend b (frame type payload rest) = frame type payload (rest ++ b)

abbrev pub is_wait : Front → Bool
is_wait wait = true
is_wait bad = false
is_wait (frame type payload rest) = false

pub front-append :
    (magic : ℕ) (x b : Bytes)
    → is_wait (front magic x) ≡ false
    → front magic (x ++ b) ≡ extend b (front magic x)
unfolding front
front-append magic x b h = elim (Bool-cases (ltb (length x) frame_header)) [
  | inl short ↦ cc (rw short at h)
  | inr long ↦
      let room : 12 ≤ length x = ground arith in
      let long' : ltb (length (x ++ b)) frame_header ≡ false = ground (arith, length-append x b) in
      let size : read_u32 (drop 8 (x ++ b)) ≡ read_u32 (drop 8 x) =
        rw (drop-append_left 8 x b (omega arith))
          (read_u32-append (drop 8 x) b (omega (arith, length-drop 8 x))) in
      let head : header_ok magic (x ++ b) ≡ header_ok magic x =
        rw
          (
            drop-append_left 4 x b (omega arith),
            drop-append_left 6 x b (omega arith),
            read_u32-append x b (omega arith),
            read_u8-append (drop 4 x) b (omega (arith, length-drop 4 x)),
            read_u16-append (drop 6 x) b (omega (arith, length-drop 6 x)),
          )
          refl in
      elim (Bool-cases (header_ok magic x)) [
        | inr off ↦ rw (long, long', head, off) refl
        | inl fits ↦ elim (Bool-cases (ltb frame_max (read_u32 (drop 8 x)))) [
          | inl large ↦ rw (long, long', head, fits, size, large) refl
          | inr small ↦ elim (Bool-cases (ltb (length x) (frame_header + read_u32 (drop 8 x)))) [
            | inl part ↦ cc (rw (long, fits, small, part) at h)
            | inr whole ↦
                let n = read_u32 (drop 8 x) in
                let reach : 12 + n ≤ length x = ground arith in
                let whole' : ltb (length (x ++ b)) (frame_header + n) ≡ false =
                  ground (arith, length-append x b) in
                rw (long, long', head, fits, size, small, whole, whole')
                  (rw
                    (
                      drop-append_left 5 x b (omega arith),
                      drop-append_left 12 x b (omega arith),
                      drop-append_left (12 + n) x b reach,
                      read_u8-append (drop 5 x) b (omega (arith, length-drop 5 x)),
                      take-append_left n (drop 12 x) b (omega (arith, length-drop 12 x)),
                    )
                    refl)
          ]
        ]
      ]
]

pub not_ok : fail ≡ ok → ⊥
not_ok h = cc h

-- A frame takes its header at least.
pub front-shrinks :
    (magic : ℕ) (x payload rest : Bytes) (type : ℕ)
    → front magic x ≡ frame type payload rest
    → length rest < length x
unfolding front
front-shrinks magic x payload rest type h = elim (Bool-cases (ltb (length x) frame_header)) [
  | inl short ↦ cc (rw short at h)
  | inr long ↦ elim (Bool-cases (header_ok magic x)) [
    | inr off ↦ cc (rw (long, off) at h)
    | inl fits ↦ elim (Bool-cases (ltb frame_max (read_u32 (drop 8 x)))) [
      | inl large ↦ cc (rw (long, fits, large) at h)
      | inr small ↦ elim (Bool-cases (ltb (length x) (frame_header + read_u32 (drop 8 x)))) [
        | inl part ↦ cc (rw (long, fits, small, part) at h)
        | inr whole ↦
            let e = rw (long, fits, small, whole) at h in
            ground (arith, ap length (ap rest_of e), length-drop (12 + read_u32 (drop 8 x)) x)
      ]
    ]
  ]
]
  where
    rest_of : Front → Bytes
    rest_of wait = []
    rest_of bad = []
    rest_of (frame t p r) = r

pub front-short : (magic : ℕ) (x : Bytes) → length x < 12 → front magic x ≡ wait
unfolding front
front-short magic x h =
    let short : ltb (length x) frame_header ≡ true = ground arith in rw short refl
