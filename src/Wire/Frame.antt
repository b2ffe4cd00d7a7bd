-- ===== src/Wire/Frame.antt =====
-- Frames of code/kproto.h: k_frame_header_build, k_rx_append and k_rx_feed.
pub mod Chunks
pub mod Loop
pub mod RoundTrip
pub mod Fronts
use kynovo.Common.{
  ℕ, zero, suc, ◌+◌, ◌-◌, ◌*◌, ◌%◌, ◌^◌, ◌<◌, ◌≤◌, ◌≡◌, List, [], ◌∷◌, ◌++◌, Option, none, some,
  Bool, true, false, not, ◌&&◌, ◌||◌, ltb, leb, ◌==◌, if◌then◌else◌, arith, length, take, drop,
  refl, sym, ap, ◌∙◌, u32_mod,
}
use kynovo.Common.Memory.{allocate, Rc, ok, fail}
use kynovo.Bytes.Word.{Bytes, write_u8, write_u16, write_u32, read_u8, read_u16, read_u32}
use kynovo.Wire.{frame_header, frame_max, peer_magic}

-- The wire version of a kind of connection.
abbrev pub version_of : ℕ → ℕ
version_of magic = if magic == peer_magic then 3 else 1

unfoldable pub frame_header_build : ℕ → ℕ → ℕ → Bytes
frame_header_build magic type size =
    write_u32 magic
    ++ (write_u8 (version_of magic) ++ (write_u8 type ++ (write_u16 0 ++ write_u32 size)))

-- The received bytes that are not yet taken.
pub record Rx : Type 0 where
  pub bytes : Bytes
  pub cap : ℕ
  pub memory : List Bool

-- The doubling of the capacity.
grow : ℕ → ℕ → ℕ → ℕ
grow zero need cap = cap
grow (suc fuel) need cap =
    let rest = grow fuel need ((cap * 2) % u32_mod) in if ltb cap need then rest else cap

unfoldable pub rx_append : Bytes → Rx → Rc × Rx
unfolding grow
rx_append bs rx =
    let need = length rx.bytes + length bs in
    let (got, memory) = allocate rx.memory in
    if ltb ((frame_max + frame_header + u32_mod - length rx.bytes) % u32_mod) (length bs)
    then (fail, rx)
    else if leb need rx.cap
    then (ok, record rx { bytes = rx.bytes ++ bs })
    else if got
    then (
      ok,
      record {
        bytes = rx.bytes ++ bs;
        cap = grow 32 need (if rx.cap == 0 then 2048 else rx.cap);
        memory = memory;
      },
    )
    else (fail, record rx { memory = memory })

-- What stands at the front of the received bytes: not all of a frame, bytes that are no frame, or a
-- frame and what follows it.
pub data Front : Type 0 where
  wait bad : Front
  frame : (type : ℕ) (payload rest : Bytes) → Front

abbrev header_ok : ℕ → Bytes → Bool
header_ok magic bs =
    read_u32 bs == magic && read_u8 (drop 4 bs) == version_of magic && read_u16 (drop 6 bs) == 0

unfoldable pub front : ℕ → Bytes → Front
front magic bs =
    let size = read_u32 (drop 8 bs) in
    if ltb (length bs) frame_header
    then wait
    else if not (header_ok magic bs)
    then bad
    else if ltb frame_max size
    then bad
    else if ltb (length bs) (frame_header + size)
    then wait
    else frame (read_u8 (drop 5 bs)) (take size (drop frame_header bs))
        (drop (frame_header + size) bs)

-- What a handler does with a frame: it takes it, refuses it, or takes it and closes the connection,
-- which frees the received bytes.
pub data Verdict : Type 0 where
  taken refused closed : Verdict

-- How the loop ends: the code, what is left of the received bytes (`none` if they were freed), and the
-- handler's state.
abbrev pub Fed {ℓ} : Type ℓ → Type ℓ
Fed S = Rc × Option Bytes × S

module _ {ℓ} {S : Type ℓ} (magic : ℕ) (handler : ℕ → Bytes → S → Verdict × S) where
  unfoldable pub after : Bytes → (S → Fed S) → Verdict × S → Fed S
  after bs next (taken, s) = next s
  after bs next (refused, s) = (fail, some bs, s)
  after bs next (closed, s) = (fail, none, s)

  unfoldable pub at_front : Bytes → (Bytes → S → Fed S) → Front → S → Fed S
  at_front bs next wait s = (ok, some bs, s)
  at_front bs next bad s = (fail, some bs, s)
  at_front bs next (frame type payload rest) s = after bs (next rest) (handler type payload s)

  -- The loop of `k_rx_feed`. A frame has a header, so that a round for each byte is enough.
  unfoldable pub feed_loop : ℕ → Bytes → S → Fed S
  feed_loop zero bs s = (ok, some bs, s)
  feed_loop (suc fuel) bs s = at_front bs (feed_loop fuel) (front magic bs) s

  unfoldable pub fed : Rx → Fed S → Rc × Rx × S
  fed rx (rc, some bs, s) = (rc, record rx { bytes = bs }, s)
  fed rx (rc, none, s) = (rc, record { bytes = []; cap = 0; memory = rx.memory }, s)

  unfoldable pub feed_appended : Rc × Rx → S → Rc × Rx × S
  feed_appended (fail, rx) s = (fail, rx, s)
  feed_appended (ok, rx) s = fed rx (feed_loop (length rx.bytes) rx.bytes s)

  unfoldable pub rx_feed : Bytes → Rx → S → Rc × Rx × S
  rx_feed bs rx s = feed_appended (rx_append bs rx) s
