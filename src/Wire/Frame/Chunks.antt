-- ===== src/Wire/Frame/Chunks.antt =====
-- Where the stream is cut does not matter to k_rx_feed of code/kproto.h.
use kynovo.Common.{
  ℕ, ◌+◌, ◌-◌, ◌%◌, ◌≤◌, ◌≡◌, [], ◌++◌, false, ltb, leb, arith, length, refl, sym, ap, ap₂, ◌∙◌,
  u32_mod, length-append, Bool-cases, inl, inr, append_assoc,
}
use kynovo.Common.Memory.{allocate, Rc, ok, fail}
use kynovo.Bytes.Word.{Bytes}
use kynovo.Wire.{frame_header, frame_max}
use kynovo.Wire.Frame.{Verdict, feed_loop, Rx, feed_appended, rx_append, rx_feed}
use kynovo.Wire.Frame.Fronts.{not_ok}
use kynovo.Wire.Frame.Loop.{
  loop-append, Kept, loop-Kept, seen, shown, shown-code, seen-fed, memory-fed,
}

-- An append that fits, with memory left.
abbrev Appends : Bytes → Rx → Rc × Rx → Type 0
Appends bs rx out = (out.0 ≡ ok) × (out.1.bytes ≡ rx.bytes ++ bs) × (out.1.memory ≡ [])

rx_append-Appends :
    (bs : Bytes) (rx : Rx)
    → length rx.bytes + length bs ≤ frame_max + frame_header
    → rx.memory ≡ []
    → Appends bs rx (rx_append bs rx)
unfolding rx_append allocate
rx_append-Appends bs rx room m =
    let fits : ltb ((frame_max + frame_header + u32_mod - length rx.bytes) % u32_mod) (length bs)
        ≡ false =
      ground arith in
    elim (Bool-cases (leb (length rx.bytes + length bs) rx.cap)) [
      | inl roomy ↦ simp (fits, roomy, m) (refl, refl, refl)
      | inr full ↦ simp (fits, full, m) (refl, refl, refl)
    ]

module _ {ℓ} {S : Type ℓ} (magic : ℕ) (handler : ℕ → Bytes → S → Verdict × S) where
  -- A feed that fits is one run of the loop over the bytes that were left and the new ones.
  feed_loop_lem :
      (bs : Bytes) (rx : Rx) (s : S)
      → length rx.bytes + length bs ≤ frame_max + frame_header
      → rx.memory ≡ []
      → (seen magic handler (rx_feed magic handler bs rx s)
          ≡ shown magic handler
              (feed_loop magic handler (length (rx.bytes ++ bs)) (rx.bytes ++ bs) s))
        × ((rx_feed magic handler bs rx s).1.memory ≡ [])
  unfolding rx_feed feed_appended
  feed_loop_lem bs rx s room m = by_append (rx_append bs rx) (rx_append-Appends bs rx room m)
    where
      by_append :
          (out : Rc × Rx)
          → Appends bs rx out
          → (seen magic handler (feed_appended magic handler out s)
              ≡ shown magic handler
                  (feed_loop magic handler (length (rx.bytes ++ bs)) (rx.bytes ++ bs) s))
            × ((feed_appended magic handler out s).1.memory ≡ [])
      by_append (fail, r) (f, b, k) = absurd (not_ok f)
      by_append (ok, r) (f, b, k) = (
        seen-fed magic handler r _
            ∙ ap (λ y. shown magic handler (feed_loop magic handler (length y) y s)) b,
        memory-fed magic handler r _ ∙ k,
      )

  -- Where a stream is cut does not matter: if a first part is taken with no error, then feeding a
  -- second part gives the code, the bytes left and the handler's state that feeding both at once
  -- gives, for a handler of any kind, as long as both fit a frame of the greatest size with what was
  -- left before, and there is memory.
  pub rx_feed-append :
      (front_part back_part : Bytes) (rx : Rx) (s : S)
      → length rx.bytes + length front_part + length back_part ≤ frame_max + frame_header
      → rx.memory ≡ []
      → (rx_feed magic handler front_part rx s).0 ≡ ok
      → (let (rc, rx', s') = rx_feed magic handler front_part rx s in
          seen magic handler (rx_feed magic handler back_part rx' s'))
        ≡ seen magic handler (rx_feed magic handler (front_part ++ back_part) rx s)
  rx_feed-append x b rx s room m h =
      let y = rx.bytes ++ x in
      let (view, memory) = feed_loop_lem x rx s (omega arith) m in
      let (rc, rx', s') = rx_feed magic handler x rx s in
      by_kept (loop-Kept magic handler (length y) y s) rc rx' s' h view memory
    where
      by_kept :
          Kept magic handler
            (rx.bytes ++ x)
            (feed_loop magic handler (length (rx.bytes ++ x)) (rx.bytes ++ x) s)
          → (rc : Rc) (rx' : Rx) (s' : S) → rc ≡ ok
          → seen magic handler (rc, rx', s')
            ≡ shown magic handler
                (feed_loop magic handler (length (rx.bytes ++ x)) (rx.bytes ++ x) s)
          → rx'.memory ≡ []
          → seen magic handler (rx_feed magic handler b rx' s')
            ≡ seen magic handler (rx_feed magic handler (x ++ b) rx s)
      by_kept (inr f) rc rx' s' o v k =
          absurd (not_ok (sym f ∙ sym (shown-code magic handler _) ∙ sym (ap (λ t. t.0) v) ∙ o))
      by_kept (inl (z, u, e, le)) rc rx' s' o v k =
          let w : ◌≡◌ {A = Rc × Bytes × S} (rc, rx'.bytes, s') (ok, z, u) =
            v ∙ ap (shown magic handler) e in
          let left : rx'.bytes ≡ z = ap (λ t. t.1) w in
          let state : s' ≡ u = ap (λ t. t.2) w in
          let small : length z ≤ length (rx.bytes ++ x) = le in
          (feed_loop_lem b rx' s' (omega (arith, ap length left, length-append rx.bytes x, small))
            k).0
          ∙ ap₂ (λ q t. shown magic handler (feed_loop magic handler (length (q ++ b)) (q ++ b) t))
              left state
          ∙ ap (shown magic handler) (
              sym (
                loop-append magic handler (length (rx.bytes ++ x)) (rx.bytes ++ x) b z s u
                  (length ((rx.bytes ++ x) ++ b)) (omega arith) (omega arith) e))
          ∙ ap (λ q. shown magic handler (feed_loop magic handler (length q) q s))
              (append_assoc rx.bytes x b)
          ∙ sym ((feed_loop_lem (x ++ b) rx s (omega (arith, length-append x b)) m).0)
