-- ===== src/Wire/Frame/Loop.antt =====
-- The loop of k_rx_feed of code/kproto.h: it ends, and it goes on where it stopped.
use kynovo.Common.{
  ℕ, zero, suc, ◌<◌, ◌≤◌, ◌≡◌, [], ◌++◌, none, some, arith, length, refl, sym, ap, ◌∙◌,
  length-append, inl, inr, ◌⊎◌,
}
use mathlib.Core.Path.{fun_ext}
use kynovo.Common.Memory.{Rc, ok, fail}
use kynovo.Bytes.Word.{Bytes}
use kynovo.Wire.Frame.{
  Front, wait, bad, frame, front, Verdict, taken, refused, closed, Fed, after, at_front, feed_loop,
  Rx, fed,
}
use kynovo.Wire.Frame.Fronts.{is_wait, front-append, not_ok, front-shrinks, front-short}

module _ {ℓ} {S : Type ℓ} (magic : ℕ) (handler : ℕ → Bytes → S → Verdict × S) where
  abbrev pub loop : ℕ → Bytes → S → Fed S
  loop n x s = feed_loop magic handler n x s

  -- Fuel beyond the number of the bytes changes nothing.
  pub feed_loop_ends :
      (n m : ℕ) (x : Bytes) (s : S) → length x ≤ n → length x ≤ m → loop n x s ≡ loop m x s
  unfolding feed_loop at_front
  feed_loop_ends zero zero x s hn hm = refl
  feed_loop_ends zero (suc m) x s hn hm = rw (front-short magic x (omega arith)) refl
  feed_loop_ends (suc n) zero x s hn hm = rw (front-short magic x (omega arith)) refl
  feed_loop_ends (suc n) (suc m) x s hn hm =
      by_front (front magic x) refl (λ r lt s'. feed_loop_ends n m r s' (omega arith) (omega arith))
    where
      by_front :
          (f : Front)
          → front magic x ≡ f
          → ((r : Bytes) → length r < length x → (s' : S) → loop n r s' ≡ loop m r s')
          → at_front magic handler x (loop n) f s ≡ at_front magic handler x (loop m) f s
      by_front wait e ih = refl
      by_front bad e ih = refl
      by_front (frame t p r) e ih =
          ap (λ k. after magic handler x k (handler t p s))
            (fun_ext (ih r (front-shrinks magic x p r t e)))

  pub bytes_left : Fed S → Bytes
  bytes_left (rc, some x, s) = x
  bytes_left (rc, none, s) = []

  pub stopped :
      (x b x' : Bytes) (s s' : S) (m : ℕ)
      → length (x ++ b) ≤ m
      → ◌≡◌ {A = Fed S} (ok, some x, s) (ok, some x', s')
      → loop m (x ++ b) s ≡ loop (length (x' ++ b)) (x' ++ b) s'
  unfolding bytes_left
  stopped x b x' s s' m hm h =
      let same : x ≡ x' = ap bytes_left h in
      let state : s ≡ s' = ap (λ t. t.2) h in
      rw (← same, ← state) (feed_loop_ends m (length (x ++ b)) (x ++ b) s hm (omega arith))

  -- What the loop does not take at once it takes with what follows.
  pub loop-append :
      (n : ℕ) (x b x' : Bytes) (s s' : S) (m : ℕ)
      → length x ≤ n
      → length (x ++ b) ≤ m
      → loop n x s ≡ (ok, some x', s')
      → loop m (x ++ b) s ≡ loop (length (x' ++ b)) (x' ++ b) s'
  unfolding feed_loop at_front after
  loop-append zero x b x' s s' m hn hm h = stopped x b x' s s' m hm h
  loop-append (suc n) x b x' s s' zero hn hm h = stopped x b x' s s' zero hm (
      sym (
        ap (λ f. at_front magic handler x (loop n) f s)
          (front-short magic x (omega (arith, length-append x b))))
      ∙ h)
  loop-append (suc n) x b x' s s' (suc m) hn hm h = by_front (front magic x) refl h (λ r lt u k.
      loop-append n r b x' u s' m (omega arith)
        (omega (arith, length-append x b, length-append r b)) k)
    where
      by_verdict :
          (r : Bytes) (v : Verdict × S)
          → ((u : S)
              → loop n r u ≡ (ok, some x', s')
              → loop m (r ++ b) u ≡ loop (length (x' ++ b)) (x' ++ b) s')
          → after magic handler x (loop n r) v ≡ (ok, some x', s')
          → after magic handler (x ++ b) (loop m (r ++ b)) v ≡ loop (length (x' ++ b)) (x' ++ b) s'
      by_verdict r (taken, u) ih k = ih u k
      by_verdict r (refused, u) ih k = absurd (not_ok (ap (λ t. t.0) k))
      by_verdict r (closed, u) ih k = absurd (not_ok (ap (λ t. t.0) k))

      by_front :
          (f : Front)
          → front magic x ≡ f
          → at_front magic handler x (loop n) f s ≡ (ok, some x', s')
          → ((r : Bytes)
              → length r < length x
              → (u : S) → loop n r u ≡ (ok, some x', s')
              → loop m (r ++ b) u ≡ loop (length (x' ++ b)) (x' ++ b) s')
          → at_front magic handler (x ++ b) (loop m) (front magic (x ++ b)) s
            ≡ loop (length (x' ++ b)) (x' ++ b) s'
      by_front wait e k ih = stopped x b x' s s' (suc m) hm k
      by_front bad e k ih = absurd (not_ok (ap (λ t. t.0) k))
      by_front (frame t p r) e k ih =
          rw (front-append magic x b (ap is_wait e), e)
            (by_verdict r (handler t p s) (ih r (front-shrinks magic x p r t e)) k)

  -- A loop that ends well still has its bytes, and no more than it began with.
  abbrev pub Kept : Bytes → Fed S → Type ℓ
  Kept x f = ((y : Bytes) × (u : S) × (f ≡ (ok, some y, u)) × (length y ≤ length x)) ⊎ (f.0 ≡ fail)

  pub loop-Kept : (n : ℕ) (x : Bytes) (s : S) → Kept x (loop n x s)
  unfolding feed_loop at_front after
  loop-Kept zero x s = inl (x, s, refl, omega arith)
  loop-Kept (suc n) x s = by_front (front magic x) refl (λ r u. loop-Kept n r u)
    where
      longer : (r : Bytes) → length r < length x → (f : Fed S) → Kept r f → Kept x f
      longer r lt f (inl (y, u, e, le)) = inl (y, u, e, omega arith)
      longer r lt f (inr e) = inr e

      by_verdict :
          (r : Bytes) (v : Verdict × S)
          → length r < length x
          → ((u : S) → Kept r (loop n r u))
          → Kept x (after magic handler x (loop n r) v)
      by_verdict r (taken, u) lt ih = longer r lt _ (ih u)
      by_verdict r (refused, u) lt ih = inr refl
      by_verdict r (closed, u) lt ih = inr refl

      by_front :
          (f : Front)
          → front magic x ≡ f
          → ((r : Bytes) (u : S) → Kept r (loop n r u))
          → Kept x (at_front magic handler x (loop n) f s)
      by_front wait e ih = inl (x, s, refl, omega arith)
      by_front bad e ih = inr refl
      by_front (frame t p r) e ih =
          by_verdict r (handler t p s) (front-shrinks magic x p r t e) (ih r)

  -- What a feed leaves to see: its code, the bytes that are left, and the handler's state.
  abbrev pub seen : Rc × Rx × S → Rc × Bytes × S
  seen (rc, rx, s) = (rc, rx.bytes, s)

  abbrev pub shown : Fed S → Rc × Bytes × S
  shown (rc, some x, s) = (rc, x, s)
  shown (rc, none, s) = (rc, [], s)

  pub shown-code : (f : Fed S) → (shown f).0 ≡ f.0
  shown-code (rc, some x, s) = refl
  shown-code (rc, none, s) = refl

  pub seen-fed : (rx : Rx) (f : Fed S) → seen (fed magic handler rx f) ≡ shown f
  unfolding fed
  seen-fed rx (rc, some x, s) = refl
  seen-fed rx (rc, none, s) = refl

  pub memory-fed : (rx : Rx) (f : Fed S) → (fed magic handler rx f).1.memory ≡ rx.memory
  unfolding fed
  memory-fed rx (rc, some x, s) = refl
  memory-fed rx (rc, none, s) = refl
