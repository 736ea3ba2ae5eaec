-- ===== src/Protocol/Pool/Delivery.antt =====
-- A Wait gets what a Push under its own protocol sent, and nothing else.
use proxyot.Prelude.{
  Option-cases, ℕ, ◌≡◌, ◌≢◌, ◌⊎◌, inl, inr, arith, refl, sym, ◌∙◌, ap, true, false, some, none,
}
use proxyot.Prelude.Equal.{bytes_equal_refl}
use proxyot.Crypto.{Bytes}
use proxyot.Protocol.Pool.{
  Received, message, nil_message, timeout, selecting, leaving, returned, idle, found, pushed,
  refused, Pool, register, receive, unregister, look_up, refuse, send, close, Step, wait_registers,
  wait_receives, wait_returns, push_finds, push_fails, push_sends, push_closes, Steps, stays,
  and_then, Reachable, after, Faults, send_on_closed,
}
use proxyot.Protocol.Pool.Invariant.{IsFor, IsPool, Reachable-IsPool}
use proxyot.Protocol.Pool.Channel.{register_outcome}

module _ {M : Type 0} (P : Bytes → M → Type 0) where
  -- A Wait that has made its channel and not deleted it yet.
  abbrev pub IsActive : Pool M → ℕ → Type 0
  IsActive s n = (s.waiters n ≡ selecting) ⊎ ((r : Received M) × (s.waiters n ≡ leaving r))

  active-mapped : (s : Pool M) (n : ℕ) → IsPool P s → IsActive s n → s.m (s.protocol n) ≡ some n
  active-mapped s n i (inl w) = (i.selects n w).1
  active-mapped s n i (inr (r, w)) = i.stays n r w

  -- In whatever order the goroutines take their steps: a Wait that has returned has run into the end
  -- of its context, or has a message that a Push under its own protocol sent, and never a nil.
  pub wait_outcome :
      (s : Pool M) (n : ℕ) (r : Received M)
      → Reachable P s
      → s.waiters n ≡ returned r
      → IsFor P (s.protocol n) r
  wait_outcome s n r reachable w = ((Reachable-IsPool P reachable).returns n r w).1

  some_injective : {n j : ℕ} → some n ≡ some j → n ≡ j
  some_injective e = cc

  -- Two Waits for one protocol are never under way at the same time.
  pub one_wait :
      (s : Pool M) (n j : ℕ)
      → Reachable P s
      → IsActive s n
      → IsActive s j
      → s.protocol n ≡ s.protocol j
      → n ≡ j
  one_wait s n j reachable a b e =
      let i = Reachable-IsPool P reachable in
      some_injective (sym (active-mapped s n i a) ∙ ap s.m e ∙ active-mapped s j i b)

  -- A run that goes on from a reachable state is one of reachable states.
  pub Steps-Reachable : {s t : Pool M} → Reachable P s → Steps P s t → Reachable P t
  Steps-Reachable r stays = r
  Steps-Reachable r (and_then steps step) = after (Steps-Reachable r steps) step

module _ {M : Type 0} (Q : Bytes → M → Type 0) where
  -- The five steps of a Push, and of the Wait behind it.
  pub Steps-delivered :
      (s : Pool M) (k n : ℕ) (p : Bytes) (msg : M)
      → Q p msg
      → s.readers ≡ 0
      → s.pushers k ≡ idle
      → s.m p ≡ some n
      → s.protocol n ≡ p
      → s.waiters n ≡ selecting
      → s.closed n ≡ false
      → s.buffer n ≡ none
      → (t : Pool M) × Steps Q s t
        × (t.pushers k ≡ pushed)
        × (t.waiters n ≡ returned (message msg))
        × (t.m p ≡ none)
  unfolding look_up send close receive unregister
  Steps-delivered s k n p msg h quiet free e own w unclosed empty =
      let s1 = look_up k p msg n s in
      let s2 = send k n msg s1 in
      let s3 = close k n s2 in
      let s4 = receive n msg s3 in
      (
        unregister n (message msg) s4,
        and_then
            (and_then
              (and_then
                (and_then (and_then stays (push_finds k p msg n free h e))
                  (push_sends k p n msg (ground arith) (ground arith) (ground arith)))
                (push_closes k n (ground arith) (ground arith)))
              (wait_receives n msg (ground arith) (ground arith)))
            (wait_returns n (message msg) (ground arith) (ground arith)),
        ground arith,
        ground arith,
        ground (arith, bytes_equal_refl p, own),
      )

module _ {M : Type 0} (P Q : Bytes → M → Type 0) where
  -- From a reachable state with a Wait for the protocol at its select, its channel open and empty, and
  -- no other Push under way, the Push of a message can run to its end, in steps that push nothing
  -- but messages of the given kind Q, which this one is of; this Wait then returns the message and is
  -- deleted from the map.
  pub push_delivers :
      (s : Pool M) (k n : ℕ) (p : Bytes) (msg : M)
      → Reachable P s
      → Q p msg
      → s.readers ≡ 0
      → s.pushers k ≡ idle
      → s.m p ≡ some n
      → s.waiters n ≡ selecting
      → s.closed n ≡ false
      → s.buffer n ≡ none
      → (t : Pool M) × Steps Q s t
        × (t.pushers k ≡ pushed)
        × (t.waiters n ≡ returned (message msg))
        × (t.m p ≡ none)
  push_delivers s k n p msg reachable h quiet free e w unclosed empty =
      Steps-delivered Q s k n p msg h quiet free e ((Reachable-IsPool P reachable).mapped p n e).1 w
        unclosed empty

  -- A new channel is empty and open, the new Wait is at its select, and it is the protocol's.
  pub new_wait_delivers :
      (s : Pool M) (k : ℕ) (p : Bytes) (msg : M)
      → Reachable P s
      → Q p msg
      → s.readers ≡ 0
      → s.pushers k ≡ idle
      → (t : Pool M) × Steps Q (register p s) t
        × (t.pushers k ≡ pushed)
        × (t.waiters s.next ≡ returned (message msg))
        × (t.m p ≡ none)
  unfolding register
  new_wait_delivers s k p msg reachable h quiet free =
      let i = Reachable-IsPool P reachable in
      Steps-delivered Q (register p s) k s.next p msg h quiet free
        (ground (arith, bytes_equal_refl p)) (ground arith) (ground arith)
        (ground (arith, i.shuts s.next)) (fresh_empty s i)
    where
      fresh_empty : (s : Pool M) → IsPool P s → s.buffer s.next ≡ none
      fresh_empty s i = elim (Option-cases (s.buffer s.next)) [
        | inl e ↦ e
        | inr (msg, e) ↦ absurd (omega (arith, (i.carries s.next msg e).0))
      ]

module _ {M : Type 0} (P : Bytes → M → Type 0) where
  -- Where the map has an open, empty channel for a protocol, two Pushes j and k of messages x and y
  -- under it can go like this: the Push j runs to its end, and the Push k still finds the channel, which
  -- holds x and is closed, so that its send is a fault.
  pub second_push-Faults :
      (s : Pool M) (j k n : ℕ) (p : Bytes) (x y : M)
      → P p x
      → P p y
      → s.pushers j ≡ idle
      → s.pushers k ≡ idle
      → j ≢ k
      → s.m p ≡ some n
      → s.closed n ≡ false
      → s.buffer n ≡ none
      → (t : Pool M) × Steps P s t
        × (t.pushers j ≡ pushed)
        × (t.pushers k ≡ found p n y)
        × (t.buffer n ≡ some x)
        × (t.closed n ≡ true)
        × Faults t
  unfolding look_up send close
  second_push-Faults s j k n p x y h h' free free' ne e unclosed empty =
      let s1 = look_up j p x n s in
      let s2 = send j n x s1 in
      let s3 = close j n s2 in
      (
        look_up k p y n s3,
        and_then
            (and_then
              (and_then (and_then stays (push_finds j p x n free h e))
                (push_sends j p n x (ground arith) (ground arith) (ground arith)))
              (push_closes j n (ground arith) (ground arith)))
            (push_finds k p y n (ground arith) h' (ground arith)),
        ground arith,
        ground arith,
        ground arith,
        ground arith,
        send_on_closed k p n y (ground arith) (ground arith),
      )

  -- A message that is pushed under a protocol before its Wait is called is lost: from a reachable
  -- state with no channel for the protocol, and no Push under way, the Push is refused and the Wait
  -- registers, and whatever steps follow, as long as no other Push under the protocol is made, the
  -- Wait returns nothing but the end of its context.
  pub early_push_lost :
      (s u : Pool M) (k : ℕ) (p : Bytes) (msg : M) (r : Received M)
      → Reachable P s
      → P p msg
      → s.readers ≡ 0
      → s.pushers k ≡ idle
      → s.m p ≡ none
      → Steps (λ q x. P q x × (q ≢ p)) (register p (refuse k p msg s)) u
      → u.waiters s.next ≡ returned r
      → Steps P s (register p (refuse k p msg s))
        × ((register p (refuse k p msg s)).pushers k ≡ refused p msg)
        × (r ≡ timeout)
  unfolding refuse register
  early_push_lost s u k p msg r reachable h quiet free e steps w = (
    and_then (and_then stays failed) (wait_registers p quiet e),
    ground arith,
    only_timeout r (
        register_outcome P (λ q x. P q x × (q ≢ p)) (refuse k p msg s) u p r
          (Reachable-IsPool P (after reachable failed)) steps w),
  )
    where
      failed : Step P s (refuse k p msg s)
      failed = push_fails k p msg free h e

      only_timeout : (r : Received M) → IsFor (λ q x. P q x × (q ≢ p)) p r → r ≡ timeout
      only_timeout (message x) (holds, ne) = absurd (ne refl)
      only_timeout nil_message holds = absurd holds
      only_timeout timeout holds = refl
