-- ===== src/Protocol/Pool/Invariant.antt =====
-- What holds of a MessagePool behind every step.
use proxyot.Prelude.{ℕ, ◌≡◌, ◌≢◌, ◌<◌, arith, true, some, none}
use proxyot.Prelude.Equal.{bytes_equal_refl, bytes_equal→eq}
use proxyot.Crypto.{Bytes}
use proxyot.Protocol.Pool.{
  Received, message, nil_message, timeout, selecting, leaving, returned, found, sent, Pool,
  new_message_pool, register, receive, leave, unregister, look_up, refuse, send, close, Step,
  wait_registers, wait_fails, wait_receives, wait_receives_nil, wait_ends, wait_returns, push_finds,
  push_fails, push_sends, push_closes, Reachable, start, after,
}

module _ {M : Type 0} (P : Bytes → M → Type 0) where
  -- What a Wait for a protocol may return.
  abbrev pub IsFor : Bytes → Received M → Type 0
  IsFor p (message msg) = P p msg
  IsFor p nil_message = ⊥
  IsFor p timeout = Unit {0}

  -- A channel in the map is its protocol's; a message on its way to a channel, or in it, is one for
  -- its protocol; a channel that was sent to and is still waited for holds a message.
  pub record IsPool (s : Pool M) : Type 0 where
    pub mapped : (p : Bytes) (n : ℕ) → s.m p ≡ some n → (n < s.next) × (s.protocol n ≡ p)
    pub holds :
        (k : ℕ) (p : Bytes) (n : ℕ) (msg : M)
        → s.pushers k ≡ found p n msg
        → (n < s.next) × (s.protocol n ≡ p) × P p msg
    pub carries : (n : ℕ) (msg : M) → s.buffer n ≡ some msg → (n < s.next) × P (s.protocol n) msg
    pub sends :
        (k n : ℕ)
        → s.pushers k ≡ sent n
        → (n < s.next) × (s.waiters n ≡ selecting → s.buffer n ≢ none)
    pub shuts :
        (n : ℕ) → s.closed n ≡ true → (n < s.next) × (s.waiters n ≡ selecting → s.buffer n ≢ none)
    pub leaves :
        (n : ℕ) (r : Received M) → s.waiters n ≡ leaving r → (n < s.next) × IsFor (s.protocol n) r
    pub returns :
        (n : ℕ) (r : Received M) → s.waiters n ≡ returned r → (n < s.next) × IsFor (s.protocol n) r
    pub selects : (n : ℕ) → s.waiters n ≡ selecting → (n < s.next) × (s.m (s.protocol n) ≡ some n)
    pub stays : (n : ℕ) (r : Received M) → s.waiters n ≡ leaving r → s.m (s.protocol n) ≡ some n

  new_message_pool-IsPool : IsPool new_message_pool
  unfolding new_message_pool
  new_message_pool-IsPool = record {
    mapped = λ p n e. absurd cc;
    holds = λ k p n msg e. absurd cc;
    carries = λ n msg e. absurd cc;
    sends = λ k n e. absurd cc;
    shuts = λ n e. absurd cc;
    leaves = λ n r e. absurd cc;
    returns = λ n r e. absurd cc;
    selects = λ n e. absurd cc;
    stays = λ n r e. absurd cc;
  }

  register-IsPool : (s : Pool M) (p : Bytes) → IsPool s → s.m p ≡ none → IsPool (register p s)
  unfolding register
  register-IsPool s p i free = record {
    mapped = λ q j e. ground (arith, i.mapped q j, bytes_equal→eq q p);
    holds = λ k q j x e. ground (arith, i.holds k q j x e);
    carries = λ j x e. ground (arith, i.carries j x e);
    sends = λ k j e. ground (arith, i.sends k j e);
    shuts = λ j e. ground (arith, i.shuts j e);
    leaves = λ j r e. ground (arith, i.leaves j r);
    returns = λ j r e. ground (arith, i.returns j r);
    selects =
        λ j e. ground (arith, i.selects j, bytes_equal_refl p, bytes_equal→eq (s.protocol j) p);
    stays = λ j r e.
        ground
          (arith, i.stays j r, i.leaves j r, bytes_equal_refl p, bytes_equal→eq (s.protocol j) p);
  }

  receive-IsPool :
      (s : Pool M) (n : ℕ) (msg : M)
      → IsPool s
      → s.waiters n ≡ selecting
      → s.buffer n ≡ some msg
      → IsPool (receive n msg s)
  unfolding receive
  receive-IsPool s n msg i w b = record {
    mapped = i.mapped;
    holds = i.holds;
    carries = λ j x e. ground (arith, i.carries j x);
    sends = λ k j e. ground (arith, i.sends k j e);
    shuts = λ j e. ground (arith, i.shuts j e);
    leaves = λ j r e. ground (arith, i.leaves j r, i.carries n msg b);
    returns = λ j r e. ground (arith, i.returns j r);
    selects = λ j e. ground (arith, i.selects j);
    stays = λ j r e. ground (arith, i.stays j r, i.selects j);
  }

  -- The select never yields nil.
  no_nil :
      (s : Pool M) (n : ℕ)
      → IsPool s
      → s.waiters n ≡ selecting
      → s.closed n ≡ true
      → s.buffer n ≢ none
  no_nil s n i w c = (i.shuts n c).1 w

  timeout-IsPool :
      (s : Pool M) (n : ℕ) → IsPool s → s.waiters n ≡ selecting → IsPool (leave n timeout s)
  unfolding leave
  timeout-IsPool s n i w = record {
    mapped = i.mapped;
    holds = i.holds;
    carries = i.carries;
    sends = λ k j e. ground (arith, i.sends k j e);
    shuts = λ j e. ground (arith, i.shuts j e);
    leaves = λ j r e. ground (arith, i.leaves j r, i.selects j);
    returns = λ j r e. ground (arith, i.returns j r);
    selects = λ j e. ground (arith, i.selects j);
    stays = λ j r e. ground (arith, i.stays j r, i.selects j);
  }

  unregister-IsPool :
      (s : Pool M) (n : ℕ) (r : Received M)
      → IsPool s
      → s.waiters n ≡ leaving r
      → IsPool (unregister n r s)
  unfolding unregister
  unregister-IsPool s n r i w = record {
    mapped = λ q j e. ground (arith, i.mapped q j);
    holds = i.holds;
    carries = i.carries;
    sends = λ k j e. ground (arith, i.sends k j e);
    shuts = λ j e. ground (arith, i.shuts j e);
    leaves = λ j x e. ground (arith, i.leaves j x);
    returns = λ j x e. ground (arith, i.returns j x, i.leaves n r w);
    selects = λ j e.
        ground (arith, i.selects j, i.stays n r w, bytes_equal→eq (s.protocol j) (s.protocol n));
    stays = λ j x e.
        ground (arith, i.stays j x, i.stays n r w, bytes_equal→eq (s.protocol j) (s.protocol n));
  }

  look_up-IsPool :
      (s : Pool M) (k : ℕ) (p : Bytes) (msg : M) (n : ℕ)
      → IsPool s
      → P p msg
      → s.m p ≡ some n
      → IsPool (look_up k p msg n s)
  unfolding look_up
  look_up-IsPool s k p msg n i h e = record {
    mapped = i.mapped;
    holds = λ k' q j x e'. ground (arith, i.holds k' q j x, i.mapped p n e);
    carries = i.carries;
    sends = λ k' j e'. ground (arith, i.sends k' j);
    shuts = i.shuts;
    leaves = i.leaves;
    returns = i.returns;
    selects = i.selects;
    stays = i.stays;
  }

  refuse-IsPool : (s : Pool M) (k : ℕ) (p : Bytes) (msg : M) → IsPool s → IsPool (refuse k p msg s)
  unfolding refuse
  refuse-IsPool s k p msg i = record {
    mapped = i.mapped;
    holds = λ k' q j x e'. ground (arith, i.holds k' q j x);
    carries = i.carries;
    sends = λ k' j e'. ground (arith, i.sends k' j);
    shuts = i.shuts;
    leaves = i.leaves;
    returns = i.returns;
    selects = i.selects;
    stays = i.stays;
  }

  close-IsPool :
      (s : Pool M) (k : ℕ) (n : ℕ) → IsPool s → s.pushers k ≡ sent n → IsPool (close k n s)
  unfolding close
  close-IsPool s k n i e = record {
    mapped = i.mapped;
    holds = λ k' q j x e'. ground (arith, i.holds k' q j x);
    carries = i.carries;
    sends = λ k' j e'. ground (arith, i.sends k' j);
    shuts = λ j e'. ground (arith, i.shuts j, i.sends k n e);
    leaves = i.leaves;
    returns = i.returns;
    selects = i.selects;
    stays = i.stays;
  }

  send-IsPool :
      (s : Pool M) (k n : ℕ) (p : Bytes) (msg : M)
      → IsPool s
      → s.pushers k ≡ found p n msg
      → IsPool (send k n msg s)
  unfolding send
  send-IsPool s k n p msg i e = record {
    mapped = i.mapped;
    holds = λ k' q j x e'. ground (arith, i.holds k' q j x);
    carries = λ j x e'. ground (arith, i.carries j x, i.holds k p n msg e);
    sends = λ k' j e'. ground (arith, i.sends k' j, i.holds k p n msg e);
    shuts = λ j e'. ground (arith, i.shuts j e');
    leaves = i.leaves;
    returns = i.returns;
    selects = i.selects;
    stays = i.stays;
  }

  Step-IsPool : {s t : Pool M} → IsPool s → Step P s t → IsPool t
  Step-IsPool {s = s} i (wait_registers p h free) = register-IsPool s p i free
  Step-IsPool i (wait_fails p n h e) = i
  Step-IsPool {s = s} i (wait_receives n msg w b) = receive-IsPool s n msg i w b
  Step-IsPool {s = s} i (wait_receives_nil n w b c) = absurd (no_nil s n i w c b)
  Step-IsPool {s = s} i (wait_ends n w) = timeout-IsPool s n i w
  Step-IsPool {s = s} i (wait_returns n r h w) = unregister-IsPool s n r i w
  Step-IsPool {s = s} i (push_finds k p msg n h holds e) = look_up-IsPool s k p msg n i holds e
  Step-IsPool {s = s} i (push_fails k p msg h holds e) = refuse-IsPool s k p msg i
  Step-IsPool {s = s} i (push_sends k p n msg e c b) = send-IsPool s k n p msg i e
  Step-IsPool {s = s} i (push_closes k n e c) = close-IsPool s k n i e

  pub Reachable-IsPool : {s : Pool M} → Reachable P s → IsPool s
  Reachable-IsPool start = new_message_pool-IsPool
  Reachable-IsPool (after r step) = Step-IsPool (Reachable-IsPool r) step
