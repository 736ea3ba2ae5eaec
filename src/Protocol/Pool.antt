-- ===== src/Protocol/Pool.antt =====
-- MessagePool of node/protocol/protocol.go: the goroutines in its methods Wait and Push, step by step.
-- A Wait makes one channel and is the only one to receive from it, so it goes by the channel's
-- number; a Push has a number of its own. What the mutex guards is one step: the first part of Wait,
-- its deferred deletion; Push holds the read lock from its lookup until it has closed the channel.
pub mod Invariant
pub mod Channel
pub mod Delivery
pub mod Mailbox
pub mod Refinement
use proxyot.Prelude.{
  ℕ, zero, suc, ◌+◌, ◌-◌, ◌==◌, ◌≡◌, Bool, true, false, Option, some, none, [], if◌then◌else◌,
}
use proxyot.Prelude.Equal.{bytes_equal}
use proxyot.Crypto.{Bytes}

-- What a Wait leaves its select with: a message, the nil of a closed channel, the end of the context.
pub data Received (M : Type 0) : Type 0 where
  message : M → Received M
  nil_message : Received M
  timeout : Received M

-- Where a Wait stands: at its select, behind it, or returned.
pub data Waiter (M : Type 0) : Type 0 where
  absent : Waiter M
  selecting : Waiter M
  leaving : Received M → Waiter M
  returned : Received M → Waiter M

-- Where a Push stands: it has found a channel for a protocol, it has sent, or it has returned,
-- where one that is refused is kept with its protocol and its message.
pub data Pusher (M : Type 0) : Type 0 where
  idle : Pusher M
  found : Bytes → ℕ → M → Pusher M
  sent : ℕ → Pusher M
  pushed : Pusher M
  refused : Bytes → M → Pusher M

-- The map and its lock, the channels by number with a buffer of one and whether they are closed, the
-- protocols that the Waits were called for, and the goroutines.
pub record Pool (M : Type 0) : Type 0 where
  pub m : Bytes → Option ℕ
  pub readers : ℕ
  pub next : ℕ
  pub buffer : ℕ → Option M
  pub closed : ℕ → Bool
  pub protocol : ℕ → Bytes
  pub waiters : ℕ → Waiter M
  pub pushers : ℕ → Pusher M

-- A function, changed at one argument.
abbrev pub at_number {ℓ} : {A : Type ℓ} → ℕ → A → (ℕ → A) → ℕ → A
at_number k a f j = if j == k then a else f j

abbrev pub at_protocol {ℓ} : {A : Type ℓ} → Bytes → A → (Bytes → A) → Bytes → A
at_protocol p a f q = if bytes_equal q p then a else f q

module _ {M : Type 0} where
  -- NewMessagePool()
  unfoldable pub new_message_pool : Pool M
  new_message_pool = record {
    m = λ p. none;
    readers = 0;
    next = 0;
    buffer = λ n. none;
    closed = λ n. false;
    protocol = λ n. [];
    waiters = λ n. absent;
    pushers = λ k. idle;
  }

  -- Wait, up to its select: a new channel with a buffer of one
  unfoldable pub register : Bytes → Pool M → Pool M
  register p s = record s {
    m = at_protocol p (some s.next) s.m;
    next = suc s.next;
    protocol = at_number s.next p s.protocol;
    waiters = at_number s.next selecting s.waiters;
  }

  -- The select's cases: `msg := <-ch`, which empties the buffer, and `<-ctx.Done()`
  unfoldable pub receive : ℕ → M → Pool M → Pool M
  receive n msg s = record s {
    buffer = at_number n none s.buffer;
    waiters = at_number n (leaving (message msg)) s.waiters;
  }

  unfoldable pub leave : ℕ → Received M → Pool M → Pool M
  leave n r s = record s { waiters = at_number n (leaving r) s.waiters }

  -- The deferred deletion
  unfoldable pub unregister : ℕ → Received M → Pool M → Pool M
  unregister n r s = record s {
    m = at_protocol (s.protocol n) none s.m;
    waiters = at_number n (returned r) s.waiters;
  }

  -- Push: the lookup, `ch <- msg`, `close(ch)` with the read lock given back
  unfoldable pub look_up : ℕ → Bytes → M → ℕ → Pool M → Pool M
  look_up k p msg n s = record s {
    readers = suc s.readers;
    pushers = at_number k (found p n msg) s.pushers;
  }

  unfoldable pub refuse : ℕ → Bytes → M → Pool M → Pool M
  refuse k p msg s = record s { pushers = at_number k (refused p msg) s.pushers }

  unfoldable pub send : ℕ → ℕ → M → Pool M → Pool M
  send k n msg s = record s {
    buffer = at_number n (some msg) s.buffer;
    pushers = at_number k (sent n) s.pushers;
  }

  unfoldable pub close : ℕ → ℕ → Pool M → Pool M
  close k n s = record s {
    closed = at_number n true s.closed;
    readers = s.readers - 1;
    pushers = at_number k pushed s.pushers;
  }

  -- One step of one goroutine, where a Push of msg under p is made only if P p msg holds.
  pub data Step (P : Bytes → M → Type 0) (s : Pool M) : Pool M → Type 0 where
    wait_registers : (p : Bytes) → s.readers ≡ 0 → s.m p ≡ none → Step P s (register p s)
    wait_fails : (p : Bytes) (n : ℕ) → s.readers ≡ 0 → s.m p ≡ some n → Step P s s
    wait_receives :
        (n : ℕ) (msg : M)
        → s.waiters n ≡ selecting
        → s.buffer n ≡ some msg
        → Step P s (receive n msg s)
    wait_receives_nil :
        (n : ℕ)
        → s.waiters n ≡ selecting
        → s.buffer n ≡ none
        → s.closed n ≡ true
        → Step P s (leave n nil_message s)
    wait_ends : (n : ℕ) → s.waiters n ≡ selecting → Step P s (leave n timeout s)
    wait_returns :
        (n : ℕ) (r : Received M)
        → s.readers ≡ 0
        → s.waiters n ≡ leaving r
        → Step P s (unregister n r s)
    push_finds :
        (k : ℕ) (p : Bytes) (msg : M) (n : ℕ)
        → s.pushers k ≡ idle
        → P p msg
        → s.m p ≡ some n
        → Step P s (look_up k p msg n s)
    push_fails :
        (k : ℕ) (p : Bytes) (msg : M)
        → s.pushers k ≡ idle
        → P p msg
        → s.m p ≡ none
        → Step P s (refuse k p msg s)
    push_sends :
        (k : ℕ) (p : Bytes) (n : ℕ) (msg : M)
        → s.pushers k ≡ found p n msg
        → s.closed n ≡ false
        → s.buffer n ≡ none
        → Step P s (send k n msg s)
    push_closes : (k n : ℕ) → s.pushers k ≡ sent n → s.closed n ≡ false → Step P s (close k n s)

  -- A run from one state to another: these steps, in this order.
  pub data Steps (P : Bytes → M → Type 0) (s : Pool M) : Pool M → Type 0 where
    stays : Steps P s s
    and_then : {t u : Pool M} → Steps P s t → Step P t u → Steps P s u

  -- The states that steps lead to from the start.
  pub data Reachable (P : Bytes → M → Type 0) : Pool M → Type 0 where
    start : Reachable P new_message_pool
    after : {s t : Pool M} → Reachable P s → Step P s t → Reachable P t

  -- A send on a closed channel, and a second close, are faults.
  pub data Faults (s : Pool M) : Type 0 where
    send_on_closed :
        (k : ℕ) (p : Bytes) (n : ℕ) (msg : M)
        → s.pushers k ≡ found p n msg
        → s.closed n ≡ true
        → Faults s
    close_of_closed : (k n : ℕ) → s.pushers k ≡ sent n → s.closed n ≡ true → Faults s
