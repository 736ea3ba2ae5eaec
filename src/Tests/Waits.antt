-- ===== src/Tests/Waits.antt =====
-- The message pool at concrete values: messages are numbers, and the ones sent are the length of the
-- name of their protocol.
use proxyot.Prelude.{ℕ, ◌≡◌, ◌≢◌, ◌⊎◌, arith, refl, inl, some, none, true, false, [], ◌∷◌, length}
use proxyot.Prelude.Equal.{bytes_equal}
use proxyot.Crypto.{Bytes}
use proxyot.Protocol.Pool.{
  Received, message, timeout, selecting, leaving, returned, idle, found, pushed, refused, Pool,
  new_message_pool, register, refuse, leave, unregister, wait_registers, wait_ends, wait_returns,
  Steps, stays, and_then, Reachable, start, after, Faults,
}
use proxyot.Protocol.Pool.Mailbox.{MailStep, MailReachable, mailbox, stale}
use proxyot.Protocol.Pool.Refinement.{pool_refines_mailbox}
use proxyot.Protocol.Pool.Delivery.{
  wait_outcome, one_wait, Steps-Reachable, push_delivers, second_push-Faults, early_push_lost,
}

abbrev Measures : Bytes → ℕ → Type 0
Measures p k = length p ≡ k

abbrev name : Bytes
name = 5 ∷ 6 ∷ []

abbrev waiting : Pool ℕ
waiting = register name new_message_pool

waiting-Reachable : Reachable Measures waiting
unfolding new_message_pool
waiting-Reachable = after start (wait_registers name refl refl)

no_readers : waiting.readers ≡ 0
unfolding register new_message_pool
no_readers = refl

first_idle : waiting.pushers 0 ≡ idle
unfolding register new_message_pool
first_idle = refl

second_idle : waiting.pushers 1 ≡ idle
unfolding register new_message_pool
second_idle = refl

in_map : waiting.m name ≡ some 0
unfolding register new_message_pool bytes_equal
in_map = refl

at_select : waiting.waiters 0 ≡ selecting
unfolding register new_message_pool
at_select = refl

not_closed : waiting.closed 0 ≡ false
unfolding register new_message_pool
not_closed = refl

no_message : waiting.buffer 0 ≡ none
unfolding register new_message_pool
no_message = refl

zero-ne-one : ◌≢◌ {A = ℕ} 0 1
zero-ne-one e = omega (arith, e)

delivered :
    (t : Pool ℕ) × Steps Measures waiting t
    × (t.pushers 0 ≡ pushed)
    × (t.waiters 0 ≡ returned (message 2))
    × (t.m name ≡ none)
delivered =
    push_delivers Measures Measures waiting 0 0 name 2 waiting-Reachable refl no_readers first_idle
      in_map at_select not_closed no_message

wait_outcome_example : length (delivered.0.protocol 0) ≡ 2
wait_outcome_example =
    wait_outcome Measures delivered.0 0 (message 2)
      (Steps-Reachable Measures waiting-Reachable delivered.1) delivered.3

one_wait_example : ◌≡◌ {A = ℕ} 0 0
one_wait_example =
    one_wait Measures waiting 0 0 waiting-Reachable (inl at_select) (inl at_select) refl

-- The only message that is pushed is 2, under this name.
abbrev OnlyTwo : Bytes → ℕ → Type 0
OnlyTwo p x = (p ≡ name) × (x ≡ 2)

push_delivers_example :
    (t : Pool ℕ) × Steps OnlyTwo waiting t
    × (t.pushers 0 ≡ pushed)
    × (t.waiters 0 ≡ returned (message 2))
    × (t.m name ≡ none)
push_delivers_example =
    push_delivers Measures OnlyTwo waiting 0 0 name 2 waiting-Reachable (refl, refl) no_readers
      first_idle in_map at_select not_closed no_message

second_push-Faults_example :
    (t : Pool ℕ) × Steps Measures waiting t
    × (t.pushers 0 ≡ pushed)
    × (t.pushers 1 ≡ found name 0 2)
    × (t.buffer 0 ≡ some 2)
    × (t.closed 0 ≡ true)
    × Faults t
second_push-Faults_example =
    second_push-Faults Measures waiting 0 1 0 name 2 2 refl refl first_idle second_idle zero-ne-one
      in_map not_closed no_message

new_readers : (new_message_pool {M = ℕ}).readers ≡ 0
unfolding new_message_pool
new_readers = refl

new_idle : (new_message_pool {M = ℕ}).pushers 0 ≡ idle
unfolding new_message_pool
new_idle = refl

new_map : (new_message_pool {M = ℕ}).m name ≡ none
unfolding new_message_pool
new_map = refl

-- The push of 2 comes first, and the Wait behind it times out.
abbrev late : Pool ℕ
late = register name (refuse 0 name 2 new_message_pool)

late_select : late.waiters 0 ≡ selecting
unfolding register refuse new_message_pool
late_select = refl

late_quiet : (leave 0 timeout late).readers ≡ 0
unfolding leave register refuse new_message_pool
late_quiet = refl

late_leaves : (leave 0 timeout late).waiters 0 ≡ leaving timeout
unfolding leave register refuse new_message_pool
late_leaves = refl

late_returns : (unregister 0 timeout (leave 0 timeout late)).waiters 0 ≡ returned timeout
unfolding unregister leave register refuse new_message_pool
late_returns = refl

early_push_lost_example :
    Steps Measures new_message_pool late
    × (late.pushers 0 ≡ refused name 2)
    × (◌≡◌ {A = Received ℕ} timeout timeout)
unfolding new_message_pool
early_push_lost_example =
    early_push_lost Measures new_message_pool (unregister 0 timeout (leave 0 timeout late)) 0 name 2
      timeout start refl new_readers new_idle new_map
      (and_then (and_then stays (wait_ends 0 late_select))
        (wait_returns 0 timeout late_quiet late_leaves))
      late_returns

-- The Wait that is at its select runs into the end of its context.
pool_refines_mailbox_example :
    MailReachable Measures name (mailbox waiting name)
    × (mailbox waiting name ≢ stale)
    × ((mailbox (leave 0 timeout waiting) name ≡ mailbox waiting name)
        ⊎ MailStep Measures name (mailbox waiting name) (mailbox (leave 0 timeout waiting) name))
pool_refines_mailbox_example =
    pool_refines_mailbox Measures name waiting-Reachable (wait_ends 0 at_select)
