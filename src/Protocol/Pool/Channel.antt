-- ===== src/Protocol/Pool/Channel.antt =====
-- The channel of one Wait of a MessagePool: whatever was pushed before the Wait was called never gets
-- there, so what it returns was pushed in the run behind it.
use mathlib.Core.Path.{subst}
use proxyot.Prelude.{ℕ, ◌≡◌, ◌≢◌, ◌<◌, ap, ◌∙◌, arith, true, none, some}
use proxyot.Prelude.Equal.{bytes_equal→eq}
use proxyot.Crypto.{Bytes}
use proxyot.Protocol.Pool.{
  Received, selecting, leaving, returned, found, sent, Pool, register, receive, leave, unregister,
  look_up, refuse, send, close, Step, wait_registers, wait_fails, wait_receives, wait_receives_nil,
  wait_ends, wait_returns, push_finds, push_fails, push_sends, push_closes, Steps, stays, and_then,
}
use proxyot.Protocol.Pool.Invariant.{IsFor, IsPool}

module _ {M : Type 0} (Q : Bytes → M → Type 0) (n : ℕ) (p : Bytes) where
  -- The channel n is found under p alone, and what is on its way to it, or in it, satisfies Q.
  record IsChannel (s : Pool M) : Type 0 where
    made : n < s.next
    only : (q : Bytes) → s.m q ≡ some n → q ≡ p
    holds : (k : ℕ) (q : Bytes) (x : M) → s.pushers k ≡ found q n x → Q p x
    carries : (x : M) → s.buffer n ≡ some x → Q p x
    sends : (k : ℕ) → s.pushers k ≡ sent n → s.waiters n ≡ selecting → s.buffer n ≢ none
    shuts : s.closed n ≡ true → s.waiters n ≡ selecting → s.buffer n ≢ none
    leaves : (r : Received M) → s.waiters n ≡ leaving r → IsFor Q p r
    returns : (r : Received M) → s.waiters n ≡ returned r → IsFor Q p r

  -- A Push that finds the channel is one under its protocol.
  found_here :
      (s : Pool M) (i : IsChannel s) (q : Bytes) (x : M) (j : ℕ)
      → Q q x
      → s.m q ≡ some j
      → j ≡ n
      → Q p x
  found_here s i q x j made e same =
      subst (λ (b : Bytes). Q b x) (i.only q (e ∙ ap (λ (a : ℕ). some a) same)) made

  Step-IsChannel : {s t : Pool M} → IsChannel s → Step Q s t → IsChannel t
  unfolding register receive leave unregister look_up refuse send close
  Step-IsChannel {s = s} i (wait_registers q h free) = record {
    made = ground (arith, i.made);
    only = λ q' e. ground (arith, i.only q', i.made);
    holds = i.holds;
    carries = i.carries;
    sends = λ k e w. ground (arith, i.sends k e, i.made);
    shuts = λ e w. ground (arith, i.shuts e, i.made);
    leaves = λ r w. ground (arith, i.leaves r, i.made);
    returns = λ r w. ground (arith, i.returns r, i.made);
  }
  Step-IsChannel i (wait_fails q j h e) = i
  Step-IsChannel {s = s} i (wait_receives j x w b) = record {
    made = i.made;
    only = i.only;
    holds = i.holds;
    carries = λ y e. ground (arith, i.carries y);
    sends = λ k e w'. ground (arith, i.sends k e);
    shuts = λ e w'. ground (arith, i.shuts e);
    leaves = λ r w'. ground (arith, i.leaves r, i.carries x);
    returns = λ r w'. ground (arith, i.returns r);
  }
  Step-IsChannel {s = s} i (wait_receives_nil j w b c) = record {
    made = i.made;
    only = i.only;
    holds = i.holds;
    carries = i.carries;
    sends = λ k e w'. ground (arith, i.sends k e);
    shuts = λ e w'. ground (arith, i.shuts e);
    leaves = λ r w'. ground (arith, i.leaves r, i.shuts);
    returns = λ r w'. ground (arith, i.returns r);
  }
  Step-IsChannel {s = s} i (wait_ends j w) = record {
    made = i.made;
    only = i.only;
    holds = i.holds;
    carries = i.carries;
    sends = λ k e w'. ground (arith, i.sends k e);
    shuts = λ e w'. ground (arith, i.shuts e);
    leaves = λ r w'. ground (arith, i.leaves r);
    returns = λ r w'. ground (arith, i.returns r);
  }
  Step-IsChannel {s = s} i (wait_returns j x h w) = record {
    made = i.made;
    only = λ q e. ground (arith, i.only q);
    holds = i.holds;
    carries = i.carries;
    sends = λ k e w'. ground (arith, i.sends k e);
    shuts = λ e w'. ground (arith, i.shuts e);
    leaves = λ r w'. ground (arith, i.leaves r);
    returns = λ r w'. ground (arith, i.returns r, i.leaves x);
  }
  Step-IsChannel {s = s} i (push_finds k q x j h made e) = record {
    made = i.made;
    only = i.only;
    holds = λ k' q' y e'. ground (arith, i.holds k' q' y, found_here s i q x j made e);
    carries = i.carries;
    sends = λ k' e' w. ground (arith, i.sends k');
    shuts = i.shuts;
    leaves = i.leaves;
    returns = i.returns;
  }
  Step-IsChannel {s = s} i (push_fails k q x h made e) = record {
    made = i.made;
    only = i.only;
    holds = λ k' q' y e'. ground (arith, i.holds k' q' y);
    carries = i.carries;
    sends = λ k' e' w. ground (arith, i.sends k');
    shuts = i.shuts;
    leaves = i.leaves;
    returns = i.returns;
  }
  Step-IsChannel {s = s} i (push_sends k q j x e c b) = record {
    made = i.made;
    only = i.only;
    holds = λ k' q' y e'. ground (arith, i.holds k' q' y);
    carries = λ y e'. ground (arith, i.carries y, i.holds k q x);
    sends = λ k' e' w. ground (arith, i.sends k');
    shuts = λ e' w. ground (arith, i.shuts e');
    leaves = i.leaves;
    returns = i.returns;
  }
  Step-IsChannel {s = s} i (push_closes k j e c) = record {
    made = i.made;
    only = i.only;
    holds = λ k' q' y e'. ground (arith, i.holds k' q' y);
    carries = i.carries;
    sends = λ k' e' w. ground (arith, i.sends k');
    shuts = λ e' w. ground (arith, i.shuts, i.sends k);
    leaves = i.leaves;
    returns = i.returns;
  }

  Steps-IsChannel : {s t : Pool M} → IsChannel s → Steps Q s t → IsChannel t
  Steps-IsChannel i stays = i
  Steps-IsChannel i (and_then steps step) = Step-IsChannel (Steps-IsChannel i steps) step

module _ {M : Type 0} (P Q : Bytes → M → Type 0) where
  register-IsChannel : (s : Pool M) (p : Bytes) → IsPool P s → IsChannel Q s.next p (register p s)
  unfolding register
  register-IsChannel s p i = record {
    made = omega arith;
    only = λ q e. ground (arith, i.mapped q s.next, bytes_equal→eq q p);
    holds = λ k q x e. ground (arith, i.holds k q s.next x e);
    carries = λ x e. ground (arith, i.carries s.next x e);
    sends = λ k e w. ground (arith, i.sends k s.next e);
    shuts = λ e w. ground (arith, i.shuts s.next e);
    leaves = λ r w. ground arith;
    returns = λ r w. ground arith;
  }

  -- What a Wait returns is the end of its context, or a message of the run behind its call.
  pub register_outcome :
      (s u : Pool M) (p : Bytes) (r : Received M)
      → IsPool P s
      → Steps Q (register p s) u
      → u.waiters s.next ≡ returned r
      → IsFor Q p r
  register_outcome s u p r i steps w =
      (Steps-IsChannel Q s.next p (register-IsChannel s p i) steps).returns r w
