-- ===== src/Protocol/Pool/Refinement.antt =====
-- MessagePool of node/protocol/protocol.go implements the mailboxes of its protocols.
use mathlib.Core.Path.{subst, subst₂}
use proxyot.Prelude.{
  ℕ, ◌≡◌, ◌≢◌, ◌⊎◌, inl, inr, refl, sym, ap, ◌∙◌, arith, Option, some, none, Option-cases,
  Bool-cases, ==_iff, eq-cases,
}
use proxyot.Prelude.Equal.{bytes_equal, bytes_equal_refl, bytes_equal→eq}
use proxyot.Crypto.{Bytes}
use proxyot.Protocol.Pool.{
  Received, timeout, Waiter, absent, selecting, leaving, returned, found, Pool, new_message_pool,
  register, receive, leave, unregister, look_up, refuse, send, close, Step, wait_registers,
  wait_fails, wait_receives, wait_receives_nil, wait_ends, wait_returns, push_finds, push_fails,
  push_sends, push_closes, Reachable, start, after,
}
use proxyot.Protocol.Pool.Invariant.{IsPool, Reachable-IsPool}
use proxyot.Protocol.Pool.Mailbox.{
  Mailbox, free, waiting, stale, MailStep, opens, answers, takes, expires, ends, MailReachable,
  starts_free, then_steps, mail_of, mailbox, mailbox-none, mailbox-some, mailbox-kept,
}

module _ {M : Type 0} where
  module _ (P : Bytes → M → Type 0) where
    -- A step of the mailbox, or none.
    abbrev pub Refines : Bytes → Mailbox M → Mailbox M → Type 0
    Refines p a b = (b ≡ a) ⊎ MailStep P p a b

    Refines-of :
        (p : Bytes) {a a' b b' : Mailbox M} → a ≡ a' → b ≡ b' → MailStep P p a' b' → Refines p a b
    Refines-of p e e' step = inr (subst₂ (λ x y. MailStep P p x y) (sym e) (sym e') step)

    -- The next channel is empty.
    unused : (s : Pool M) → IsPool P s → s.buffer s.next ≡ none
    unused s i = elim (Option-cases (s.buffer s.next)) [
      | inl e ↦ e
      | inr (msg, e) ↦ let (below, _) = i.carries s.next msg e in absurd (omega arith)
    ]

    opened :
        (s : Pool M) (p : Bytes)
        → IsPool P s
        → mail_of ((register p s).waiters s.next) ((register p s).buffer s.next) ≡ waiting none
    unfolding register
    opened s p i = rw ((==_iff s.next s.next).1 refl, unused s i)

    register-Refines :
        (s : Pool M) (p q : Bytes)
        → IsPool P s
        → s.m p ≡ none
        → Refines q (mailbox s q) (mailbox (register p s) q)
    unfolding register
    register-Refines s p q i fresh = elim (Bool-cases (bytes_equal q p)) [
      | inl e ↦
          let same = bytes_equal→eq q p e in
          Refines-of q (mailbox-none s q (ap s.m same ∙ fresh))
            (mailbox-some (register p s) q s.next (rw e) ∙ opened s p i) opens
      | inr e ↦
          inl (mailbox-kept s (register p s) q (rw e) (λ n at. ground (arith, i.mapped q n at)))
    ]

    receive-Refines :
        (s : Pool M) (n : ℕ) (msg : M) (q : Bytes)
        → IsPool P s
        → s.waiters n ≡ selecting
        → s.buffer n ≡ some msg
        → Refines q (mailbox s q) (mailbox (receive n msg s) q)
    unfolding receive
    receive-Refines s n msg q i w b = elim (Bool-cases (bytes_equal q (s.protocol n))) [
      | inl e ↦
          let at = ap s.m (bytes_equal→eq q (s.protocol n) e) ∙ (i.selects n w).1 in
          Refines-of q (mailbox-some s q n at ∙ rw (w, b))
            (mailbox-some (receive n msg s) q n at ∙ ground arith) (takes msg)
      | inr e ↦ inl (
          mailbox-kept s (receive n msg s) q refl
            (λ j at. ground (arith, i.mapped q j at, bytes_equal_refl q)))
    ]

    timeout-Refines :
        (s : Pool M) (n : ℕ) (q : Bytes)
        → IsPool P s
        → s.waiters n ≡ selecting
        → Refines q (mailbox s q) (mailbox (leave n timeout s) q)
    unfolding leave
    timeout-Refines s n q i w = elim (Bool-cases (bytes_equal q (s.protocol n))) [
      | inl e ↦
          let at = ap s.m (bytes_equal→eq q (s.protocol n) e) ∙ (i.selects n w).1 in
          Refines-of q (mailbox-some s q n at ∙ rw w)
            (mailbox-some (leave n timeout s) q n at ∙ ground arith) (expires (s.buffer n))
      | inr e ↦ inl (
          mailbox-kept s (leave n timeout s) q refl
            (λ j at. ground (arith, i.mapped q j at, bytes_equal_refl q)))
    ]

    unregister-Refines :
        (s : Pool M) (n : ℕ) (r : Received M) (q : Bytes)
        → IsPool P s
        → s.waiters n ≡ leaving r
        → Refines q (mailbox s q) (mailbox (unregister n r s) q)
    unfolding unregister
    unregister-Refines s n r q i w = elim (Bool-cases (bytes_equal q (s.protocol n))) [
      | inl e ↦
          let at = ap s.m (bytes_equal→eq q (s.protocol n) e) ∙ i.stays n r w in
          Refines-of q (mailbox-some s q n at ∙ rw w) (mailbox-none (unregister n r s) q (rw e))
            (ends r)
      | inr e ↦ inl (
          mailbox-kept s (unregister n r s) q (rw e)
            (λ j at. ground (arith, i.mapped q j at, bytes_equal_refl q)))
    ]

    -- A message that is sent to a channel answers its request, or comes too late for it.
    send_mail :
        (q : Bytes) (msg : M) (w : Waiter M) (b : Option M)
        → b ≡ none
        → P q msg
        → Refines q (mail_of w b) (mail_of w (some msg))
    send_mail q msg selecting b e h =
        Refines-of q (ap (λ (x : Option M). waiting x) e) refl (answers msg h)
    send_mail q msg absent b e h = inl refl
    send_mail q msg (leaving r) b e h = inl refl
    send_mail q msg (returned r) b e h = inl refl

    sent_mail :
        (s : Pool M) (k n : ℕ) (msg : M)
        → mail_of ((send k n msg s).waiters n) ((send k n msg s).buffer n)
          ≡ mail_of (s.waiters n) (some msg)
    unfolding send
    sent_mail s k n msg = rw ((==_iff n n).1 refl)

    send-Refines :
        (s : Pool M) (k n : ℕ) (p : Bytes) (msg : M) (q : Bytes)
        → IsPool P s
        → s.pushers k ≡ found p n msg
        → s.buffer n ≡ none
        → Refines q (mailbox s q) (mailbox (send k n msg s) q)
    unfolding send
    send-Refines s k n p msg q i f b = elim (Option-cases (s.m q)) [
      | inl e ↦ inl (mailbox-none (send k n msg s) q e ∙ sym (mailbox-none s q e))
      | inr (j, at) ↦ elim (eq-cases j n) [
        | inr ne ↦
            inl (mailbox-kept s (send k n msg s) q refl (λ j' at'. ground (arith, at', at, ne)))
        | inl same ↦
            let at_n = at ∙ ap (λ (x : ℕ). some x) same in
            let (_, own, holds) = i.holds k p n msg f in
            let here : p ≡ q = sym own ∙ (i.mapped q n at_n).1 in
            subst₂ (λ (x y : Mailbox M). Refines q x y) (sym (mailbox-some s q n at_n))
              (sym (mailbox-some (send k n msg s) q n at_n ∙ sent_mail s k n msg))
              (send_mail q msg (s.waiters n) (s.buffer n) b
                (subst (λ (x : Bytes). P x msg) here holds))
      ]
    ]

    -- A step of the pool is a step of the mailbox of every protocol, or does not touch it.
    pub Step-Refines :
        {s t : Pool M} (q : Bytes)
        → Reachable P s
        → Step P s t
        → Refines q (mailbox s q) (mailbox t q)
    unfolding look_up refuse close
    Step-Refines q r step = at step (Reachable-IsPool P r)
      where
        at : {s t : Pool M} → Step P s t → IsPool P s → Refines q (mailbox s q) (mailbox t q)
        at {s = s} (wait_registers p h fresh) i = register-Refines s p q i fresh
        at {s = s} (wait_fails p n h e) i = inl refl
        at {s = s} (wait_receives n msg w b) i = receive-Refines s n msg q i w b
        at {s = s} (wait_receives_nil n w b c) i = absurd ((i.shuts n c).1 w b)
        at {s = s} (wait_ends n w) i = timeout-Refines s n q i w
        at {s = s} (wait_returns n r h w) i = unregister-Refines s n r q i w
        at {s = s} (push_finds k p msg n h holds e) i =
            inl (mailbox-kept s (look_up k p msg n s) q refl (λ j a. refl))
        at {s = s} (push_fails k p msg h holds e) i =
            inl (mailbox-kept s (refuse k p msg s) q refl (λ j a. refl))
        at {s = s} (push_sends k p n msg f c b) i = send-Refines s k n p msg q i f b
        at {s = s} (push_closes k n f c) i = inl (mailbox-kept s (close k n s) q refl (λ j a. refl))

    mailbox-MailReachable :
        {s : Pool M} (q : Bytes) → Reachable P s → MailReachable P q (mailbox s q)
    unfolding new_message_pool
    mailbox-MailReachable q start = subst (MailReachable P q) (sym (begins q)) starts_free
      where
        begins : (q : Bytes) → mailbox (new_message_pool {M = M}) q ≡ free
        begins q = mailbox-none new_message_pool q refl
    mailbox-MailReachable q (after r step) = elim (Step-Refines q r step) [
      | inl same ↦ subst (MailReachable P q) (sym same) (mailbox-MailReachable q r)
      | inr made ↦ then_steps (mailbox-MailReachable q r) made
    ]

    reachable-ne-stale : (q : Bytes) (a : Mailbox M) → MailReachable P q a → a ≢ stale
    reachable-ne-stale q a starts_free e = cc
    reachable-ne-stale q a (then_steps r opens) e = cc
    reachable-ne-stale q a (then_steps r (answers msg h)) e = cc
    reachable-ne-stale q a (then_steps r (takes msg)) e = cc
    reachable-ne-stale q a (then_steps r (expires b)) e = cc
    reachable-ne-stale q a (then_steps r (ends x)) e = cc

    -- In every reachable state of the pool, and whatever messages satisfy the given predicate, each
    -- protocol has a mailbox that is reachable by the steps of a mailbox from a free one: a request opens
    -- it, at most one message, which satisfies the predicate, answers it, the message or the timeout ends
    -- the wait, and it is free again. Its channel never belongs to a Wait that has returned. Every step
    -- of the pool is a step of the mailbox or leaves it as it is.
    pub pool_refines_mailbox :
        {s t : Pool M} (q : Bytes)
        → Reachable P s
        → Step P s t
        → MailReachable P q (mailbox s q)
          × (mailbox s q ≢ stale)
          × ((mailbox t q ≡ mailbox s q) ⊎ MailStep P q (mailbox s q) (mailbox t q))
    pool_refines_mailbox {s = s} q r step = (
      mailbox-MailReachable q r,
      reachable-ne-stale q (mailbox s q) (mailbox-MailReachable q r),
      Step-Refines q r step,
    )
