-- ===== src/Protocol/Pool/Mailbox.antt =====
-- What MessagePool of node/protocol/protocol.go promises for a protocol: a mailbox for one request at a
-- time, which takes one answer. Every step of the pool is a step of this mailbox, or does not touch it.
use proxyot.Prelude.{ℕ, ◌≡◌, inl, inr, sym, ◌∙◌, Option, some, none, Option-cases}
use proxyot.Crypto.{Bytes}
use proxyot.Protocol.Pool.{
  Received, message, timeout, Waiter, absent, selecting, leaving, returned, Pool,
}

-- No request; a request without or with an answer in its channel; a request that is over.
pub data Mailbox (M : Type 0) : Type 0 where
  free : Mailbox M
  waiting : Option M → Mailbox M
  over : Received M → Mailbox M
  stale : Mailbox M

-- The steps of the mailbox of a protocol.
pub data MailStep {M : Type 0} (P : Bytes → M → Type 0) (p : Bytes)
    : Mailbox M → Mailbox M → Type 0 where
  opens : MailStep P p free (waiting none)
  answers : (msg : M) → P p msg → MailStep P p (waiting none) (waiting (some msg))
  takes : (msg : M) → MailStep P p (waiting (some msg)) (over (message msg))
  expires : (b : Option M) → MailStep P p (waiting b) (over timeout)
  ends : (r : Received M) → MailStep P p (over r) free

-- The mailboxes that steps lead to from a free one.
pub data MailReachable {M : Type 0} (P : Bytes → M → Type 0) (p : Bytes) : Mailbox M → Type 0 where
  starts_free : MailReachable P p free
  then_steps : {a b : Mailbox M} → MailReachable P p a → MailStep P p a b → MailReachable P p b

module _ {M : Type 0} where
  abbrev pub mail_of : Waiter M → Option M → Mailbox M
  mail_of absent b = stale
  mail_of selecting b = waiting b
  mail_of (leaving r) b = over r
  mail_of (returned r) b = stale

  -- The mailbox that a pool holds for a protocol.
  unfoldable pub mailbox : Pool M → Bytes → Mailbox M
  mailbox s p = elim (s.m p) [ none ↦ free | some n ↦ mail_of (s.waiters n) (s.buffer n) ]

  pub mailbox-none : (s : Pool M) (p : Bytes) → s.m p ≡ none → mailbox s p ≡ free
  unfolding mailbox
  mailbox-none s p e = rw (mailbox, e)

  pub mailbox-some :
      (s : Pool M) (p : Bytes) (n : ℕ)
      → s.m p ≡ some n
      → mailbox s p ≡ mail_of (s.waiters n) (s.buffer n)
  unfolding mailbox
  mailbox-some s p n e = rw (mailbox, e)

  -- A pool whose entry, waiter and buffer for a protocol are those of another.
  pub mailbox-kept :
      (s t : Pool M) (q : Bytes)
      → t.m q ≡ s.m q
      → ((n : ℕ)
          → s.m q ≡ some n
          → mail_of (t.waiters n) (t.buffer n) ≡ mail_of (s.waiters n) (s.buffer n))
      → mailbox t q ≡ mailbox s q
  mailbox-kept s t q same kept = elim (Option-cases (s.m q)) [
    | inl e ↦ mailbox-none t q (same ∙ e) ∙ sym (mailbox-none s q e)
    | inr (n, e) ↦ mailbox-some t q n (same ∙ e) ∙ kept n e ∙ sym (mailbox-some s q n e)
  ]
