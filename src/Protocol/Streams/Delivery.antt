-- ===== src/Protocol/Streams/Delivery.antt =====
-- A call over the streams of node/protocol/protocol.go: the messages go as the bytes of
-- node/protocol/pb/msg.pb.go.
use proxyot.Prelude.{ℕ, ◌≡◌, ◌⊎◌, inl, inr, refl, sym, ap, ◌∙◌, Option, some, none}
use proxyot.Crypto.{Bytes}
use proxyot.Protocol.{Response}
use proxyot.Protocol.Pool.{
  Received, message, nil_message, timeout, returned, idle, pushed, Pool, register, Step,
  wait_registers, Steps, Reachable,
}
use proxyot.Protocol.Pool.Invariant.{IsFor, Reachable-IsPool}
use proxyot.Protocol.Pool.Channel.{register_outcome}
use proxyot.Protocol.Pool.Delivery.{new_wait_delivers}
use proxyot.Protocol.Responses.{Push, IsPushed}
use proxyot.Pb.Messages.{CodeResponse, PeerResponse}
use proxyot.Protocol.Streams.{
  Link, send_proto_msg, read_msg_from_stream, Network, IsNetwork, IsUp, received,
}

-- What the other side reads of a message that is sent.
abbrev pub carried : {M : Type 0} → Network → Link → (Bytes → Option M) → Bytes → Option M
carried net link unmarshal msg =
    read_msg_from_stream unmarshal (received net (send_proto_msg link msg).1)

pub carried_returns :
    {M : Type 0} (net : Network) (laws : IsNetwork net) (link : Link) (up : IsUp link)
    (unmarshal : Bytes → Option M) (msg : Bytes) (m : M)
    → unmarshal msg ≡ some m
    → carried net link unmarshal msg ≡ some m
unfolding send_proto_msg read_msg_from_stream
carried_returns net laws link up unmarshal msg m e =
    rw (up.opened, up.written, up.closed, laws.read_closed msg, e)

-- The fields of a response that the handlers of the clients use.
abbrev pub codes : Option CodeResponse → Option (ℕ × Bytes)
codes none = none
codes (some m) = some (m.error_code, m.error_msg)

abbrev pub peers : Option PeerResponse → Option (ℕ × Bytes × Bytes)
peers none = none
peers (some m) = some (m.error_code, m.error_msg, m.peer)

-- Pushes of what a handler pushes, if anything.
abbrev pub Makes : Option Push → Bytes → Response → Type 0
Makes a p x = a ≡ some (p, x)

-- A Wait for the protocol registers, and the Push k, of what a handler pushes, then runs to its end; the
-- Wait returns this response.
abbrev pub CanReturn : Option Push → Bytes → Pool Response → ℕ → Response → Type 0
CanReturn a id pool k x =
    Step (Makes a) pool (register id pool)
    × ((t : Pool Response) × Steps (Makes a) (register id pool) t
        × (t.pushers k ≡ pushed)
        × (t.waiters pool.next ≡ returned (message x)))

module _ (a : Option Push) (id : Bytes) (x : Response) (made : a ≡ some (id, x)) where
  pub Makes-CanReturn :
      (pool : Pool Response) (k : ℕ)
      → Reachable IsPushed pool
      → pool.readers ≡ 0
      → pool.pushers k ≡ idle
      → pool.m id ≡ none
      → CanReturn a id pool k x
  Makes-CanReturn pool k reachable quiet free none_yet =
      let (t, steps, pushes, returns, _) =
        new_wait_delivers IsPushed (Makes a) pool k id x reachable made quiet free in
      (wait_registers id quiet none_yet, (t, steps, pushes, returns))

  -- If nothing else is pushed behind its call, the Wait returns this response or times out.
  pub Makes-outcome :
      (pool run : Pool Response) (r : Received Response)
      → Reachable IsPushed pool
      → Steps (Makes a) (register id pool) run
      → run.waiters pool.next ≡ returned r
      → (r ≡ message x) ⊎ (r ≡ timeout)
  Makes-outcome pool run r reachable steps w = only r (
      register_outcome IsPushed (Makes a) pool run id r (Reachable-IsPool IsPushed reachable) steps
        w)
    where
      some_injective : {y z : Push} → some y ≡ some z → y ≡ z
      some_injective e = cc

      only : (r : Received Response) → IsFor (Makes a) id r → (r ≡ message x) ⊎ (r ≡ timeout)
      only (message y) e = inl (ap (λ (b : Push). message b.1) (some_injective (sym e ∙ made)))
      only nil_message e = absurd e
      only timeout e = inr refl
