-- ===== src/Protocol/Streams.antt =====
-- node/protocol/protocol.go, the streams: sendProtoMsg and readMsgFromStream, with the calls that they
-- make. What libp2p does to a stream is a parameter.
pub mod Delivery
pub mod Choice
pub mod ReEncrypt
pub mod Upload
pub mod Download
use proxyot.Prelude.{◌≡◌, Bool, true, false, if◌then◌else◌, Option, some, none, List, [], ◌∷◌}
use proxyot.Crypto.{Bytes}
use proxyot.Protocol.{Response, ot_choice, pre_re_encrypt, stor_upload, stor_download}
use proxyot.Pb.Messages.{CodeResponse, PeerResponse, marshal_code_response, marshal_peer_response}

-- Whether NewStream, WriteMsg and FullClose succeed for a stream.
pub record Link : Type 0 where
  pub opens : Bool
  pub writes : Bool
  pub closes : Bool

-- The calls on a stream that was opened.
pub data StreamCall : Type 0 where
  write_msg : Bytes → StreamCall
  full_close : StreamCall
  reset : StreamCall

-- sendProtoMsg(bn, id, p, msg), for a message that is marshalled: what it returns, and its calls on
-- the stream, if there is one
unfoldable pub send_proto_msg : Link → Bytes → Bool × Option (List StreamCall)
send_proto_msg link msg =
    if link.opens
    then if link.writes
      then if link.closes
        then (true, some (write_msg msg ∷ full_close ∷ []))
        else (false, some (write_msg msg ∷ full_close ∷ reset ∷ []))
      else (false, some (write_msg msg ∷ reset ∷ []))
    else (false, none)

-- readMsgFromStream(msg, s), for what ioutil.ReadAll gives
unfoldable pub read_msg_from_stream : {M : Type 0} → (Bytes → Option M) → Option Bytes → Option M
read_msg_from_stream unmarshal none = none
read_msg_from_stream unmarshal (some buf) = unmarshal buf

-- The message that a handler of a request makes of its response
unfoldable pub marshal_response : Response → Bytes
marshal_response (ot_choice code msg) =
    marshal_code_response (record { error_code = code; error_msg = msg })
marshal_response (pre_re_encrypt code msg) =
    marshal_code_response (record { error_code = code; error_msg = msg })
marshal_response (stor_upload code msg peer) =
    marshal_peer_response (record { error_code = code; error_msg = msg; peer = peer })
marshal_response (stor_download code msg peer) =
    marshal_peer_response (record { error_code = code; error_msg = msg; peer = peer })

-- The network between two nodes: how the streams of a request and of its response go, and what the
-- other side reads from a stream after these calls, where an error is none.
pub record Network : Type 0 where
  pub request : Link
  pub response : Link
  pub read_all : List StreamCall → Option Bytes

-- A stream that is closed after a message gives its bytes, and then its end.
pub record IsNetwork (net : Network) : Type 0 where
  pub read_closed : (b : Bytes) → net.read_all (write_msg b ∷ full_close ∷ []) ≡ some b

-- A link on which every call succeeds.
pub record IsUp (link : Link) : Type 0 where
  pub opened : link.opens ≡ true
  pub written : link.writes ≡ true
  pub closed : link.closes ≡ true

-- What the other side's handler gets, where it is called.
abbrev pub received : Network → Option (List StreamCall) → Option Bytes
received net none = none
received net (some calls) = net.read_all calls
