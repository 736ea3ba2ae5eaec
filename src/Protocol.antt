-- ===== src/Protocol.antt =====
-- node/protocol: requests and responses between two nodes. A stream is what the message read from it
-- is, or the error that readMsgFromStream returns; a content identifier and its text are those of
-- github.com/ipfs/go-cid, which is a parameter.
pub mod Ot
pub mod Pool
pub mod Pre
pub mod Storage
pub mod Transparency
pub mod Responses
pub mod Streams
use proxyot.Prelude.{ℕ, ◌==◌, ◌≡◌, Bool, Option, some, none, List, []}
use proxyot.Prelude.Result.{Result, ok, panic, bad_assertion}
use proxyot.Crypto.{Bytes}

-- type pError, with NewError, UnknownError, NilError and IsNil
pub record PError : Type 0 where
  pub code : ℕ
  pub msg : Bytes

unfoldable pub new_error : ℕ → Bytes → PError
new_error code msg = record { code = code; msg = msg }

unfoldable pub unknown_error : Bytes → PError
unknown_error msg = record { code = 1; msg = msg }

unfoldable pub nil_error : PError
nil_error = record { code = 0; msg = [] }

unfoldable pub is_nil : PError → Bool
is_nil e = e.code == 0

-- What the package cid does for the messages.
pub record CidLib : Type 1 where
  pub Cid : Type 0
  pub decode : Bytes → Option Cid
  pub to_string : Cid → Bytes

-- cid.Decode reads what String writes.
pub record IsCidLib (lib : CidLib) : Type 0 where
  pub decode-to_string : (c : lib.Cid) → lib.decode (lib.to_string c) ≡ some c

-- The responses, which a MessagePool holds as values of any type.
pub data Response : Type 0 where
  ot_choice : ℕ → Bytes → Response
  pre_re_encrypt : ℕ → Bytes → Response
  stor_upload : ℕ → Bytes → Bytes → Response
  stor_download : ℕ → Bytes → Bytes → Response

-- What MessagePool.Wait returns: the value received, which may be nil, or an error, by its text.
pub data Waited : Type 0 where
  arrived : Response → Waited
  nil_arrived : Waited
  failed : Bytes → Waited
