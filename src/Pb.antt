-- ===== src/Pb.antt =====
-- node/protocol/pb/msg.pb.go: the wire format of the messages. What Marshal writes into its buffer, one
-- part behind the other, is the list of these parts' bytes; an error of Unmarshal is `none`. The fields
-- that a message does not know are dropped.
pub mod Varint
pub mod Fields
pub mod Messages
pub mod Lengths
pub mod Requests
pub mod Responses
pub mod RoundTrip
use proxyot.Prelude.{
  ℕ, zero, suc, ◌+◌, ◌-◌, ◌*◌, ◌/◌, ◌%◌, ◌^◌, ◌==◌, ltb, leb, ◌&&◌, ◌||◌, Bool, Option, some, none,
  List, [], ◌∷◌, ◌++◌, if◌then◌else◌, length, take, drop,
}
use proxyot.Prelude.Options.{◌>>=◌}
use proxyot.Crypto.{Bytes}

-- encodeVarintMsg, with the number of bytes that may follow; a uint64 has at most ten.
unfoldable pub encode_loop : ℕ → ℕ → Bytes
encode_loop zero v = v % 256 ∷ []
encode_loop (suc f) v =
    let rest = encode_loop f (v / 128) in if leb 128 v then (v % 128 + 128) ∷ rest else v % 256 ∷ []

unfoldable pub encode_varint_msg : ℕ → Bytes
unfolding encode_loop
encode_varint_msg = encode_loop 9

-- sovMsg(x): how many bytes these are
unfoldable pub sov_loop : ℕ → ℕ → ℕ
sov_loop zero x = 1
sov_loop (suc f) x = let rest = sov_loop f (x / 128) in if x / 128 == 0 then 1 else suc rest

unfoldable pub sov_msg : ℕ → ℕ
unfolding sov_loop
sov_msg = sov_loop 9

-- The loops that read a varint into an integer of a size, a power of two: `|= uint64(b&0x7F) << shift`,
-- where w is 2^shift
unfoldable pub varint_loop : ℕ → ℕ → ℕ → ℕ → Bytes → Option (ℕ × Bytes)
varint_loop size zero w acc bytes = none
varint_loop size (suc f) w acc [] = none
varint_loop size (suc f) w acc (b ∷ bs) =
    let acc' = (acc + b % 128 * w) % size in
    let rest = varint_loop size f (w * 128) acc' bs in if ltb b 128 then some (acc', bs) else rest

-- They end with an error at `shift >= 64`.
unfoldable pub read_varint : ℕ → Bytes → Option (ℕ × Bytes)
unfolding varint_loop
read_varint size = varint_loop size 10 1 0

-- A field of bytes that is not empty, and one of a number that is not 0
unfoldable pub put_bytes : ℕ → Bytes → Bytes
unfolding encode_varint_msg
put_bytes tag b = if length b == 0 then [] else tag ∷ encode_varint_msg (length b) ++ b

unfoldable pub put_number : ℕ → ℕ → Bytes
unfolding encode_varint_msg
put_number tag v = if v == 0 then [] else tag ∷ encode_varint_msg v

-- A field of a list, whose elements may be empty
unfoldable pub put_element : ℕ → Bytes → Bytes
unfolding encode_varint_msg
put_element tag b = tag ∷ encode_varint_msg (length b) ++ b

unfoldable pub put_list : ℕ → List Bytes → Bytes
unfolding put_element
put_list tag [] = []
put_list tag (b ∷ bs) = put_element tag b ++ put_list tag bs

-- Their sizes
unfoldable pub size_bytes : Bytes → ℕ
unfolding sov_msg
size_bytes b = if length b == 0 then 0 else 1 + length b + sov_msg (length b)

unfoldable pub size_number : ℕ → ℕ
unfolding sov_msg
size_number v = if v == 0 then 0 else 1 + sov_msg v

unfoldable pub size_list : List Bytes → ℕ
unfolding sov_msg
size_list [] = 0
size_list (b ∷ bs) = 1 + length b + sov_msg (length b) + size_list bs

-- skipMsg, from the inner fields of a group on, with what a call on one of them returns
unfoldable pub group_loop : (Bytes → Option ℕ) → ℕ → ℕ → Bytes → Option ℕ
unfolding read_varint
group_loop skip zero position bytes = none
group_loop skip (suc f) position bytes = do
  (inner, rest) ← read_varint (2 ^ 64) bytes
  let behind = do next ← skip bytes; group_loop skip f (position + next) (drop next bytes)
  if inner % 8 == 4 then some (position + (length bytes - length rest)) else behind

-- The switch over the wire types
abbrev by_type {ℓ} :
    {A : Type ℓ} → ℕ → Option A → Option A → Option A → Option A → Option A → Option A → Option A
by_type wire_type a b c d e f =
    if wire_type == 0
    then a
    else if wire_type == 1
    then b
    else if wire_type == 2
    then c
    else if wire_type == 3
    then d
    else if wire_type == 4
    then e
    else if wire_type == 5
    then f
    else none

-- skipMsg(dAtA): how many bytes the field takes
unfoldable pub skip_msg : ℕ → Bytes → Option ℕ
unfolding read_varint group_loop
skip_msg zero bytes = none
skip_msg (suc f) bytes = do
  (wire, rest) ← read_varint (2 ^ 64) bytes
  let position = length bytes - length rest
  let number = do (v, rest') ← read_varint (2 ^ 64) rest; some (length bytes - length rest')
  let text = do
    (len, rest') ← read_varint (2 ^ 64) rest
    if ltb len (2 ^ 63) then some (length bytes - length rest' + len) else none
  let group = group_loop (skip_msg f) (suc (length rest)) position rest
  by_type (wire % 8) number (some (position + 8)) text group (some position) (some (position + 4))

-- What Unmarshal does with a field of a message.
pub data Kind (M : Type 0) : Type 0 where
  bytes_field : (Bytes → M → M) → Kind M
  number_field : ℕ → (ℕ → M → M) → Kind M
  unknown_field : Kind M

module _ {M : Type 0} where
  -- The field of a number, by those from the number 1 on
  abbrev pub field_at : List (Kind M) → ℕ → Kind M
  field_at kinds zero = unknown_field
  field_at [] (suc k) = unknown_field
  field_at (kind ∷ kinds) (suc zero) = kind
  field_at (kind ∷ kinds) (suc (suc k)) = field_at kinds (suc k)

  -- The cases of the switch, by the bytes from the tag on and those behind it
  unfoldable pub take_field : Kind M → ℕ → M → Bytes → Bytes → Option (M × Bytes)
  unfolding read_varint skip_msg
  take_field (bytes_field set) wire_type m whole rest =
      let taken = read_varint (2 ^ 64) rest >>= λ (len, rest').
      if ltb len (2 ^ 63) && leb len (length rest')
      then some (set (take len rest') m, drop len rest')
      else none in
      if wire_type == 2 then taken else none
  take_field (number_field size set) wire_type m whole rest =
      let taken = read_varint size rest >>= λ (v, rest'). some (set v m, rest') in
      if wire_type == 0 then taken else none
  take_field unknown_field wire_type m whole rest = do
    n ← skip_msg (suc (length whole)) whole
    if leb n (length whole) then some (m, drop n whole) else none

  -- The loop of Unmarshal. Every round takes a byte at least.
  unfoldable pub unmarshal_loop : (ℕ → Kind M) → ℕ → M → Bytes → Option M
  unfolding read_varint take_field
  unmarshal_loop kinds zero m bytes = none
  unmarshal_loop kinds (suc f) m [] = some m
  unmarshal_loop kinds (suc f) m (b ∷ bs) = do
    (wire, rest) ← read_varint (2 ^ 64) (b ∷ bs)
    let field = wire / 8 % 2 ^ 32
    (m', rest') ←
        if wire % 8 == 4 || field == 0 || leb (2 ^ 31) field
        then none
        else take_field (kinds field) (wire % 8) m (b ∷ bs) rest
    unmarshal_loop kinds f m' rest'

  unfoldable pub unmarshal : (ℕ → Kind M) → M → Bytes → Option M
  unfolding unmarshal_loop
  unmarshal kinds m bytes = unmarshal_loop kinds (suc (length bytes)) m bytes
