-- ===== src/Lib.antt =====
-- proxyot: oblivious transfer, proxy re-encryption, a chameleon hash and a hash tree over the pairing
-- curve bn256, and files as blocks.
--
-- Parts of the program and the files that model them:
-- - curve/points.go: Points, with the methods of the three groups in Points/G1, Points/G2 and
--   Points/Gt. A Point is the value behind its pointer; a method that sets its receiver is a function
--   to the value set. An assertion on a point's type that does not hold is a fault. curve/curve.go:
--   Curve, with the calls through the interface, which go to the method of the receiver's group.
--   Curve/Field has the scalars, Curve/Calculus the points as multiples of the generators.
-- - ot/ot.go: Ot, the oblivious transfer (SealChoice, CalculateKeyPoints, RevealKeyPoint), which
--   calls curve. Ot/Keys computes the values, Ot/Correct compares them.
-- - pre/pre.go: Pre, the re-encryption (Encrypt, GenerateReKey, ReEncrypt, DecryptByReceiver,
--   DecryptByOwner), with the proofs in Pre/Delegation. It hands a key to closures, which are those
--   of pre/ciphering.go: Pre/Cipher, with Pre/Padding and Pre/Cbc.
-- - chash/chameleon.go: Chash. merkle/merkle.go: Merkle.
-- - fileobj/file_mem.go and fileobj/file.go: Fileobj, with Fileobj/Mem and Fileobj/Disk.
-- - node/protocol/ot.go, pre.go and storage.go: Protocol, with the handlers of the server and the
--   senders of the client in Protocol/Ot, Protocol/Pre and Protocol/Storage. They send the points of
--   curve; Protocol/Transparency has the proofs that a server parses what
--   a client made. A handler takes the message that its stream gives.
--   sendProtoMsg and readMsgFromStream are in Protocol/Streams, and its children join the two sides
--   over the bytes of Pb and the pool of the client.
-- - node/protocol/protocol.go: the errors in Protocol, MessagePool in Protocol/Pool, a step relation on
--   the map, its lock, the channels and the goroutines in Wait and Push; a goroutine that blocks takes
--   no step. Protocol/Pool/Invariant is what every step keeps,
--   Protocol/Pool/Channel what it keeps of the channel of one Wait. Protocol/Responses has the handlers
--   that push to it, and Protocol/Responses/Assertions what the clients make of what it returns.
--   Protocol/Pool/Mailbox is the contract of the pool for one protocol, Protocol/Pool/Refinement the
--   proof that it is kept.
-- - node/protocol/pb/msg.pb.go: Pb, with the varints, tags and fields of the wire format, and the
--   messages in Pb/Messages; Pb/Varint to Pb/RoundTrip have the proofs. What Marshal writes is a list
--   of bytes, in the order of the fields.
-- - bench/proxyot.go: Bench, which composes ot, pre and curve to share messages between Alice, Bob
--   and a proxy; Bench/Draws has the draws from math/rand, Bench/Setup the messages that are prepared,
--   Bench/Operations the benchmarks of single operations. Bench/Sharing, Bench/Setup/Rounds,
--   Bench/Operations/Curves and Bench/Operations/Ciphers have the proofs.
-- - bench/bench.go: Bench/Results, which benchmarks are run and what is computed from their times, over
--   the loops of Bench/Sweeps. bench/network.go: Bench/Network, over these loops and Pb.
-- - bench/bench_cs.go: Bench/Hashes, which joins curve, fileobj, chash and merkle, Bench/Updates, which
--   replaces the blocks under a chameleon hash of chash, and Bench/Figures, which repeats them.
-- - Tests: stand-ins for the parameters, and the theorems at concrete values.
--
-- What is not under the repository is a parameter with its documented behaviour as a record of laws:
-- the groups and the pairing of github.com/cloudflare/bn256 (Bn256, IsPairing), the digests and the
-- block cipher of Go's crypto packages (Crypto, IsCrypto), the identifiers of
-- github.com/ipfs/go-cid (CidLib, IsCidLib), the source of math/rand (MathRand, IsMathRand), the
-- streams of libp2p (Network, IsNetwork), float64 (Floats). Go's math/big and the sampling of crypto/rand are written out (BigInt, Rand). The source
-- of crypto/rand is the list of bytes that it will still give; at its end it fails.
--
-- Outcomes: an operation returns `ok`, the error that the code returns as `err`, a fault of the
-- language (a nil pointer, an assertion, an index out of range, a division by zero) as `panic`, and
-- `diverged` where its fuel is spent. The fuel: RandomFieldElement and rand.Int have one round more
-- than the source has bytes, and each round takes one; NewTree has as many rounds as there are
-- leaves, and each layer is shorter; DeriveFieldElementFromPoint and randFiledElement have no bound
-- in the code, so their number of rounds is an argument. The loops over sizes and counts take a round
-- for each value, and a bound on the values is a bound on their number. A varint has at most ten
-- bytes; Unmarshal takes a byte in each round at least, and so does skipMsg with every group that it
-- enters.
--
-- Numbers are natural numbers or integers; offsets in files wrap around as int64 does. Sizes of
-- blocks and files are not below 0.
--
-- Not modelled: node/node.go (it builds the host), what the handlers of node/protocol do to a stream
-- that they have read, the registration of these handlers, the getters and the registration of
-- node/protocol/pb, the averages over rounds in CSFigure1 and CSFigure2 of bench/bench_cs.go, the
-- timing and printing of bench, and the String methods.
pub mod Prelude
pub mod BigInt
pub mod Rand
pub mod MathRand
pub mod Bn256
pub mod Crypto
pub mod Points
pub mod Curve
pub mod Ot
pub mod Pre
pub mod Chash
pub mod Merkle
pub mod Fileobj
pub mod Pb
pub mod Protocol
pub mod Bench
pub mod Tests
