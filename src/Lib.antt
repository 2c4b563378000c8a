-- ===== src/Lib.antt =====
-- A model of the node of the threshold signature network: the parties agree on a ledger by a protocol
-- in the style of PBFT, and run sessions that generate a key and sign with it. The model follows
-- the TypeScript sources under src/.
--
-- The files, the sources that they model, and how they work together:
--   Prelude             shared names, Boolean tests, `Result` for code that throws, objects as
--                       association lists (Prelude.Dict), integers over the native numbers
--   MessageQueue        src/protocol/message/messageQueue.ts: Board is MessageQueueMap (a broadcast for
--                       each round and party), Log is MessageQueueArray (the direct messages of a round)
--   Crypto              a record of what the program takes from bigint-crypto-utils and @noble/curves,
--                       with the documented laws; Platform is the record for elliptic, crypto-js and
--                       the JavaScript runtime, without laws
--   Fn                  src/mpc/math/polynomial/Fn.ts
--   Curve               src/mpc/math/curve.ts
--   Hasher              src/mpc/utils/hasher.ts, the transcript hash, over the record Hashing
--   Schnorr             src/mpc/zk/zksch.ts, which uses Fn, Curve and Hasher
--   Polynomial          src/mpc/math/polynomial/polynomial.ts, the secret polynomial of a party
--   Exponent            src/mpc/math/polynomial/exponent.ts, its public commitment
--   Keygen              src/mpc/keygen: the check of a decrypted share and the shares that round 4
--                       computes from Fn, Polynomial and Exponent; Session is keygenSession.ts, Round1
--                       has round1.ts and round2.ts, Round3 is round3.ts, and Round4 has round4.ts,
--                       round5.ts and partyKey.ts; Opening, Acceptance, Broadcast and Response are about what one
--                       party's round makes of what another's has sent
--   Lagrange            src/mpc/math/polynomial/lagrange.ts: the coefficients of the parties' shares
--   Arith               src/mpc/math/arith.ts: tests on numbers and the Jacobi symbol
--   Sample              src/mpc/math/sample.ts, with what the random number generators return as
--                       arguments
--   Pedersen            src/mpc/paillierKeyPair/Pedersen/pendersen.ts: commitments
--   Paillier            src/mpc/paillierKeyPair/paillierKeygen.ts: encryption, over Crypto
--   Zk                  src/mpc/zk: Enc is enc.ts, Logstar is logstar.ts, Affg is affg.ts, Prm is prm.ts,
--                       Fac is fac.ts and Mod is mod.ts, on Paillier, Pedersen, Arith and Hasher; each
--                       has the prover and the verifier
--   Mta                 src/mpc/zk/mta.ts: a product of two secrets becomes a sum, on Paillier and Affg
--   Signing             src/mpc/signing: Round1 to Round5 are signRound1.ts to signRound5.ts, on
--                       Paillier, Curve, Fn and Zk; Start is signSession.ts; Run is how the parties'
--                       last rounds follow each other; Opening is about the first messages, Products
--                       and Combination about all the parties' shares
--   Ledger              src/consensus/block.ts, src/wallet/transaction.ts and the chain functions of
--                       src/consensus/consesnsus.ts
--   Validators          src/p2p/validators/validators.ts and parseWalletInfo of validator.ts beside it
--   Pools               src/consensus/pBft and src/wallet/transactionPool.ts
--   Consensus           src/consensus/consesnsus.ts: the node as a record, one function per handler,
--                       which returns the node after the call and the error that it throws, if any;
--                       Election has the election and the dispatch of messages
--   Message             src/protocol/message/message.ts and canAccept of src/p2p/validators/validator.ts
--   Protocol            src/protocol/abstractProtocolHnadler.ts and src/protocol/keygenProtocol.ts: the
--                       session manager, on Board, Log and Message; Processor is sessionRoundProcessor
--                       with verifyAndEndSession, whose calls of other components are recorded in the
--                       manager
--   Tests               the components at concrete inputs, with a group of eleven elements
--
-- State that the code changes in place is passed and returned. A loop over a bounded counter is
-- recursion on the number of rounds that are left. The loop of jacobi has fuel, one more than its
-- second argument, which falls in every round. Numbers that the code holds as bigint are natural
-- numbers, but for Fn.mod and the difference in Fn.sub; a random draw, the time and a sampled scalar
-- are arguments. The factor 0.67 of the quorum is rounded as the doubles round it for fewer than
-- 1500 validators.
--
-- Not modelled: transport, HTTP, RPC, storage (a write to redis is a `saved_` field of the node),
-- the waits of the handlers, and the sharing of arrays between the pools and the blocks of the chain
-- (a block keeps the lists that the pools had when it was added). Objects are taken to enumerate
-- their keys in the order of insertion. Messages, scalars and sampled numbers of the proofs are not
-- negative: the code reduces what it samples modulo the order; only V of fac.ts may be negative.
-- The search for primes, the test for primes and the order of sorted texts are arguments. That the
-- primes of a Paillier key satisfy Euler's theorem is a hypothesis. The fields for a refresh of the
-- keys, which the code sets to null, and the write of the new key to the validator are left out. The
-- dispatch of the key generation's messages but for sessionRoundProcessor, the manager of a signing
-- session, the JSON forms of keys, proofs and messages, affp.ts and mtaProveAffP are not modelled; in
-- a session a round is known by its kind. Whether the address at the end of a key generation can be
-- derived, and the transaction is taken, are arguments.
pub mod Prelude
pub mod MessageQueue
pub mod Crypto
pub mod Fn
pub mod Arith
pub mod Curve
pub mod Hasher
pub mod Schnorr
pub mod Pedersen
pub mod Paillier
pub mod Polynomial
pub mod Exponent
pub mod Zk
pub mod Sample
pub mod Mta
pub mod Signing
pub mod Keygen
pub mod Lagrange
pub mod Platform
pub mod Ledger
pub mod Validators
pub mod Pools
pub mod Consensus
pub mod Message
pub mod Protocol
pub mod Tests
