-- ===== src/Lib.antt =====
-- MinaGuard: a multi-signature vault on Mina. The program's core is the smart contract under
-- contracts/src, which this library models; the backend, the user interface and the command line
-- tools index it and build its transactions.
--
-- Parts and files:
--   Platform          what the contract takes from o1js: field elements as numbers below the order,
--                     public keys, signatures, Merkle-map witnesses, and, as parameters, Poseidon, the
--                     Merkle path, the curve test, signature verification and the build's network.
--                     Platform/Laws states what is relied on: hashes do not collide, and a
--                     Merkle-map witness opens the map behind a root.
--   Constants         contracts/src/constants.ts and network-domain.ts
--   Hashes            hash-domains.ts and proposal-signing.ts
--   Owners            list-commitment.ts: computeOwnerChain, computeSetupOwnersChain,
--                     assertCoherentSetupOwners, assertOwnerMembership, addOwnerToCommitment and
--                     removeOwnerFromCommitment. The children compare each with lists of keys.
--   Proposal          Receiver and TransactionProposal of MinaGuard.ts with hash()
--   Permissions       guard-permission-policy.ts and guard-permissions.ts
--   Guard             class MinaGuard: the state, the environment of a call, the events and the
--                     outcome. Guard/Checks has the private helpers; Guard/Setup has deploy, setup,
--                     reserveForParent and executeSetupChild; Guard/Propose, Guard/Approve,
--                     Guard/Execute (the LOCAL executions) and Guard/Child (the REMOTE ones) have
--                     the other methods. Guard/Vote states what the two votes share, and its
--                     child what they do to the maps behind the roots.
--   Guard/Run         histories: sequences of successful calls with arbitrary arguments from a fresh
--                     account, with the votes cast. Its children have the invariants.
--   Storage           class OwnerStore of storage.ts; `toBase58` is a parameter. Its children compare it
--                     with the circuits and with the order of the base58 texts, which is by code
--                     point, since they are ASCII. Storage/Maps has ApprovalStore and
--                     VoteNullifierStore over o1js's MerkleMap (Platform/Maps), with their JSON forms
--                     as lists of properties.
--   Rebuild           event-rebuild.ts: what an indexed event does to the maps. Rebuild/Owners replays
--                     the owners, Rebuild/Stores rebuilds block by block, Rebuild/Verify compares with
--                     the chain; Rebuild/Emitted has the guard's events as the indexer serves them.
--                     The other children relate the rebuild to the set of events and to histories.
--                     `PublicKey.fromBase58`, `Field(text)` and `Number(text)` are parameters; an
--                     index or a nonce is the numeral of a field element, as the indexer serves it.
--   Checkpoint        store-checkpoint.ts: checkpoints and offline requests; Checkpoint/Cache has the
--                     load of IncrementalStoreCache.
--   Memo              memo.ts: memoToField, base58Decode and decodeTxMemo; the text encoder and
--                     decoder and SHA-256 are parameters. The loop that empties the carry runs on
--                     fuel, and the carry itself is enough.
--   Backend           pure parts of backend/src: Backend/Proposals is proposal-record.ts (the status and
--                     the record that the API serves), Backend/Submissions is submission-check.ts (the
--                     limiter, and in its child Lookup the check of a reported transaction). `Number`
--                     and `BigInt` of a text are parameters; the answers of the node are arguments.
--   Examples          a platform that satisfies the laws, sessions on it, and the theorems there.
--
-- A method is a function of the environment (address, slot, balance, the guards at other addresses),
-- the state and the arguments. It returns the new state with events and payments, or the message of
-- the assertion that fails. `getAndRequireEquals` and the other preconditions are read as the value
-- that the ledger holds. Names are those of the source in snake case; `data` is `payload`.
--
-- Loops over the fixed arrays (MAX_OWNERS = 20, MAX_RECEIVERS = 9) are recursions on lists; where the
-- length matters it is a hypothesis. Field arithmetic wraps at the order, which exceeds 2 ^ 64. A
-- history of at most 2 ^ 64 - 2 calls keeps counters from wrapping.
--
-- Not modelled: proofs, account updates and transaction assembly (o1js and the ledger), JSON texts,
-- the promise queue of IncrementalStoreCache.get, the waits and requests of the submission checks,
-- the indexer, routing and database access of the backend, the user interface, the command line
-- tools and the deployment scripts.
pub mod Base
pub mod Platform
pub mod Constants
pub mod Hashes
pub mod Owners
pub mod Proposal
pub mod Permissions
pub mod Guard
pub mod Storage
pub mod Rebuild
pub mod Checkpoint
pub mod Backend
pub mod Memo
pub mod Examples
