-- ===== src/Lib.antt =====
-- The ATEL SDK: identities, signed and hash-chained execution traces, proof bundles, consent
-- policies, messages, handshakes and tool calls, negotiation, anchoring, trust scores and the trust graph,
-- and the access control, orders and bindings of the command line agent.
--
-- The parts and how they interact. An agent has an identity (src/identity/index.ts): an Ed25519 key
-- pair and a DID that carries the public key. Whatever is signed or hashed is first written as JSON
-- with sorted keys. While a task runs, an ExecutionTrace (src/trace/index.ts) records its events, each
-- chained to the hash of the one before, with signed checkpoints over the Merkle root of all hashes.
-- When it is done, a ProofGenerator (src/proof/index.ts) signs a bundle over the Merkle root of the
-- trace, which a ProofVerifier checks with the trace or without it. What the task may do is ruled by a
-- consent token and a PolicyEngine (src/policy/index.ts); which capability serves a task is decided by
-- src/schema/index.ts. The ToolGateway (src/gateway/index.ts) asks the PolicyEngine about every call of
-- a tool, and logs and traces it; a RollbackManager (src/rollback/index.ts) undoes what was done.
-- Agents exchange signed messages (src/envelope/index.ts), which an endpoint (src/endpoint/index.ts)
-- admits by rate, nonce and signature; a handshake (src/handshake/index.ts) of three messages opens a
-- session between two agents and agrees on a key for encryption (src/crypto/index.ts). The agent of
-- bin/atel.mjs lets peers in by its blacklist, its friends and temporary sessions, and limits requests
-- by rate, load and trust. A requestor negotiates with executors (src/negotiation/index.ts) before it
-- delegates. What agents do together is hashed and anchored on chains (src/collaboration/index.ts over
-- src/anchor/index.ts); from anchored proofs a client scores agents (src/score/index.ts), and a graph of
-- their interactions gives the trust of one in another (src/graph/index.ts).
--
--   Base      the names that all modules share: the tests on numbers, the list methods of
--             JavaScript, maps, and the result of a call that may throw
--   Json      serializePayload of src/identity/index.ts and sortedStringify of src/trace/index.ts
--   Identity  src/identity/index.ts: createDID, parseDID, sign, verify, AgentIdentity, rotateKey,
--             verifyKeyRotation
--   Merkle    MerkleTree of src/proof/index.ts
--   Trace     ExecutionTrace of src/trace/index.ts: the record Trace has its fields, append, checkpoint,
--             finalize and fail are functions on it; verify (verify_chain) is in Verify, loadFromFile and
--             saveToFile are in Load
--   Proof     ProofGenerator of src/proof/index.ts, and in Verifier its ProofVerifier
--   Schema    RiskLevel and matchTaskToCapability of src/schema/index.ts
--   Policy    scopeMatches, mintConsentToken, verifyConsentToken and PolicyEngine of
--             src/policy/index.ts
--   Friends   addFriend, removeFriend, isFriend and checkFriendRequestRateLimit of bin/atel.mjs
--   Sessions  the temporary sessions of bin/atel.mjs, the file and its cache
--   Access    checkP2PAccess and checkP2PMessageAccess of bin/atel.mjs
--   Enforcer  PolicyEnforcer, computeTrustLevel, riskAllowed and checkTrust of bin/atel.mjs
--   Envelope  createMessage, verifyMessage and NonceTracker of src/envelope/index.ts
--   Endpoint  RateLimiter and verifyIncoming of src/endpoint/index.ts
--   Crypto    encrypt, decrypt and EncryptionManager of src/crypto/index.ts
--   Handshake HandshakeManager of src/handshake/index.ts: its data here, createInit and processInit in
--             Steps, processAck, processConfirm, getSession and terminateSession in Replies; Honest,
--             Completion, Confirmed, Meeting and Exchange follow an exchange of all three messages
--   Gateway   createGatewayPolicy of src/gateway/index.ts, and in Tools its class ToolGateway
--   Rollback  RollbackManager of src/rollback/index.ts
--   Negotiation  NegotiationHandler of src/negotiation/index.ts, and in Client its NegotiationClient
--   Anchor    AnchorManager of src/anchor/index.ts over the interface AnchorProvider, whose promises are
--             the record Contract.Laws; Mock is MockAnchorProvider of src/anchor/mock.ts, which keeps them
--   Collaboration  CollaborationAnchor of src/collaboration/index.ts, its six events in Events
--   Score     TrustScoreClient of src/score/index.ts, its reports in Report
--   Graph     TrustGraph of src/graph/index.ts: nodes, edges and direct trust here, the breadth-first
--             search in Search, the queries in Queries
--   Orders    trackOrder and untrackOrder of bin/atel.mjs, and bin/order-cancel-helpers.mjs; Actions is
--             bin/notification-action-helpers.mjs
--   Notify    registerTelegramInboundBinding, ensureTelegramBindingOwnership,
--             releaseTelegramBindingOwnership and acquireTelegramInboundLeader of bin/atel.mjs
--   Tests     a small host that meets the assumptions, and runs of the theorems on it
--
-- How the code is modelled. A method that changes its object takes the state and returns the new one
-- beside its result; a throw is an error of the result, and the state that it leaves behind is
-- returned with it. Times, drawn identifiers and drawn keys are arguments. tweetnacl, bs58, Node's
-- base64 and sha256 are the record Identity.Host: its operations, and as laws that a signature
-- verifies under the public half of its key and has 64 bytes, that the encodings round trip, that
-- base58 has no colon, and that bytes and hashes have a text that is not empty. Merkle.Binding further
-- assumes a hash without collisions. Files are their parsed content, and a file that is missing or
-- cannot be read is empty where the code says so. A handler of the handshake gets the fields of a
-- message's payload as a record, and verifies the message with that payload; it reads the clock once.
-- tweetnacl's boxes are the record Crypto.Ciphers. How Date reads a text as a time, what a tool's
-- handler returns and how a compensation changes the world are arguments, and so is the trust score,
-- in hundredths, which the code computes from fractions. Where Score and Graph compute, the doubles of the
-- code are exact: Score counts over a common denominator and rounds as the code's last step does, Graph
-- has fractions of naturals, weights of tasks in multiples of a fixed unit, and exp as a parameter that is
-- at most 1 on times that are past. Costs of a negotiation are naturals, a missing one Infinity. Amounts
-- of orders are whole numbers or NaN. A provider's promises in Anchor are hypotheses of the manager's
-- theorems, with freshly drawn identifiers.
--
-- Bounds. Numbers are naturals: sequence numbers, counts and times are whole and never negative where
-- they are read. The loop that builds the layers of a Merkle tree, and the one that reduces a
-- checkpoint's hashes to a root, run on as many rounds as there are leaves; each round at least halves
-- a layer longer than one, so that is enough. A search in the trust graph runs on fuel that counts the items that a number of
-- edges and a depth can give, Graph.Search.visits: an item enters the queue for an edge and a depth at most.
--
-- Not modelled: the commands and the network of bin/atel.mjs, the HTTP servers and clients, the
-- blockchain clients, the rankings and clusters of the trust graph and its weights of tasks (a logarithm), the validators of JSON schemas, logging and notifications, and the messages of
-- errors and reports.
pub mod Base
pub mod Json
pub mod Identity
pub mod Merkle
pub mod Trace
pub mod Proof
pub mod Schema
pub mod Policy
pub mod Friends
pub mod Sessions
pub mod Access
pub mod Enforcer
pub mod Envelope
pub mod Endpoint
pub mod Crypto
pub mod Handshake
pub mod Gateway
pub mod Rollback
pub mod Negotiation
pub mod Anchor
pub mod Collaboration
pub mod Score
pub mod Graph
pub mod Orders
pub mod Notify
pub mod Tests
