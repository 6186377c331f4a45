-- ===== src/Lib.antt =====
-- Verification of SharePaste: the server that relays clipboard items between the devices of a
-- group, and the parts of the TypeScript client that decide what is sent, applied and shown.
--
-- The program. A device talks gRPC to the server. The handlers (apps/server/src/services/
-- handlers.ts) turn a request into a call of the store and its errors into status codes. The store
-- (apps/server/src/store/sharepaste-store.ts) keeps devices, groups and their members, bind codes
-- and bind requests, the policies, the items that a group has seen, the offline queues and the open
-- streams. The durable store (apps/server/src/store/durable-sharepaste-store.ts) runs a call on it,
-- saves a snapshot through a persistence and limits rates through runtime signals. The client
-- (packages/client-core/src and apps/client-cli/src) watches the clipboard, asks its policy and its
-- sync engine whether an item is sent or applied, and keeps a history.
--
-- The model.
-- - Prelude, Map: Boolean tests, lists over native numbers, and JavaScript's Map and Set in the order
--   of insertion behind the laws `map_laws`.
-- - Types: apps/server/src/types.ts. Env: apps/server/src/utils/ids.ts over the clock, nanoid and
--   node:crypto, which are parameters. Policy: apps/server/src/utils/policy.ts.
-- - Exec: a method is a function from a world (the store, the number of values drawn from the
--   environment, the events emitted) to a result and a world; what is written before a throw stays.
-- - Store/Common, Devices, Pairing, PolicyUpdates, Clipboard, Snapshot: the methods of
--   `SharePasteStore`, one function each under the method's name in snake_case; Store/Calls: the
--   calls of `SharePasteStoreApi` and histories of them. SeenItems: the bounded set of `seenItems`
--   and of `SyncEngine.markSeen`.
-- - Store/Sound, Store/Keeps: the invariant between calls, and each method against it.
--   Store/Behaviour: what single methods and runs of them do.
-- - Handlers: `toError`, the unary handlers, the items of the wire, `OpenEventStream`.
-- - Durable: the durable store over the interfaces of apps/server/src/store/contracts.ts, with a
--   contract of each call in the words of the plain store (Durable/Contract), the
--   in-memory persistence of apps/server/src/infrastructure/noop.ts and the rate limit of
--   apps/server/src/infrastructure/redis-runtime.ts over the commands of Redis.
-- - Client: `SyncEngine`, `HistoryStore`, the policy engine, `ClientSession`, `ClipboardWatcher`,
--   `extensionForMime` and the check of the state file, a module each. Client/Task: a method of the
--   client as a function from the client and the state of all that is outside to a value or an
--   error, and both states. Client/Ports: apps/client-cli/src/core/ports.ts, a call of a port being
--   a function on the state outside. Client/SharePaste: `SharePasteClient` of
--   apps/client-cli/src/core/sharepaste-client.ts (Keys, Items, Bootstrap, Requests, Realtime).
--   Client/Bridge: the options, the parameters, the handlers and the dispatch of
--   apps/client-cli/src/runtime/runtime-bridge.ts. Client/Crypto: `NodeCryptoAgent` over the calls
--   of node:crypto, `RustCryptoBridge` over the process that it starts, `CryptoAgent`, and of the binary that is
--   started (crates/client-runtime/src/crypto.rs and bin/bridge.rs) the encryption and decryption.
--   Client/Grpc: apps/client-cli/src/core/grpc-client.ts, with the handlers of the server at the
--   other end of each unary call.
-- - Tests: sample environments and worlds, and each theorem at one of them.
--
-- Bounds and fuel. `createBindCode` draws codes until one is unused; the model draws at most as many
-- as its fuel says and throws an error of its own when the fuel is spent; the results on histories
-- hold for each fuel. Capacities are the constants of the code: ten devices, five attempts, a
-- thousand seen items. Numbers of the server's clock are natural; numbers from a client are
-- integers.
--
-- Not modelled: the Postgres persistence (the parameter `Persistence`), connections and timers,
-- the reading of configuration, the command line, the process of the runtime bridge, the keys,
-- identities and seals that the Rust binary makes, and the Kotlin, Swift, JavaScript and Rust
-- clients. Calls of the server, and methods of a client, run one after the other; the streams of
-- the client's reconnecting loop are steps of their own, for one call of `startRealtime`; the
-- interleaving of two calls or methods at an `await` is not modelled. Objects that a method
-- returns are copies.
mod Prelude
pub mod Map
pub mod Types
pub mod Env
pub mod Exec
pub mod Policy
pub mod SeenItems
pub mod Store
pub mod Handlers
pub mod Durable
pub mod Client
mod Tests
