-- ===== src/Lib.antt =====
-- The secure chat client: the parts that decide what a user sees of a conversation, and what is
-- kept between two starts.
--
-- The client (src/index.ts) sends each message through the retry queue, notes it in the status
-- tracker, the message history and the conversation index, and hands what arrives to the same parts
-- once an envelope is new to the deduplication and its plaintext decodes as an event. All that is
-- kept stands in one key-value store, in which each user has a scope.
--
-- Modules and sources:
-- - Status: src/status.ts. `Status` has the state and the event handlers of `StatusTracker`,
--   `Status.Track` `trackOutbound` and `getStatus`.
-- - Store: src/store/interface.ts; `Store.IsLawful` is its contract. `Store.Memory`:
--   src/store/memory-adapter.ts. `Store.Scoped`, `Store.Migrate`: src/store/scoped-adapter.ts.
-- - Outbox: src/outbox.ts. Typing: src/typing.ts. Dedup: src/envelope_dedup.ts.
-- - Messages: src/message_store.ts. Conversations: src/conversations.ts, over Messages and Store.
-- - Content: src/content/protocol.ts, the types, `encodeEvent`, `decodeEvent`;
--   `Content.Factories` has `newText` to `newSelfEcho`. Devices: src/device_discovery.ts.
-- - Bundles: src/key_bundle.ts, over the interface of src/crypto/interface.ts.
-- - Ws: src/transport/ws.ts, `WsClient` as a state machine; `Ws.Reconnect` and `Ws.Closing` follow a
--   connection. Sessions: src/sessions.ts, `SessionManager`, over the crypto interface.
-- - Client: src/index.ts, the state and the shared steps. `Client.Dispatch`: `dispatchInboundEvent`.
--   `Client.Inbound`: `onFrame`, `handleInboundCiphertext`, `maybeAnnouncePeerDevice`.
--   `Client.Drain`: `drainPending`. `Client.Preferences`: the block list and the other settings, with
--   src/device.ts. `Client.Outgoing`: `sendContentInner`, `selfEcho`. `Client.Calls`: `editMessage`,
--   `deleteMessage`, `markRead` and the deletions of a thread. `Client.Texts`: `sendText`,
--   `retrySend`, `sendAppEvent`. The client holds the tracker, the history, the index and the known
--   devices, and joins the calls of their modules.
-- - Prelude: text, `Map`, `Set` and `sort`. Tests: the theorems at concrete inputs.
-- An operation has the name of its method in small letters with underscores, and takes and gives
-- back the state; the other child modules hold the proofs and say of which code they are.
--
-- Conventions. A string is the list of its UTF-16 code units. A `Map` is a list of entries in
-- insertion order, a `Set` a list of members. Times, counts and sizes are natural numbers. A promise
-- is the value that it resolves to: the calls of one object are awaited one after the other, and no
-- call starts before the one before it has ended. What the program calls and does not define is a
-- parameter: the storage operations `KvOps`, the JSON texts (`Codec`, `RowCodec`, `JsonText`),
-- `String` and `Number` (`Numerals`), the outcome of an attempt to send (`World`), the server's
-- list of devices (`Directory`), the crypto adapter and the HTTP client (`SessionCrypto`,
-- `SessionHttp`, `PendingHttp`, and those of the key bundles), and the coding of text as bytes. The
-- value of `Math.random()` is `k / 2 ^ 53`, and the backoff is computed on exact rationals.
--
-- Bounds and fuel. The queue makes 5 attempts by default, the memory of envelopes holds 1000 ids, the
-- buffers of early events 100 entries per peer. `decodeEvent` calls itself on the text of an echoed
-- event; the model goes two levels deep, which is enough, since a self-echo inside of a self-echo is
-- refused whatever it holds. `drainPending` is a loop on fuel; one round more than envelopes wait is
-- enough, as each round takes one away at least. No other operation of the model has fuel.
--
-- Not modelled: of the client class, the start and the coordination of tabs; the crypto adapters over
-- Olm, the HTTP client, the stores of the platforms, and logging. Calls that the client does not
-- await run to their end where they stand. The times in events are read as whole milliseconds. The
-- storage does not fail, but in the dispatch of an event: it may throw half-way (`interrupts`), and
-- the model goes on from whatever client it then left.
-- A scope is a user id that is not empty; that two users do not meet needs ids without a slash.
pub mod Prelude
pub mod Status
pub mod Store
pub mod Outbox
pub mod Typing
pub mod Dedup
pub mod Messages
pub mod Conversations
pub mod Content
pub mod Devices
pub mod Bundles
pub mod Ws
pub mod Sessions
pub mod Client
pub mod Tests
