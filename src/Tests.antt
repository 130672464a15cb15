-- ===== src/Tests.antt =====
-- The theorems at concrete inputs, a module per component.
mod Samples
mod Status
mod Outbox
mod Typing
mod Storage
mod Dedup
mod Messages
mod Conversations
mod Content
mod Devices
mod Bundles
mod Ws
mod Sessions
mod Client
mod Inbound
mod Outgoing
