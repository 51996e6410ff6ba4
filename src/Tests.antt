-- ===== src/Tests.antt =====
-- The theorems at concrete inputs, and runs of the definitions.
mod Books
mod Feeds
mod Codecs
mod Publishing
mod Tables
mod Pooled
mod Plumbing
mod Clients
mod Texts
mod Engines
