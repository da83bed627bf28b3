-- ===== src/Tests.antt =====
-- The theorems at concrete inputs, and runs of the definitions.
mod Buffers
mod Wire
mod Requests
mod Connections
mod Caches
mod Codecs
mod Trees
mod Sockets
mod Steps
mod Lists
mod Config
mod Texts
