-- ===== src/Tests.antt =====
-- The theorems at concrete queues, requests and servers.
mod Base
mod Queues
mod Fifos
mod Codecs
mod Servers
mod Arenas
mod Programs
mod Traffic
mod Locks
