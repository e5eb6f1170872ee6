-- ===== src/Tests.antt =====
-- Concrete runs: each module applies theorems about one part to an input of that part.
mod Packet
mod Gateway
mod Stub
mod Toy
mod Dispatch
mod Routes
mod Startup
mod Discovery
mod Chat
mod DbPool
mod Relation
mod Servers
mod Session
mod Upgrade
mod Recall
mod Admission
