-- ===== src/Gateway.antt =====
-- The gateway process, src/gateway: its sessions' write queues, its table of connections, and the
-- handlers of its sockets.
pub mod Writer
pub mod Connections
pub mod Service
pub mod Session
pub mod Upgrade
pub mod Routes
pub mod Stubs
pub mod Acceptor
