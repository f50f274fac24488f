-- ===== src/Server.antt =====
-- The server of P2/fs/tfs_server.c: its sessions, the thread that reads requests (`Producer`) and the
-- threads that carry them out (`Consumer`).
pub mod State
pub mod Producer
pub mod Consumer
pub mod Sessions
pub mod Changes
pub mod Turns
pub mod Mounting
pub mod Main
pub mod Shutdown
mod Tests
