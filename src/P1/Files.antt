-- ===== src/P1/Files.antt =====
-- Files of P1/fs: what a write stores in their blocks, direct and indirect, and what a read copies
-- from them.
pub mod Blocks
pub mod Ensure
pub mod Directs
pub mod PointerBlock
pub mod Indirects
pub mod Place
pub mod Stored
pub mod WriteRound
pub mod Write
pub mod ReadRound
pub mod Read
pub mod RoundTrip
pub mod PastEnd
pub mod Copying
pub mod Isolation
