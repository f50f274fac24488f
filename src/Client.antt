-- ===== src/Client.antt =====
-- The client of P2/client/tecnicofs_client_api.c: the messages that it writes to the server's pipe, and
-- its functions.
pub mod Messages
pub mod Api
pub mod Delivery
pub mod Requests
pub mod Fields
pub mod Contents
pub mod Delivered
pub mod Replies
mod Tests
