-- ===== src/Schemas.antt =====
-- app/schemas: the validators of request bodies.
pub mod Json
pub mod Errors
pub mod MessageBodies
pub mod Accounts
pub mod Batches
pub mod ChannelBodies
pub mod Accepting
