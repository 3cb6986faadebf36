-- ===== src/Licensing.antt =====
-- The license service: internal/service/license.go over the licenses and activations of
-- internal/store/store.go, and the lookup that the public SDK endpoints share.
pub mod Rules
pub mod Token
pub mod Usability
pub mod Store
pub mod Service
pub mod Sdk
pub mod Runs
pub mod Effects
pub mod Slots
pub mod Replies
pub mod Retry
pub mod Guard
mod Tests
pub mod Sample
