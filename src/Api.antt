-- ===== src/Api.antt =====
-- cmd/api: the handlers of the public API.
pub mod Listing
pub mod Keys
pub mod Places
pub mod Errors
mod Tests
