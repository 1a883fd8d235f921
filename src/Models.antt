-- ===== src/Models.antt =====
-- pkg/models: the data that the components exchange.
mod Profile
mod Registry
pub mod Columns
pub use Profile.*
pub use Registry.*
