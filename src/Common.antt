-- ===== src/Common.antt =====
-- The names that the other modules share: the libraries', passed on, and those of the children.
mod Base
pub mod Int
pub mod Dict
pub mod Table
pub mod Sum
pub mod Text
pub mod Trim
pub mod Outcome
pub use Base.*
