-- ===== src/Config.antt =====
-- The configuration of a node, src/config.
pub mod Text
pub mod Words
pub mod Load
pub mod Lines
pub mod File
pub mod Validator
pub mod Valid
pub mod Accepted
pub mod Addresses
pub mod Verdict
