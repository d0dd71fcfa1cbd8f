-- ===== src/Simplify.antt =====
-- The Simplify stage, src/specmcp/core/simplify.py.
pub mod UniqueKey
pub mod ArgumentMap
pub mod Metadata
pub mod Refs
pub mod Unions
pub mod Wrappers
pub mod Truncate
pub mod Description
pub mod Pipeline
