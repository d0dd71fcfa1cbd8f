-- ===== src/Normalize.antt =====
-- The Normalize stage, src/specmcp/core/normalize.py.
pub mod Schema
pub mod Read
pub mod Parameters
pub mod Content
pub mod Server
pub mod Operations
