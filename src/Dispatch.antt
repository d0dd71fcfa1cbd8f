-- ===== src/Dispatch.antt =====
-- The dispatcher, src/specmcp/runtime/dispatcher.py.
pub mod Quote
pub mod Serialize
pub mod Body
pub mod Template
pub mod Parts
pub mod Call
