-- ===== src/Tests.antt =====
-- Tests and examples, by the stages of the program.
mod Names
mod Failures
mod Specs
mod Tools
mod Calls
mod Codec
mod Dumped
mod Stores
mod Exchanges
mod Login
mod Upstream
mod Settings
mod Serving
