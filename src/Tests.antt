-- ===== src/Tests.antt =====
-- Tests of the definitions at concrete inputs, and each theorem at one of them.
mod Views
mod Rings
mod Names
mod Pools
mod Holders
mod Handling
mod Pipeline
mod Settings
mod Sessions
mod Messages
