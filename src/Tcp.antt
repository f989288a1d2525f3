-- ===== src/Tcp.antt =====
-- class TCP of src/modules/tcp.cc: the streams and the sessions, with their states, the reassembly
-- of segments that arrive out of order, and the module that finds the session of a packet.
pub mod Stream
pub mod SegMap
pub mod Session
pub mod State
pub mod Decode
pub mod Termination
pub mod Handshake
pub mod Intake
pub mod Reassembly
pub mod Delivery
pub mod Key
pub mod Table
pub mod Expiry
pub mod Lifetime
