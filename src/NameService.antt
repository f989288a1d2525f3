-- ===== src/NameService.antt =====
-- src/modules/utils.hpp and utils.cc: the decoding of DNS and mDNS messages.
pub mod Label
pub mod Message
