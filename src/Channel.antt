-- ===== src/Channel.antt =====
-- src/channel.hpp: the channels between the capture thread and the decoding thread.
pub mod Ring
pub mod Queue
