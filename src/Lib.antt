-- ===== src/Lib.antt =====
-- packetmachine: verification library.
--
-- packetmachine is a C++ library that captures packets, decodes them and calls handlers. A capture
-- thread (`Input::thread_main`, src/packetmachine.cc) fills packets and pushes them to a channel;
-- a decoding thread (`Kernel::thread_main`, src/kernel.cc) pulls each, runs the decode modules of
-- src/modules over it by a cursor (`Payload`) and collects what they find in a `Property`.
--
-- Which file models which part:
-- - Base: shared names; lists, memory, numbers and the outcome of code that may fault or throw.
-- - Packet, Packet/Store: src/packet.hpp and src/packet.cc.
-- - Payload, Payload/Bounds: class Payload of src/property.cc. A pointer is an offset into the
--   packet's buffer.
-- - Value and its modules: class Value of src/value.cc. View says which bytes a value shows,
--   Numbers and RoundTrip are about `uint64`, Text about `ip4`, `mac` and `repr`. Arrays and Maps
--   are value::Array and value::Map.
-- - Channel/Ring, its Threads, Safety and Close: RingBuffer of src/channel.hpp. The two threads are
--   interleaved steps, one for each access to what they share.
-- - Channel/Queue, Channel/Queue/Fifo: MsgQueue of src/channel.hpp.
-- - NameService/Label and its modules: `NameService::parse_label` of src/modules/utils.cc.
-- - NameService/Message, its SetUp, Records and Safety: `NameService::ns_decode` of
--   src/modules/utils.cc, which DNS and MDNS inherit.
-- - Property and its modules: class Property of src/property.cc and ParamDef of src/module.hpp.
-- - Property/Write: what the decode modules do to a value that they retain.
-- - Property/Handles: pointers to several retained values at once, and `dynamic_cast` of them, whose
--   null is a fault where it is used.
-- - Modules/Addresses: the lengths of the addresses that IPv4 and IPv6 set.
-- - Modules/Dhcp, Modules/Dhcp/Safety: src/modules/dhcp.cc.
-- - Modules/Header, Modules/Contract: what the decode modules share, and what each promises.
-- - Modules/Ethernet, Dot1Q, Pppoe, Arp, Ipv4, Ipv6, Icmp, Udp: the `decode` of the modules in
--   src/modules/ether.cc, dot1q.cc, pppoe.cc, arp.cc, ipv4.cc, ipv6.cc, icmp.cc and udp.cc.
-- - Tcp and its modules: the sessions of class TCP in src/modules/tcp.cc. Stream is one direction,
--   Session and State the session and its states, SegMap the stored segments, Decode its
--   `decode_stream` and `decode`, Key and Table how the module finds a session. Handshake,
--   Termination, Intake, Reassembly, Delivery, Expiry and Lifetime are about them. Modules/Tcp is
--   `decode` of the module, and Modules/Tcp/Safety is about it.
-- - Decoder, Decoder/Loop: `Decoder::decode` of src/decoder.cc. Decoder/Pipeline: the modules
--   that `build_module_map` of src/module.cc installs, in the order of their names.
--   Decoder/Setup: the ids that `Decoder::init` gives them and the lookups of their `setup`.
-- - Config: src/packetmachine/config.hpp and src/config.cc. Decoder/Settings, its Choice and Keys:
--   the loops of `Decoder::init` over the configuration, with ConfigDef and `define_config` of
--   src/module.hpp and src/module.cc.
-- - Kernel, Kernel/Handlers, Kernel/Dispatch: src/kernel.hpp and src/kernel.cc, the handlers and
--   the part of the decoding thread's loop that calls them.
-- - Tests: the definitions at concrete inputs.
--
-- Bounds and fuel: sizes and offsets are natural numbers and do not wrap; bytes are numbers below
-- 256 where that matters; loads are those of a little-endian host. The indices of the ring are
-- kept modulo its size, 4095, and its wait counters modulo 2 ^ 64. The loop of `parse_label` runs
-- on fuel 257, one more than the most rounds that it can take: each round but the last adds at
-- least 1 to a length that must stay below 256. The loop of `Decoder::decode` runs on fuel 6: at
-- most Ethernet, Dot1Q, PPPoE, IPv4, UDP and one module over it follow each other. The calls of
-- `decode_stream` inside of each other run on fuel one more than segments are stored, since each
-- that goes on has used one up; the loop that deletes expired sessions on one more than have expired.
-- The loop over the options of DHCP runs on fuel one more than bytes are left, of which each round
-- takes two.
-- Sequence numbers are modulo 2 ^ 32.
--
-- Outside of the repository, so an argument of the model: the result of `realloc` in
-- `Packet::store`, that of the mutex calls, and `tb::Buffer`, `tb::LruHash` and `tb::HashKey` of the
-- cpp-toolbox submodule. The `realloc` in `Value::cpy` is taken to succeed: the source does not look
-- at its result. Memory is sequentially consistent. The pointer to a buffer of TCP that a value shows
-- is modelled with the bytes that stood there when it was set.
--
-- The decoder runs each packet over the sessions of TCP that there are when it arrives
-- (`decode_packet` of Modules/Tcp); what the packet makes of the sessions is the result of `decode`
-- there, which the decoder's loop leaves out.
--
-- Not modelled: the parameters and events in `Decoder::init`, `ConfigValue::rename`, the rest of
-- the kernel's loop, and the printing of names and records; Value::ip6, which calls inet_ntop;
-- Map::repr; deferred (minor) parameters; libpcap and pthread calls; debug output; the copy of
-- googletest; the examples.
pub mod Base
pub mod Packet
pub mod Payload
pub mod Value
pub mod Channel
pub mod Config
pub mod NameService
pub mod Modules
pub mod Decoder
pub mod Kernel
pub mod Property
pub mod Tcp
mod Tests
