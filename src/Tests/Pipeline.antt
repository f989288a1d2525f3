-- ===== src/Tests/Pipeline.antt =====
-- A UDP packet and a TCP packet over IPv4, through the decoder.
use packetmachine.Base.{
  ℕ, ◌≡◌, refl, none, some, [], ◌∷◌, ◌++◌, List, arith, ok, ◌>>=◌, true, Outcome, Bytes, get_or,
  Satisfies,
}
use packetmachine.Packet.{Packet}
use packetmachine.Payload.{Payload}
use packetmachine.Property.{Property, BufferOps}
use packetmachine.Property.Objects.{
  Class, ParamDef, value, ipv4_addr, port_number, storage, icmp_type, icmp_code,
}
use packetmachine.Property.Objects
use packetmachine.Property.Pools.{Inv}
use packetmachine.Modules.Contract.{IsReady}
use packetmachine.Decoder.{Decode, decode}
use packetmachine.Decoder.Loop.{IsDone}
use Prim.Native.String.{String}
use packetmachine.Decoder.Setup.{own_parts, own_parts-IsLinked, IsWired}
use packetmachine.Modules.Addresses.{SetsAll}
use packetmachine.Tests.Sessions.{slot, Leads, slot-IsTable, keys, make, now, state, state-IsSafe}
use packetmachine.Modules.Contract.{IsParamOf}
use packetmachine.Decoder.Pipeline.{Parts, IsLinked, pipeline, decode-IsDone}

abbrev buffers : BufferOps Bytes
buffers = record { clear = λ b. []; set = λ b src. src; contents = λ b. b }

-- The classes of the parameters 0 to 5; all others are plain values.
abbrev class : ℕ → Class
class i =
    get_or (storage ∷ ipv4_addr ∷ ipv4_addr ∷ port_number ∷ port_number ∷ icmp_code ∷ []) i
      Objects.value

abbrev def : ℕ → ParamDef
def i = record { id = i; class = class i }

-- A module that does nothing.
abbrev last : Decode Bytes
last pd prop = ok (none, pd, prop)

abbrev parts : Parts Bytes
parts = record {
  arp = record {
    p_hw_type = def 10;
    p_pr_type = def 11;
    p_hw_size = def 12;
    p_pr_size = def 13;
    p_op = def 14;
    p_hw_src = def 15;
    p_hw_dst = def 16;
    p_pr_src = def 17;
    p_pr_dst = def 18;
    ev_request = 12;
    ev_reply = 13;
  };
  dot1q = record {
    p_type = def 19;
    p_vlan_id = def 20;
    mod_ipv4 = some 6;
    mod_arp = some 0;
    mod_pppoe = some 9;
  };
  ethernet = record {
    p_type = def 21;
    p_src = def 22;
    p_dst = def 23;
    mod_ipv4 = some 6;
    mod_arp = some 0;
    mod_pppoe = some 9;
    mod_dot1q = some 3;
  };
  icmp = record { p_type = def 24; p_code = def 5; p_chksum = def 25 };
  ipv4 = record {
    p_hdr = def 0;
    p_src = def 1;
    p_dst = def 2;
    p_opt = def 26;
    p_data = def 27;
    mod_tcp = some 10;
    mod_udp = some 11;
    mod_icmp = some 5;
  };
  ipv6 = record { mod_tcp = some 10; mod_udp = some 11 };
  pppoe = record {
    p_version = def 28;
    p_type = def 29;
    p_code = def 30;
    p_session_id = def 31;
    p_payload_length = def 32;
    mod_ipv4 = some 6;
  };
  udp = record {
    p_src_port = def 3;
    p_dst_port = def 4;
    p_length = def 33;
    p_chksum = def 34;
    p_hdr = def 35;
    mod_dns = some 2;
    mod_mdns = some 8;
    mod_dhcp = some 1;
  };
  dhcp = record {
    p_msg_type = def 36;
    p_hw_type = def 37;
    p_hw_addr_len = def 38;
    p_hops = def 39;
    p_trans_id = def 40;
    p_seconds = def 41;
    p_flags = def 42;
    p_client_addr = def 43;
    p_your_client_addr = def 44;
    p_next_server_addr = def 45;
    p_relay_agent_addr = def 46;
    p_client_hw_addr = def 47;
    p_server_host_name = def 48;
    p_boot_file_name = def 49;
    p_magic_cookie = def 50;
    p_options = def 51;
    p_option = def 52;
    p_opt_type = def 53;
    p_opt_length = def 54;
    p_opt_data = def 55;
  };
  dns = record {
    p_tx_id = def 60;
    p_is_query = def 61;
    p_question = def 62;
    p_answer = def 63;
    p_authority = def 64;
    p_additional = def 65;
    p_records = def 66;
    p_name = def 67;
    p_data = def 68;
    p_type = def 69;
    ev_query = 14;
    ev_reply = 15;
  };
  mdns = record {
    p_tx_id = def 70;
    p_is_query = def 71;
    p_question = def 72;
    p_answer = def 73;
    p_authority = def 74;
    p_additional = def 75;
    p_records = def 76;
    p_name = def 77;
    p_data = def 78;
    p_type = def 79;
    ev_query = 14;
    ev_reply = 15;
  };
  tcp = last;
}

-- Ethernet, type 0x0800; IPv4 with five words of header, protocol 17; UDP from port 53 to 9; a byte.
abbrev frame : Bytes
frame =
    (1 ∷ 2 ∷ 3 ∷ 4 ∷ 5 ∷ 6 ∷ 7 ∷ 8 ∷ 9 ∷ 10 ∷ 11 ∷ 12 ∷ 8 ∷ 0 ∷ [])
    ++ ((0x45 ∷ 0 ∷ 0 ∷ 29 ∷ 0 ∷ 0 ∷ 0 ∷ 0 ∷ 64 ∷ 17 ∷ 0 ∷ 0 ∷ 10 ∷ 0 ∷ 0 ∷ 1 ∷ 10 ∷ 0 ∷ 0 ∷ 2 ∷ [])
        ++ (0 ∷ 53 ∷ 0 ∷ 9 ∷ 0 ∷ 9 ∷ 0 ∷ 0 ∷ 1 ∷ []))

abbrev packet : Packet
packet = record {
  len = 43;
  cap_len = 43;
  buf_len = 43;
  buf = some frame;
  tv = record { tv_sec = 0; tv_usec = 0 };
}

abbrev cursor : Payload
cursor = record { pkt = some packet; ptr = 0; end = 43; length = 43 }

abbrev empty : Property Bytes
empty = record {
  param_idx = [];
  param = [];
  event_idx = 0;
  event = [];
  src_addr = [];
  dst_addr = [];
  src_port = 0;
  dst_port = 0;
}

abbrev all_events : List ℕ
all_events = 0 ∷ 1 ∷ 2 ∷ 3 ∷ 4 ∷ 5 ∷ 6 ∷ 7 ∷ 8 ∷ 9 ∷ 10 ∷ 11 ∷ []

-- Where the decoding of the packet ends, and its events: Ethernet, IPv4, UDP and DNS.
abbrev outcome : Payload × Property Bytes → Outcome (ℕ × List ℕ)
outcome (pd, prop) = ok (pd.ptr, prop.event)

decoded_events :
    (decode (pipeline buffers frame parts all_events) 6 cursor empty >>= outcome)
    ≡ ok (42, 4 ∷ 6 ∷ 11 ∷ 2 ∷ [])
unfolding decode pipeline packetmachine.Decoder.run packetmachine.Decoder.step
    packetmachine.Modules.Ethernet.decode packetmachine.Payload.retain
    packetmachine.Modules.Ethernet.decode_header packetmachine.Property.Write.set_value
    packetmachine.Property.object packetmachine.Property.retain_value
    packetmachine.Property.retain_from packetmachine.Property.grow packetmachine.Property.push_event
    packetmachine.Property.modify packetmachine.Modules.Ipv4.decode
    packetmachine.Modules.Ipv4.decode_header packetmachine.Property.set_dst_addr
    packetmachine.Property.set_src_addr packetmachine.Modules.Udp.decode
    packetmachine.Modules.Ethernet.next_of packetmachine.Modules.Ipv4.decode_body
    packetmachine.Modules.Ipv4.decode_data packetmachine.Modules.Ipv4.decode_opt
    packetmachine.Modules.Ipv4.next_of packetmachine.Modules.Udp.decode_header
    packetmachine.Modules.Udp.next_of packetmachine.Payload.retain_from packetmachine.Payload.shrink
    packetmachine.Property.Objects.new_object packetmachine.Property.Objects.clear_object
    packetmachine.Property.Objects.clear_as packetmachine.Property.Write.write
    packetmachine.Property.set_dst_port packetmachine.Property.set_src_port packetmachine.Value.set
    packetmachine.Value.construct packetmachine.Value.clear packetmachine.NameService.Message.decode
decoded_events = refl

-- One parameter for each class.
abbrev class_id : Class → ℕ
class_id Class.value = 0
class_id Class.ipv4_addr = 1
class_id Class.ipv6_addr = 2
class_id Class.port_number = 3
class_id Class.array = 4
class_id Class.storage = 5
class_id Class.icmp_type = 6
class_id Class.icmp_code = 7
class_id Class.ns_name = 8
class_id Class.ns_data = 9
class_id Class.ns_type = 10
class_id Class.ns_record = 11
class_id Class.dhcp_option = 12

abbrev class_of_id : ℕ → Class
class_of_id i =
    get_or
      (Class.value ∷ Class.ipv4_addr ∷ Class.ipv6_addr ∷ Class.port_number ∷ Class.array
        ∷ Class.storage ∷ Class.icmp_type ∷ Class.icmp_code ∷ Class.ns_name ∷ Class.ns_data
        ∷ Class.ns_type ∷ Class.ns_record ∷ Class.dhcp_option ∷ [])
      i Class.value

abbrev define_param : String → String → Class → ParamDef
define_param mod_name name c = record { id = class_id c; class = c }

abbrev define_event : String → String → ℕ
define_event mod_name name = 12

define_param-IsParam :
    (mod_name name : String) (c : Class) → IsParamOf class_of_id c (define_param mod_name name c)
define_param-IsParam m n Class.value = (refl, refl)
define_param-IsParam m n Class.ipv4_addr = (refl, refl)
define_param-IsParam m n Class.ipv6_addr = (refl, refl)
define_param-IsParam m n Class.port_number = (refl, refl)
define_param-IsParam m n Class.array = (refl, refl)
define_param-IsParam m n Class.storage = (refl, refl)
define_param-IsParam m n Class.icmp_type = (refl, refl)
define_param-IsParam m n Class.icmp_code = (refl, refl)
define_param-IsParam m n Class.ns_name = (refl, refl)
define_param-IsParam m n Class.ns_data = (refl, refl)
define_param-IsParam m n Class.ns_type = (refl, refl)
define_param-IsParam m n Class.ns_record = (refl, refl)
define_param-IsParam m n Class.dhcp_option = (refl, refl)

buffers-SetsAll : SetsAll buffers
unfolding SetsAll
buffers-SetsAll b bytes = refl

-- Ethernet, type 0x0800; IPv4 with five words of header, protocol 6; TCP from port 4000 to 80, with
-- five words of header and ACK; a byte.
abbrev segment_frame : Bytes
segment_frame =
    (1 ∷ 2 ∷ 3 ∷ 4 ∷ 5 ∷ 6 ∷ 7 ∷ 8 ∷ 9 ∷ 10 ∷ 11 ∷ 12 ∷ 8 ∷ 0 ∷ [])
    ++ ((0x45 ∷ 0 ∷ 0 ∷ 41 ∷ 0 ∷ 0 ∷ 0 ∷ 0 ∷ 64 ∷ 6 ∷ 0 ∷ 0 ∷ 10 ∷ 0 ∷ 0 ∷ 1 ∷ 10 ∷ 0 ∷ 0 ∷ 2 ∷ [])
        ++ (15 ∷ 160 ∷ 0 ∷ 80 ∷ 0 ∷ 0 ∷ 0 ∷ 101 ∷ 0 ∷ 0 ∷ 3 ∷ 133 ∷ 80 ∷ 16 ∷ 2 ∷ 0 ∷ 0 ∷ 0 ∷ 0 ∷ 0
            ∷ 65 ∷ []))

abbrev segment_packet : Packet
segment_packet = record {
  len = 55;
  cap_len = 55;
  buf_len = 55;
  buf = some segment_frame;
  tv = record { tv_sec = 50; tv_usec = 7 };
}

abbrev segment_cursor : Payload
segment_cursor = record { pkt = some segment_packet; ptr = 0; end = 55; length = 55 }

segment_cursor-IsReady : IsReady 55 segment_cursor
segment_cursor-IsReady = record { valid = omega arith; current = segment_packet; has = refl }

-- The modules of the library, with the sessions of a moment.
abbrev own : Parts Bytes
own = own_parts slot buffers keys make segment_frame now true 300 define_param define_event state

own_parts-IsLinked_example : IsLinked buffers class_of_id 55 own × IsWired own
own_parts-IsLinked_example =
    own_parts-IsLinked slot Leads slot-IsTable class_of_id buffers keys make segment_frame now true
      300 define_param define_event state define_param-IsParam state-IsSafe

own-IsLinked : IsLinked buffers class_of_id 55 own
own-IsLinked =
    (own_parts-IsLinked slot Leads slot-IsTable class_of_id buffers keys make segment_frame now true
      300 define_param define_event state define_param-IsParam state-IsSafe).0

empty-IsOwn : Inv class_of_id empty
unfolding packetmachine.Property.object
empty-IsOwn = record { same_size = refl; in_pool = λ i. omega arith; typed = λ i k o e. cc }

decode-IsDone_example :
    Satisfies
      (IsDone class_of_id 55)
      (decode (pipeline buffers segment_frame own all_events) 6 segment_cursor empty)
decode-IsDone_example =
    decode-IsDone buffers buffers-SetsAll class_of_id segment_frame own own-IsLinked all_events
      segment_cursor empty refl segment_cursor-IsReady empty-IsOwn

-- Ethernet, IPv4 and TCP, whose table has a session for the packet.
segment_events :
    (decode (pipeline buffers segment_frame own all_events) 6 segment_cursor empty >>= outcome)
    ≡ ok (55, 4 ∷ 6 ∷ 10 ∷ [])
unfolding decode pipeline packetmachine.Decoder.run packetmachine.Decoder.step
    packetmachine.Modules.Ethernet.decode packetmachine.Payload.retain
    packetmachine.Modules.Ethernet.decode_header packetmachine.Property.Write.set_value
    packetmachine.Property.object packetmachine.Property.retain_value
    packetmachine.Property.retain_from packetmachine.Property.grow packetmachine.Property.push_event
    packetmachine.Property.modify packetmachine.Modules.Ipv4.decode
    packetmachine.Modules.Ipv4.decode_header packetmachine.Property.set_dst_addr
    packetmachine.Property.set_src_addr packetmachine.Modules.Udp.decode
    packetmachine.Modules.Ethernet.next_of packetmachine.Modules.Ipv4.decode_body
    packetmachine.Modules.Ipv4.decode_data packetmachine.Modules.Ipv4.decode_opt
    packetmachine.Modules.Ipv4.next_of packetmachine.Modules.Udp.decode_header
    packetmachine.Modules.Udp.next_of packetmachine.Payload.retain_from packetmachine.Payload.shrink
    packetmachine.Property.Objects.new_object packetmachine.Property.Objects.clear_object
    packetmachine.Property.Objects.clear_as packetmachine.Property.Write.write
    packetmachine.Property.set_dst_port packetmachine.Property.set_src_port packetmachine.Value.set
    packetmachine.Value.construct packetmachine.Value.clear packetmachine.NameService.Message.decode
    packetmachine.Modules.Tcp.decode packetmachine.Modules.Tcp.decode_header
    packetmachine.Modules.Tcp.set_properties packetmachine.Modules.Tcp.set_options
    packetmachine.Modules.Tcp.take_segment packetmachine.Modules.Tcp.manage_header
    packetmachine.Modules.Tcp.optlen_of packetmachine.Modules.Tcp.flags_of
    packetmachine.Modules.Tcp.bytes_at packetmachine.Tcp.Table.manage
    packetmachine.Tcp.Table.advance packetmachine.Tcp.Table.expire
    packetmachine.Tcp.Table.expire_one packetmachine.Tcp.Table.session_at
    packetmachine.Tcp.Table.search_session packetmachine.Tcp.Table.node_session
    packetmachine.Tcp.Table.with_session packetmachine.Tcp.Key.make_key
    packetmachine.Tcp.Key.ordered_key packetmachine.Tcp.Key.src_first packetmachine.Tcp.Key.key_of
    packetmachine.Tcp.Key.memcmp packetmachine.Tcp.Decode.decode packetmachine.Tcp.Decode.report
    packetmachine.Tcp.Decode.decode_stream packetmachine.Tcp.Decode.reassemble
    packetmachine.Tcp.Decode.each packetmachine.Tcp.Decode.take_in
    packetmachine.Tcp.Decode.show_data packetmachine.Tcp.Decode.announce
    packetmachine.Tcp.Decode.hold packetmachine.Tcp.State.trans_state
    packetmachine.Tcp.State.trans_from packetmachine.Tcp.State.has_fin packetmachine.Tcp.Stream.send
    packetmachine.Tcp.Stream.recv packetmachine.Tcp.Stream.to_rel_seq
    packetmachine.Tcp.Stream.match_addr packetmachine.Tcp.Stream.same_bytes
    packetmachine.Tcp.Stream.in_window packetmachine.Tcp.SegMap.find packetmachine.Tcp.SegMap.erase
    packetmachine.Tcp.SegMap.store packetmachine.Tcp.Session.sender_of
    packetmachine.Property.Write.set_value_ptr packetmachine.Property.Write.cpy_value
    packetmachine.Value.set_ptr packetmachine.Value.cpy packetmachine.Value.ensure_room own_parts
    packetmachine.Modules.Ethernet.set_up packetmachine.Modules.Ipv4.set_up
    packetmachine.Modules.Tcp.set_up packetmachine.Modules.Tcp.decode_packet
    packetmachine.Decoder.Setup.lookup_module
segment_events = refl
