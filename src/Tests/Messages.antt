-- ===== src/Tests/Messages.antt =====
-- A DNS message and a DHCP message through their modules.
use packetmachine.Base.{
  ℕ, ◌≡◌, refl, Option, none, some, List, [], ◌∷◌, ◌++◌, arith, get_or, replicate, ok, ◌>>=◌, Bytes,
  Outcome, Satisfies,
}
use packetmachine.Packet.{Packet}
use packetmachine.Payload.{Payload}
use packetmachine.Property.{Property, object}
use packetmachine.Property.Objects.{Class, ParamDef, Object}
use packetmachine.Property.Pools.{Inv}
use packetmachine.Modules.Contract.{IsReady, IsGood}
use packetmachine.Modules.Header.{Decoded}
use packetmachine.Modules.Dhcp.{Dhcp}
use packetmachine.Modules.Dhcp
use packetmachine.Modules.Dhcp.Safety.{decode-IsGood}
use packetmachine.Modules.Dhcp.Safety
use packetmachine.NameService.Message.{NameService}
use packetmachine.NameService.Message
use packetmachine.NameService.Message.SetUp.{IsSetUp as IsNamed}
use packetmachine.NameService.Message.Safety.{decode_message-IsGood}

abbrev class : ℕ → Class
class i =
    get_or
      (Class.value ∷ Class.array ∷ Class.ns_record ∷ Class.ns_name ∷ Class.ns_data ∷ Class.ns_type
        ∷ Class.dhcp_option ∷ [])
      i Class.value

abbrev def : ℕ → ParamDef
def i = record { id = i; class = class i }

abbrev empty : Property Bytes
empty = record {
  param_idx = [];
  param = [];
  event_idx = 0;
  event = [];
  src_addr = [];
  dst_addr = [];
  src_port = 0;
  dst_port = 0;
}

empty-Inv : Inv class empty
unfolding object
empty-Inv = record { same_size = refl; in_pool = λ i. omega arith; typed = λ i k o e. cc }

abbrev Ends : Option ℕ → Type 0
Ends next = next ≡ none

abbrev names : NameService
names = record {
  p_tx_id = def 7;
  p_is_query = def 8;
  p_question = def 1;
  p_answer = def 1;
  p_authority = def 1;
  p_additional = def 1;
  p_records = def 2;
  p_name = def 3;
  p_data = def 4;
  p_type = def 5;
  ev_query = 20;
  ev_reply = 21;
}

names-IsNamed : IsNamed class names
names-IsNamed = record {
  tx_id_param = refl;
  is_query_param = refl;
  question_param = (refl, refl);
  answer_param = (refl, refl);
  authority_param = (refl, refl);
  additional_param = (refl, refl);
  records_param = (refl, refl);
  name_param = (refl, refl);
  data_param = (refl, refl);
  type_param = refl;
}

-- A question for "a.", and an answer whose name points to it: 10.0.0.1.
abbrev message : Bytes
message =
    (18 ∷ 52 ∷ 1 ∷ 0x80 ∷ 0 ∷ 1 ∷ 0 ∷ 1 ∷ 0 ∷ 0 ∷ 0 ∷ 0 ∷ [])
    ++ ((1 ∷ b'a' ∷ 0 ∷ 0 ∷ 1 ∷ 0 ∷ 1 ∷ [])
        ++ (0xc0 ∷ 12 ∷ 0 ∷ 1 ∷ 0 ∷ 1 ∷ 0 ∷ 0 ∷ 0 ∷ 9 ∷ 0 ∷ 4 ∷ 10 ∷ 0 ∷ 0 ∷ 1 ∷ []))

abbrev name_packet : Packet
name_packet = record {
  len = 35;
  cap_len = 35;
  buf_len = 35;
  buf = some message;
  tv = record { tv_sec = 0; tv_usec = 0 };
}

abbrev name_cursor : Payload
name_cursor = record { pkt = some name_packet; ptr = 0; end = 35; length = 35 }

name_cursor-IsReady : IsReady 35 name_cursor
name_cursor-IsReady = record { valid = omega arith; current = name_packet; has = refl }

decode_message-IsGood_example :
    Satisfies (IsGood class 35 Ends) (Message.decode names message name_cursor empty)
decode_message-IsGood_example =
    decode_message-IsGood class names names-IsNamed message Ends name_cursor empty refl
      name_cursor-IsReady empty-Inv

abbrev items_of : Option Object → List (ℕ × ℕ)
items_of none = []
items_of (some o) = o.items

-- Where the cursor ends, the events, and the records of the question and of the answer.
abbrev outcome : Decoded Bytes → Outcome (ℕ × List ℕ × List (ℕ × ℕ) × List (ℕ × ℕ))
outcome (next, pd, p) = ok (pd.ptr, p.event, items_of (object p (1, 0)), items_of (object p (1, 1)))

decoded_message :
    (Message.decode names message name_cursor empty >>= outcome)
    ≡ ok (35, 21 ∷ [], (2, 0) ∷ [], (2, 1) ∷ [])
unfolding Message.decode Message.decode_header Message.decode_body Message.records
    Message.after_record Message.new_record Message.array_of Message.after_name Message.resource
    Message.seek Message.is_query packetmachine.NameService.Label.parse_label
    packetmachine.NameService.Label.rounds packetmachine.NameService.Label.round
    packetmachine.NameService.Label.after_jump packetmachine.NameService.Label.label
    packetmachine.NameService.Label.advance packetmachine.NameService.Label.append
    packetmachine.NameService.Label.jump packetmachine.NameService.Label.jump_by
    packetmachine.Payload.retain packetmachine.Payload.retain_from
    packetmachine.Property.retain_value packetmachine.Property.retain_from
    packetmachine.Property.grow packetmachine.Property.modify packetmachine.Property.push_event
    object packetmachine.Property.Handles.alter packetmachine.Property.Handles.alter_as
    packetmachine.Property.Write.write packetmachine.Property.Write.set_value
    packetmachine.Property.Write.cpy_value packetmachine.Property.Objects.new_object
    packetmachine.Property.Objects.clear_object packetmachine.Property.Objects.clear_as
    packetmachine.Value.set packetmachine.Value.cpy packetmachine.Value.ensure_room
    packetmachine.Value.construct packetmachine.Value.clear
decoded_message = refl

abbrev dhcp : Dhcp
dhcp = record {
  p_msg_type = def 10;
  p_hw_type = def 11;
  p_hw_addr_len = def 12;
  p_hops = def 13;
  p_trans_id = def 14;
  p_seconds = def 15;
  p_flags = def 16;
  p_client_addr = def 17;
  p_your_client_addr = def 18;
  p_next_server_addr = def 19;
  p_relay_agent_addr = def 20;
  p_client_hw_addr = def 21;
  p_server_host_name = def 22;
  p_boot_file_name = def 23;
  p_magic_cookie = def 24;
  p_options = def 1;
  p_option = def 6;
  p_opt_type = def 25;
  p_opt_length = def 26;
  p_opt_data = def 27;
}

dhcp-IsSetUp : Safety.IsSetUp class dhcp
dhcp-IsSetUp = record {
  msg_type_param = refl;
  hw_type_param = refl;
  hw_addr_len_param = refl;
  hops_param = refl;
  trans_id_param = refl;
  seconds_param = refl;
  flags_param = refl;
  client_addr_param = refl;
  your_client_addr_param = refl;
  next_server_addr_param = refl;
  relay_agent_addr_param = refl;
  client_hw_addr_param = refl;
  server_host_name_param = refl;
  boot_file_name_param = refl;
  magic_cookie_param = refl;
  options_param = (refl, refl);
  option_param = (refl, refl);
  opt_type_param = refl;
  opt_length_param = refl;
  opt_data_param = refl;
}

-- A header of zeros, the options 53 and 50, and the end.
abbrev lease : Bytes
lease = replicate 240 0 ++ (53 ∷ 1 ∷ 1 ∷ 50 ∷ 4 ∷ 10 ∷ 0 ∷ 0 ∷ 9 ∷ 255 ∷ 0 ∷ [])

abbrev lease_packet : Packet
lease_packet = record {
  len = 251;
  cap_len = 251;
  buf_len = 251;
  buf = some lease;
  tv = record { tv_sec = 0; tv_usec = 0 };
}

abbrev lease_cursor : Payload
lease_cursor = record { pkt = some lease_packet; ptr = 0; end = 251; length = 251 }

lease_cursor-IsReady : IsReady 251 lease_cursor
lease_cursor-IsReady = record { valid = omega arith; current = lease_packet; has = refl }

decode-IsGood_example :
    Satisfies (IsGood class 251 Ends) (Dhcp.decode dhcp lease lease_cursor empty)
decode-IsGood_example =
    decode-IsGood class dhcp dhcp-IsSetUp lease Ends lease_cursor empty refl lease_cursor-IsReady
      empty-Inv

decoded_lease :
    (Dhcp.decode dhcp lease lease_cursor empty >>= outcome) ≡ ok (251, [], (6, 0) ∷ (6, 1) ∷ [], [])
unfolding Dhcp.decode Dhcp.decode_header Dhcp.set_fields Dhcp.options Dhcp.round Dhcp.option_header
    Dhcp.option_data Dhcp.put_option packetmachine.Payload.retain packetmachine.Payload.retain_from
    packetmachine.Property.retain_value packetmachine.Property.retain_from
    packetmachine.Property.grow packetmachine.Property.modify packetmachine.Property.push_event
    object packetmachine.Property.Handles.alter packetmachine.Property.Handles.alter_as
    packetmachine.Property.Write.write packetmachine.Property.Write.set_value
    packetmachine.Property.Write.cpy_value packetmachine.Property.Objects.new_object
    packetmachine.Property.Objects.clear_object packetmachine.Property.Objects.clear_as
    packetmachine.Value.set packetmachine.Value.cpy packetmachine.Value.ensure_room
    packetmachine.Value.construct packetmachine.Value.clear
decoded_lease = refl
