-- ===== src/Tests/Sessions.antt =====
-- TCP sessions: a handshake, segments out of order, keys, and packets through the module.
use Prim.Native.Nat.{bit_or}
use packetmachine.Base.{
  ℕ, ◌+◌, ◌<◌, ◌≡◌, ◌≢◌, ◌⊎◌, inl, inr, refl, ap, Bool, true, false, Option, none, some, List, [],
  ◌∷◌, ◌++◌, arith, ◌==◌, if◌then◌else◌, get_elem?, get_or, ok, ◌>>=◌, Bytes, Satisfies, Outcome,
}
use packetmachine.Packet.{Packet}
use packetmachine.Payload.{Payload}
use packetmachine.Value.{Ptr, packet}
use packetmachine.Property.{Property, BufferOps, object}
use packetmachine.Property.Objects.{Class, ParamDef}
use packetmachine.Property.Pools.{Inv}
use packetmachine.Modules.Contract.{IsReady}
use packetmachine.Tcp.Stream.{Stream, to_rel_seq}
use packetmachine.Tcp.SegMap.{find, stored}
use packetmachine.Tcp.Session.{
  client, server, Status, established, Timeval, Segment, Session, stream, sender_of,
}
use packetmachine.Tcp.State.{syn, ack, has_fin, timersub}
use packetmachine.Tcp.Decode.{Defs, BufferMake, Arrival, decode}
use packetmachine.Tcp.Termination.{IsDefined, Holds, decode-Holds}
use packetmachine.Tcp.Handshake.{Frame, run}
use packetmachine.Tcp.Intake.{IsBuffer, Follows}
use packetmachine.Tcp.Reassembly.{Delivered}
use packetmachine.Tcp.Delivery.{decode-reassembled, decode-swapped}
use packetmachine.Tcp.Key.{KeyOps, make_key, make_key-swap}
use packetmachine.Tcp.Table.{TableOps, State, manage}
use packetmachine.Tcp.Expiry.{IsTable, IsSafe}
use packetmachine.Modules.Tcp.{Tcp}
use packetmachine.Modules.Tcp
use packetmachine.Modules.Tcp.Safety.{decode-IsDecoded, IsDecoded}

abbrev buffers : BufferOps Bytes
buffers = record { clear = λ b. []; set = λ b src. src; contents = λ b. b }

abbrev pub make : BufferMake Bytes
make = record { empty = []; append = λ b bytes. b ++ bytes }

make-IsBuffer : IsBuffer buffers make
make-IsBuffer = record { contents_empty = refl; contents_append = λ b bytes. refl }

abbrev class : ℕ → Class
class i =
    get_or (Class.port_number ∷ Class.port_number ∷ Class.value ∷ Class.storage ∷ []) i Class.value

abbrev def : ℕ → ParamDef
def i = record { id = i; class = class i }

abbrev defs : Defs
defs = record {
  p_src_port = def 0;
  p_dst_port = def 1;
  p_ssn_id = def 2;
  p_hdr = def 3;
  p_optdata = def 4;
  p_segment = def 5;
  p_data = def 6;
  p_rtt_3wh = def 7;
  p_tx_server = def 8;
  p_tx_client = def 9;
  ev_new = 20;
  ev_estb = 21;
  ev_close = 22;
}

defs-IsDefined : IsDefined class defs
defs-IsDefined = record {
  src_port_param = refl;
  dst_port_param = refl;
  ssn_id_param = refl;
  hdr_param = refl;
  optdata_param = refl;
  segment_param = refl;
  data_param = refl;
  rtt_param = refl;
  tx_server_param = refl;
  tx_client_param = refl;
}

abbrev pub now : Timeval
now = record { tv_sec = 50; tv_usec = 7 }

-- From 10.0.0.1, port 4000, to 10.0.0.2, port 80.
abbrev sent : Property Bytes
sent = record {
  param_idx = [];
  param = [];
  event_idx = 0;
  event = [];
  src_addr = 10 ∷ 0 ∷ 0 ∷ 1 ∷ [];
  dst_addr = 10 ∷ 0 ∷ 0 ∷ 2 ∷ [];
  src_port = 4000;
  dst_port = 80;
}

abbrev answered : Property Bytes
answered = record {
  param_idx = [];
  param = [];
  event_idx = 0;
  event = [];
  src_addr = 10 ∷ 0 ∷ 0 ∷ 2 ∷ [];
  dst_addr = 10 ∷ 0 ∷ 0 ∷ 1 ∷ [];
  src_port = 80;
  dst_port = 4000;
}

sent-Inv : Inv class sent
unfolding object
sent-Inv = record { same_size = refl; in_pool = λ i. omega arith; typed = λ i k o e. cc }

abbrev client_stream : Stream
client_stream = record {
  has_base_seq = true;
  base_seq = 100;
  next_seq = 1;
  ack = 0;
  win_size = 0;
  addr = 10 ∷ 0 ∷ 0 ∷ 1 ∷ [];
  port = 4000;
  tx_size = 0;
}

abbrev server_stream : Stream
server_stream = record {
  has_base_seq = true;
  base_seq = 900;
  next_seq = 1;
  ack = 0;
  win_size = 0;
  addr = 10 ∷ 0 ∷ 0 ∷ 2 ∷ [];
  port = 80;
  tx_size = 0;
}

abbrev session : List (ℕ × List (Segment Bytes)) → Session Bytes
session segments = record {
  client = client_stream;
  server = server_stream;
  closing_side = Option.none;
  id = 1;
  status = established;
  ts_init = now;
  ts_estb = now;
  ts_rtt = now;
  buf = Option.none;
  seg_map = segments;
}

-- Relative numbers 1, 3 and 4.
abbrev first : Arrival
first = record {
  flags = 16;
  seq = 101;
  ack = 901;
  ptr = packet 20;
  bytes = 65 ∷ 66 ∷ [];
  win_size = 512;
}

abbrev second : Arrival
second = record {
  flags = 16;
  seq = 103;
  ack = 901;
  ptr = packet 20;
  bytes = 67 ∷ [];
  win_size = 512;
}

abbrev third_segment : Segment Bytes
third_segment = record { seq = 104; flags = 16; buf = 68 ∷ 69 ∷ [] }

abbrev second_segment : Segment Bytes
second_segment = record { seq = 103; flags = 16; buf = 67 ∷ [] }

abbrev waiting : List (ℕ × List (Segment Bytes))
waiting = (4, third_segment ∷ []) ∷ (3, second_segment ∷ []) ∷ []

no_fin : has_fin 16 ≡ false
unfolding has_fin
no_fin = refl

from_client :
    (segments : List (ℕ × List (Segment Bytes)))
    → sender_of buffers (session segments) sent ≡ client
unfolding sender_of
from_client segments = refl

first_seq : to_rel_seq client_stream 101 ≡ 1
unfolding to_rel_seq
first_seq = refl

second_seq : to_rel_seq client_stream 103 ≡ 3
unfolding to_rel_seq
second_seq = refl

third_seq : to_rel_seq client_stream 104 ≡ 4
unfolding to_rel_seq
third_seq = refl

waiting-Follows : Follows buffers client_stream waiting 3 (second_segment ∷ third_segment ∷ [])
unfolding find
waiting-Follows =
    (refl, second_seq, no_fin, omega arith, (refl, third_seq, no_fin, omega arith, refl))

decode-reassembled_example :
    Satisfies
      (Delivered class buffers make make-IsBuffer defs defs-IsDefined now client 6
        (65 ∷ 66 ∷ 67 ∷ 68 ∷ 69 ∷ []))
      (decode buffers make defs now first sent (session waiting))
decode-reassembled_example =
    decode-reassembled class buffers make make-IsBuffer defs defs-IsDefined now client
      second_segment (third_segment ∷ []) 1 first sent (session waiting) sent-Inv
      (from_client waiting) refl no_fin refl refl first_seq (omega arith) (omega arith)
      waiting-Follows

nothing : (key : ℕ) → find {A = Segment Bytes} [] key ≡ none
unfolding find
nothing key = refl

decode-swapped_example :
    Satisfies
      (Delivered class buffers make make-IsBuffer defs defs-IsDefined now client 4
        (65 ∷ 66 ∷ 67 ∷ []))
      (decode buffers make defs now second sent (session []) >>= λ x.
        decode buffers make defs now first sent x.1)
decode-swapped_example =
    decode-swapped class buffers make make-IsBuffer defs defs-IsDefined now client 1 first second
      sent sent (session []) sent-Inv sent-Inv (from_client []) (from_client []) refl no_fin no_fin
      refl refl first_seq second_seq (omega arith) (omega arith) (omega arith) (nothing 3)
      (nothing 4)

decode-Holds_example :
    Satisfies
      (Holds class (stored waiting + 1))
      (decode buffers make defs now second sent (session waiting))
decode-Holds_example =
    decode-Holds class buffers make defs defs-IsDefined now second sent (session waiting) sent-Inv

-- A new session, and the segments of a handshake, with a FIN behind it.
abbrev fresh : Session Bytes
fresh = record {
  client = client_stream;
  server = server_stream;
  closing_side = Option.none;
  id = 1;
  status = Status.none;
  ts_init = now;
  ts_estb = now;
  ts_rtt = now;
  buf = Option.none;
  seg_map = [];
}

abbrev later : Timeval
later = record { tv_sec = 51; tv_usec = 3 }

abbrev frames : List Frame
frames =
    record { flags = syn; sender = client; seq = 100; seg_len = 0; tv = now }
    ∷ record { flags = bit_or syn ack; sender = server; seq = 900; seg_len = 0; tv = now }
    ∷ record { flags = ack; sender = client; seq = 101; seg_len = 0; tv = later }
    ∷ record { flags = 17; sender = server; seq = 901; seg_len = 0; tv = later }
    ∷ []

closing_after_fin : (run fresh frames).status ≡ Status.closing
unfolding run packetmachine.Tcp.Handshake.step packetmachine.Tcp.State.trans_state
    packetmachine.Tcp.State.trans_from has_fin
closing_after_fin = refl

abbrev pub keys : KeyOps Bytes
keys = record {
  clear = λ key. [];
  resize = λ key size. key;
  append = λ key bytes. key ++ bytes;
  finalize = λ key. key;
}

make_key-swap_example :
    (make_key keys buffers answered [] ≡ make_key keys buffers sent [])
    × ((r : Bytes) × (make_key keys buffers sent [] ≡ ok r))
make_key-swap_example = make_key-swap keys buffers sent answered [] refl refl refl refl refl

-- A table of one session, which expires by one step.
abbrev pub Slot : Type 0
Slot = Option ℕ × Option ℕ

abbrev or_zero : Option ℕ → ℕ
or_zero none = 0
or_zero (some i) = i

abbrev is_some : Option ℕ → Bool
is_some none = false
is_some (some i) = true

abbrev without : Option ℕ → Option ℕ → Option ℕ
without (some i) (some j) = if i == j then none else some i
without o _ = o

abbrev slot_step : Slot → Slot
slot_step (active, none) = (none, active)
slot_step (active, some i) = (active, some i)

abbrev pub slot : TableOps Slot Bytes
slot = record {
  get = λ t key. (t.0, t);
  put = λ t timeout key i. (some i, t.1);
  step = λ t ticks. slot_step t;
  has_expired = λ t. is_some t.1;
  pop_expired = λ t. (or_zero t.1, (without t.0 t.1, none));
  pending = λ t. elim t.1 [ none ↦ 0 | some i ↦ 1 ];
}

abbrev pub Leads : Slot → ℕ → Type 0
Leads t i = (t.0 ≡ some i) ⊎ (t.1 ≡ some i)

pub slot-IsTable : IsTable slot Leads
slot-IsTable = record {
  get_leads = λ t key i e. inl e;
  get_keeps = λ t key i h. h;
  put_keeps = λ t timeout key i j h. put_case t i j h;
  step_keeps = λ t ticks i h. step_case t i h;
  pop_leads = λ t e. inr (pop_case t.1 e);
  pop_keeps = λ t i e h. rest_case t.0 t.1 i e h;
  pop_pending = λ t e. pending_case t.1 e;
}
  where
    put_case : (t : Slot) (i j : ℕ) → Leads (some i, t.1) j → (j ≡ i) ⊎ Leads t j
    put_case t i j (inl e) = inl (ground (arith, e))
    put_case t i j (inr e) = inr (inr e)

    step_case : (t : Slot) (i : ℕ) → Leads (slot_step t) i → Leads t i
    step_case (active, none) i (inl e) = cc
    step_case (active, none) i (inr e) = inl e
    step_case (active, some j) i h = h

    pop_case : (o : Option ℕ) → is_some o ≡ true → o ≡ some (or_zero o)
    pop_case none e = cc
    pop_case (some i) e = refl

    rest_case :
        (a o : Option ℕ) (i : ℕ)
        → is_some o ≡ true
        → Leads (without a o, none) i
        → Leads (a, o) i × (i ≢ or_zero o)
    rest_case a none i e h = cc
    rest_case none (some j) i e h = elim h [ inl k ↦ cc | inr k ↦ cc ]
    rest_case (some x) (some j) i e (inl k) = (inl (ground (arith, k)), ground (arith, k))
    rest_case (some x) (some j) i e (inr k) = cc

    pending_case :
        (o : Option ℕ) → is_some o ≡ true → 0 < elim o as (λ b. ℕ) [ none ↦ 0 | some i ↦ 1 ]
    pending_case none e = cc
    pending_case (some i) e = omega arith

-- One session has expired, another is in use.
abbrev pub state : State Slot Bytes Bytes
state = record {
  ssn_count = 2;
  curr_ts = 10;
  init_ts = true;
  ssn_table = (some 0, some 1);
  key = [];
  memory = some (session waiting) ∷ some (session []) ∷ [];
}

pub state-IsSafe : IsSafe slot Leads state
state-IsSafe i (inl e) = (session waiting, ap (get_elem? state.memory) (index 0 i e))
  where
    index : (j k : ℕ) → ◌≡◌ {A = Option ℕ} (some j) (some k) → k ≡ j
    index j k e = ground (arith, e)
state-IsSafe i (inr e) = (session [], ap (get_elem? state.memory) (index 1 i e))
  where
    index : (j k : ℕ) → ◌≡◌ {A = Option ℕ} (some j) (some k) → k ≡ j
    index j k e = ground (arith, e)

-- From port 4000 to 80, number 101, ACK 901, five words of header, ACK, window 512; two bytes.
abbrev header : Bytes
header =
    15 ∷ 160 ∷ 0 ∷ 80 ∷ 0 ∷ 0 ∷ 0 ∷ 101 ∷ 0 ∷ 0 ∷ 3 ∷ 133 ∷ 80 ∷ 16 ∷ 2 ∷ 0 ∷ 0 ∷ 0 ∷ 0 ∷ 0 ∷ 65
    ∷ 66 ∷ []

abbrev segment_packet : Packet
segment_packet = record {
  len = 22;
  cap_len = 22;
  buf_len = 22;
  buf = some header;
  tv = record { tv_sec = 50; tv_usec = 7 };
}

abbrev cursor : Payload
cursor = record { pkt = some segment_packet; ptr = 0; end = 22; length = 22 }

cursor-IsReady : IsReady 22 cursor
cursor-IsReady = record { valid = omega arith; current = segment_packet; has = refl }

abbrev tcp : Tcp
tcp = record { defs = defs; enable_ssn_mgmt = true; ssn_timeout = 300 }

abbrev Ends : Option ℕ → Type 0
Ends next = next ≡ none

decode-IsDecoded_example :
    Satisfies
      (IsDecoded slot Leads slot-IsTable class buffers keys make tcp defs-IsDefined header now Ends)
      (Tcp.decode slot buffers keys make tcp header now cursor sent state)
decode-IsDecoded_example =
    decode-IsDecoded slot Leads slot-IsTable class buffers keys make tcp defs-IsDefined header now
      Ends cursor sent state refl cursor-IsReady sent-Inv refl state-IsSafe

-- The numbers that the client's stream waits for, session by session; none for a deleted one.
abbrev next_seqs : List (Option (Session Bytes)) → List (Option ℕ)
next_seqs [] = []
next_seqs (none ∷ memory) = none ∷ next_seqs memory
next_seqs (some s ∷ memory) = some s.client.next_seq ∷ next_seqs memory

abbrev outcome : Tcp.Out slot buffers keys make tcp header now → Outcome (ℕ × List (Option ℕ))
outcome (next, pd, p, st) = ok (pd.ptr, next_seqs st.memory)

decoded_sessions :
    (Tcp.decode slot buffers keys make tcp header now cursor sent state >>= outcome)
    ≡ ok (22, some 6 ∷ none ∷ [])
unfolding packetmachine.Modules.Tcp.decode packetmachine.Modules.Tcp.decode_header
    packetmachine.Modules.Tcp.set_properties packetmachine.Modules.Tcp.set_options
    packetmachine.Modules.Tcp.take_segment packetmachine.Modules.Tcp.manage_header
    packetmachine.Modules.Tcp.optlen_of packetmachine.Modules.Tcp.flags_of
    packetmachine.Modules.Tcp.bytes_at packetmachine.Tcp.Table.manage
    packetmachine.Tcp.Table.advance packetmachine.Tcp.Table.expire
    packetmachine.Tcp.Table.expire_one packetmachine.Tcp.Table.session_at
    packetmachine.Tcp.Table.search_session packetmachine.Tcp.Table.node_session
    packetmachine.Tcp.Table.with_session packetmachine.Tcp.Key.make_key
    packetmachine.Tcp.Key.ordered_key packetmachine.Tcp.Key.src_first packetmachine.Tcp.Key.key_of
    packetmachine.Tcp.Key.memcmp packetmachine.Tcp.Decode.decode packetmachine.Tcp.Decode.report
    packetmachine.Tcp.Decode.decode_stream packetmachine.Tcp.Decode.reassemble
    packetmachine.Tcp.Decode.each packetmachine.Tcp.Decode.take_in
    packetmachine.Tcp.Decode.show_data packetmachine.Tcp.Decode.announce
    packetmachine.Tcp.Decode.hold packetmachine.Tcp.State.trans_state
    packetmachine.Tcp.State.trans_from packetmachine.Tcp.State.has_fin packetmachine.Tcp.Stream.send
    packetmachine.Tcp.Stream.recv packetmachine.Tcp.Stream.to_rel_seq
    packetmachine.Tcp.Stream.match_addr packetmachine.Tcp.Stream.same_bytes
    packetmachine.Tcp.Stream.in_window packetmachine.Tcp.SegMap.find packetmachine.Tcp.SegMap.erase
    packetmachine.Tcp.SegMap.store packetmachine.Tcp.Session.sender_of packetmachine.Payload.retain
    packetmachine.Payload.retain_from packetmachine.Property.retain_value
    packetmachine.Property.retain_from packetmachine.Property.grow packetmachine.Property.modify
    packetmachine.Property.object packetmachine.Property.set_src_port
    packetmachine.Property.set_dst_port packetmachine.Property.push_event
    packetmachine.Property.Write.write packetmachine.Property.Write.set_value
    packetmachine.Property.Write.set_value_ptr packetmachine.Property.Write.cpy_value
    packetmachine.Property.Objects.new_object packetmachine.Property.Objects.clear_object
    packetmachine.Property.Objects.clear_as packetmachine.Value.set packetmachine.Value.set_ptr
    packetmachine.Value.cpy packetmachine.Value.ensure_room packetmachine.Value.construct
    packetmachine.Value.clear
decoded_sessions = refl
