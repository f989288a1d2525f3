-- ===== src/Modules/Tcp.antt =====
-- class TCP of src/modules/tcp.cc: the constructor, `setup` and `decode`, over the sessions of Tcp.
pub mod Safety
use Prim.Native.String.{String}
use Prim.Native.Nat.{bit_and, bit_or}
use packetmachine.Base.{
  ℕ, ◌+◌, ◌-◌, ◌*◌, ◌/◌, ◌%◌, Bool, true, false, Option, none, some, [], ltb, ◌==◌, if◌then◌else◌,
  Outcome, ok, fault, ◌>>=◌, Bytes, load, load_be16, load_be32, load_slice,
}
use packetmachine.Payload.{Payload, retain}
use packetmachine.Value.{Ptr, null, packet, big}
use packetmachine.Property.{Property, BufferOps, set_src_port, set_dst_port}
use packetmachine.Property.Objects.{Class, ParamDef}
use packetmachine.Property.Write.{set_value, set_value_ptr}
use packetmachine.Modules.Header.{Decoded}
use packetmachine.Tcp.Session.{Timeval}
use packetmachine.Tcp.State.{fin, syn, rst, ack}
use packetmachine.Tcp.Decode.{Defs, BufferMake, Arrival}
use packetmachine.Tcp.Key.{KeyOps}
use packetmachine.Tcp.Table.{TableOps, State, manage}

pub record Tcp : Type 0 where
  pub defs : Defs
  pub enable_ssn_mgmt : Bool
  pub ssn_timeout : ℕ

-- The constructor, over the calls that it makes of Module, and `setup`, with the values of the
-- configuration. The size of the table is an argument of its maker.
unfoldable pub set_up :
    (String → Class → ParamDef) → (String → ℕ) → (enable : Bool) (timeout : ℕ) → Tcp
set_up define_param define_event enable timeout = record {
  defs = record {
    p_src_port = define_param "src_port" Class.port_number;
    p_dst_port = define_param "dst_port" Class.port_number;
    p_ssn_id = define_param "id" Class.value;
    p_hdr = define_param "hdr" Class.storage;
    p_optdata = define_param "optdata" Class.value;
    p_segment = define_param "segment" Class.value;
    p_data = define_param "data" Class.value;
    p_rtt_3wh = define_param "rtt_3wh" Class.value;
    p_tx_server = define_param "tx_server" Class.value;
    p_tx_client = define_param "tx_client" Class.value;
    ev_new = define_event "new_session";
    ev_estb = define_event "established";
    ev_close = define_event "closed";
  };
  enable_ssn_mgmt = enable;
  ssn_timeout = timeout;
}

-- `offset - sizeof(tcp_header)` in 64 bits, where the offset is four times the upper half of the
-- byte.
unfoldable pub optlen_of : ℕ → ℕ
optlen_of offset = (bit_and offset 0xf0 / 4 + 18446744073709551616 - 20) % 18446744073709551616

-- `hdr->flags_ & (FIN | SYN | RST | ACK)`
unfoldable pub flags_of : ℕ → ℕ
flags_of flags = bit_and flags (bit_or (bit_or fin syn) (bit_or rst ack))

-- The bytes behind a pointer that may be null.
unfoldable pub bytes_at : Bytes → Ptr → ℕ → Outcome Bytes
bytes_at mem (packet off) len = load_slice mem off len
bytes_at mem _ len = if len == 0 then ok [] else fault

abbrev pub pointer : Option ℕ → Ptr
pointer none = null
pointer (some off) = packet off

module _ {T Key Buf : Type 0} (ops : TableOps T Key) (tb : BufferOps Buf) (k : KeyOps Key)
    (mk : BufferMake Buf) (m : Tcp) (mem : Bytes) (tv : Timeval) where
  -- The options, if `retain` finds them.
  unfoldable pub set_options :
      Property Buf → ℕ → Option ℕ × Payload → Outcome (Bool × Payload × Property Buf)
  set_options prop optlen (none, pd) = ok (false, pd, prop)
  set_options prop optlen (some opt, pd) =
      set_value prop m.defs.p_optdata opt optlen big >>= λ q. ok (true, pd, q)

  unfoldable pub set_properties :
      Property Buf → ℕ → Payload → Outcome (Bool × Payload × Property Buf)
  set_properties prop hdr pd = do
    sport ← load_be16 mem hdr
    dport ← load_be16 mem (hdr + 2)
    prop1 ← set_value (set_dst_port (set_src_port prop sport) dport) m.defs.p_src_port hdr 2 big
    prop2 ← set_value prop1 m.defs.p_dst_port (hdr + 2) 2 big
    prop3 ← set_value prop2 m.defs.p_hdr hdr 20 big
    offset ← load mem (hdr + 12)
    if ltb 0 (optlen_of offset)
        then retain pd (optlen_of offset) >>= set_options prop3 (optlen_of offset)
        else ok (true, pd, prop3)

  -- The rest of the packet, if there is any.
  unfoldable pub take_segment : Property Buf → Payload → Outcome (Ptr × Payload × Property Buf)
  take_segment prop pd =
      let rest : Outcome (Ptr × Payload × Property Buf) = (do
        r ← retain pd pd.length
        q ← set_value_ptr prop m.defs.p_segment (pointer r.0) pd.length big
        ok (pointer r.0, r.1, q)) in
      if ltb 0 pd.length then rest else ok (null, pd, prop)

  -- The branch for the sessions, with the fields of the header that they read.
  unfoldable pub manage_header :
      Property Buf → ℕ → Ptr → ℕ → State T Key Buf → Outcome (Property Buf × State T Key Buf)
  manage_header prop hdr seg_ptr seg_len st = do
    flags ← load mem (hdr + 13)
    seq ← load_be32 mem (hdr + 4)
    ack_number ← load_be32 mem (hdr + 8)
    win ← load_be16 mem (hdr + 14)
    bytes ← bytes_at mem seg_ptr seg_len
    manage ops tb k mk m.defs m.ssn_timeout tv
        (record {
          flags = flags_of flags;
          seq = seq;
          ack = ack_number;
          ptr = seg_ptr;
          bytes = bytes;
          win_size = win;
        })
        prop st

  -- The next module, which is always NONE, with what has changed.
  abbrev pub Out : Type 0
  Out = Option ℕ × Payload × Property Buf × State T Key Buf

  unfoldable pub decode_header : Property Buf → ℕ → Payload → State T Key Buf → Outcome Out
  decode_header prop hdr pd st = set_properties prop hdr pd >>= λ s.
      let rest : Outcome Out =
        (take_segment s.2 s.1 >>= λ g.
        (if m.enable_ssn_mgmt then manage_header g.2 hdr g.0 s.1.length st else ok (g.2, st))
        >>= λ r. ok (none, g.1, r.0, r.1)) in
      if s.0 then rest else ok (none, s.1, s.2, st)

  unfoldable pub decode : Payload → Property Buf → State T Key Buf → Outcome Out
  decode pd prop st = retain pd 20 >>= λ r. elim r.0 [
    | none ↦ ok (none, r.1, prop, st)
    | some hdr ↦ decode_header prop hdr r.1 st
  ]

  -- The same as the decoder calls it, with the sessions that there are; it reads no more of them.
  unfoldable pub decode_packet : State T Key Buf → Payload → Property Buf → Outcome (Decoded Buf)
  decode_packet st pd prop = decode pd prop st >>= λ r. ok (r.0, r.1, r.2)
