-- ===== src/Tcp/Session.antt =====
-- TCP::Session of src/modules/tcp.cc: its state. A `Stream*` is the side of the session.
use packetmachine.Base.{ℕ, Bool, true, false, Option, List, [], if◌then◌else◌}
use packetmachine.Tcp.Stream.{Stream, construct, match_addr}
use packetmachine.Property.{Property, BufferOps}

pub data Side : Type 0 where
  client server : Side

pub data Status : Type 0 where
  none syn_sent synack_sent established closing closed : Status

-- `struct timeval`, its seconds a 64 bit word.
pub record Timeval : Type 0 where
  pub tv_sec : ℕ
  pub tv_usec : ℕ

-- A segment is a buffer, and the chain of those that `append` ties to it is a list.
pub record Segment (Buf : Type 0) : Type 0 where
  pub seq : ℕ
  pub flags : ℕ
  pub buf : Buf

-- `seg_map` is in no order: it is only searched by key.
pub record Session (Buf : Type 0) : Type 0 where
  pub client : Stream
  pub server : Stream
  pub closing_side : Option Side
  pub id : ℕ
  pub status : Status
  pub ts_init : Timeval
  pub ts_estb : Timeval
  pub ts_rtt : Timeval
  pub buf : Option Buf
  pub seg_map : List (ℕ × List (Segment Buf))

-- The times are set before they are read.
abbrev no_time : Timeval
no_time = record { tv_sec = 0; tv_usec = 0 }

abbrev pub other : Side → Side
other client = server
other server = client

abbrev pub is_client : Side → Bool
is_client client = true
is_client server = false

abbrev pub is_server : Side → Bool
is_server client = false
is_server server = true

module _ {Buf : Type 0} where
  unfoldable pub construct_session : BufferOps Buf → Property Buf → ℕ → Session Buf
  unfolding construct
  construct_session tb p ssn_id = record {
    client = construct (tb.contents p.src_addr) p.src_port;
    server = construct (tb.contents p.dst_addr) p.dst_port;
    closing_side = Option.none;
    id = ssn_id;
    status = Status.none;
    ts_init = no_time;
    ts_estb = no_time;
    ts_rtt = no_time;
    buf = Option.none;
    seg_map = [];
  }

  abbrev pub stream : Session Buf → Side → Stream
  stream s client = s.client
  stream s server = s.server

  abbrev pub set_stream : Session Buf → Side → Stream → Session Buf
  set_stream s client t = record s { client = t }
  set_stream s server t = record s { server = t }

  -- `is_src` of the client's stream chooses the sender.
  unfoldable pub sender_of : BufferOps Buf → Session Buf → Property Buf → Side
  unfolding match_addr
  sender_of tb s p =
      if match_addr s.client (tb.contents p.src_addr) p.src_port then client else server
