-- ===== src/Tcp/Decode.antt =====
-- `decode_stream` and `decode` of TCP::Session in src/modules/tcp.cc.
use packetmachine.Base.{
  ℕ, zero, suc, ◌+◌, ◌*◌, ◌%◌, Bool, true, false, Option, none, some, List, [], ◌∷◌, if◌then◌else◌,
  length, le_bytes, Outcome, ok, fault, ◌>>=◌, Bytes,
}
use packetmachine.Value.{Ptr, big, little, outside}
use packetmachine.Property.{Property, BufferOps, push_event}
use packetmachine.Property.Objects.{ParamDef}
use packetmachine.Property.Write.{set_value_ptr, cpy_value}
use packetmachine.Tcp.Stream.{send, recv, to_rel_seq, in_window, u32}
use packetmachine.Tcp.SegMap.{find, store, erase, stored}
use packetmachine.Tcp.Session.{
  Side, other, Status, Timeval, Segment, Session, stream, set_stream, sender_of,
}
use packetmachine.Tcp.State.{trans_state}

-- The parameters and events of the module.
pub record Defs : Type 0 where
  pub p_src_port : ParamDef
  pub p_dst_port : ParamDef
  pub p_ssn_id : ParamDef
  pub p_hdr : ParamDef
  pub p_optdata : ParamDef
  pub p_segment : ParamDef
  pub p_data : ParamDef
  pub p_rtt_3wh : ParamDef
  pub p_tx_server : ParamDef
  pub p_tx_client : ParamDef
  pub ev_new : ℕ
  pub ev_estb : ℕ
  pub ev_close : ℕ

-- `tb::Buffer` of the cpp-toolbox library, with what a session does to the buffers that it makes.
pub record BufferMake (Buf : Type 0) : Type 0 where
  pub empty : Buf
  pub append : Buf → Bytes → Buf

-- The arguments of `decode_stream`, with the bytes behind `seg_ptr`.
pub record Arrival : Type 0 where
  pub flags : ℕ
  pub seq : ℕ
  pub ack : ℕ
  pub ptr : Ptr
  pub bytes : Bytes
  pub win_size : ℕ

abbrev pub is_established : Status → Bool
is_established Status.established = true
is_established _ = false

abbrev pub is_closed : Status → Bool
is_closed Status.closed = true
is_closed _ = false

module _ {Buf : Type 0} (tb : BufferOps Buf) (mk : BufferMake Buf) (m : Defs) (tv : Timeval)
    (sender : Side) where
  -- A segment that is not the next one is kept.
  unfoldable pub hold : Session Buf → Arrival → Session Buf
  hold s a =
      if in_window (stream s sender) a.seq
      then record s {
        seg_map =
            store s.seg_map (to_rel_seq (stream s sender) a.seq)
              (record { seq = a.seq; flags = a.flags; buf = mk.append mk.empty a.bytes });
      }
      else s

  -- `ts_rtt_` as microseconds, in 32 bits.
  abbrev pub rtt : Session Buf → ℕ
  rtt s = (s.ts_rtt.tv_sec * 1000000 + s.ts_rtt.tv_usec) % u32

  -- What follows `trans_state`: the events, and the round trip time of the handshake.
  unfoldable pub announce : Status → Session Buf → Property Buf → Outcome (Property Buf)
  announce new_state s p = do
    p1 ←
        if is_established new_state
        then cpy_value (push_event p m.ev_estb) m.p_rtt_3wh (le_bytes 4 (rtt s)) little
        else ok p
    ok (if is_closed new_state then push_event p1 m.ev_close else p1)

  -- The data of the segment, after what the buffer holds, if there is a buffer.
  unfoldable pub show_data :
      Option Buf → Arrival → Session Buf → Property Buf → Outcome (Property Buf × Session Buf)
  show_data none a s p = set_value_ptr p m.p_data a.ptr (length a.bytes) big >>= λ q. ok (q, s)
  show_data (some b) a s p =
      let b' = mk.append b a.bytes in
      set_value_ptr p m.p_data (outside (tb.contents b')) (length (tb.contents b')) big >>= λ q.
      ok (q, record s { buf = some b' })

  -- A segment that is the next one, up to the search for stored ones.
  unfoldable pub take_in :
      Arrival → Property Buf → Session Buf → Outcome (Property Buf × Session Buf)
  take_in a p s =
      let s1 = set_stream s (other sender) (recv (stream s (other sender)) a.ack a.win_size) in
      let (new_state, s2) = trans_state a.flags sender a.seq (length a.bytes) tv s1 in
      announce new_state s2 p >>= λ q. show_data s2.buf a s2 q

  -- `while (tgt)`, over the chain.
  unfoldable pub each {ℓ} :
      {S : Type ℓ} → (Segment Buf → S → Outcome S) → List (Segment Buf) → S → Outcome S
  each f [] x = ok x
  each f (tgt ∷ segs) x = f tgt x >>= λ y. each f segs y

  abbrev pub start_buf : Option Buf → Bytes → Buf
  start_buf none bytes = mk.append mk.empty bytes
  start_buf (some b) bytes = b

  -- The arguments of the call for a stored segment.
  abbrev pub again : Arrival → Segment Buf → Arrival
  again a tgt = record {
    flags = tgt.flags;
    seq = tgt.seq;
    ack = a.ack;
    ptr = outside (tb.contents tgt.buf);
    bytes = tb.contents tgt.buf;
    win_size = a.win_size;
  }

  -- The segments that are stored under the next sequence number, each by a call.
  unfoldable pub reassemble :
      (Segment Buf → Property Buf × Session Buf → Outcome (Property Buf × Session Buf))
      → Arrival
      → Option (List (Segment Buf))
      → Property Buf × Session Buf
      → Outcome (Property Buf × Session Buf)
  reassemble call a none y = ok y
  reassemble call a (some segs) y = each call segs (
    y.0,
    record y.1 {
      buf = some (start_buf y.1.buf a.bytes);
      seg_map = erase y.1.seg_map (stream y.1 sender).next_seq;
    },
  )

  -- On fuel for the depth of the calls. To run out of it is a fault, which Termination excludes.
  -- The result of `decode_stream` is left out: no caller reads it.
  unfoldable pub decode_stream :
      ℕ → Arrival → Property Buf × Session Buf → Outcome (Property Buf × Session Buf)
  decode_stream zero a (p, s) = fault
  decode_stream (suc fuel) a (p, s) =
      let sent = send (stream s sender) a.seq (length a.bytes) in
      let rest : Outcome (Property Buf × Session Buf) =
        take_in a p (set_stream s sender sent.1) >>= λ y.
        reassemble (λ tgt. decode_stream fuel (again a tgt)) a
          (find y.1.seg_map (stream y.1 sender).next_seq) y in
      if sent.0 then rest else ok (p, hold s a)

module _ {Buf : Type 0} (tb : BufferOps Buf) (mk : BufferMake Buf) (m : Defs) (tv : Timeval) where
  -- The last two values of `decode`: 32 bits of `tx_size_`.
  unfoldable pub report : Property Buf × Session Buf → Outcome (Property Buf × Session Buf)
  report (p, s) = do
    p1 ← cpy_value p m.p_tx_server (le_bytes 4 s.client.tx_size) little
    p2 ← cpy_value p1 m.p_tx_client (le_bytes 4 s.server.tx_size) little
    ok (p2, s)

  -- `decode` of a session, with fuel for one more call than segments are stored.
  unfoldable pub decode :
      Arrival → Property Buf → Session Buf → Outcome (Property Buf × Session Buf)
  decode a p s =
      decode_stream tb mk m tv (sender_of tb s p) (suc (stored s.seg_map)) a
        (p, record s { buf = none })
      >>= report
