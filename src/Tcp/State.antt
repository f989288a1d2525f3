-- ===== src/Tcp/State.antt =====
-- `trans_state` of TCP::Session in src/modules/tcp.cc.
use Prim.Native.Nat.{bit_and, bit_or}
use packetmachine.Base.{
  ℕ, ◌+◌, ◌-◌, ◌%◌, Bool, true, false, ◌&&◌, Option, some, ◌==◌, ltb, leb, if◌then◌else◌,
}
use packetmachine.Tcp.Stream.{set_base_seq, inc_seq}
use packetmachine.Tcp.Session.{
  Side, client, server, is_client, is_server, Status, syn_sent, synack_sent, established, closing,
  closed, Timeval, Session, stream, set_stream,
}

abbrev pub fin : ℕ
fin = 0x01

abbrev pub syn : ℕ
syn = 0x02

abbrev pub rst : ℕ
rst = 0x04

abbrev pub ack : ℕ
ack = 0x10

-- `(flags & FIN) > 0`
unfoldable pub has_fin : ℕ → Bool
has_fin flags = ltb 0 (bit_and flags fin)

-- `timersub(a, b, r)`, in seconds modulo 2^64: it borrows a second where the microseconds need it.
unfoldable pub timersub : Timeval → Timeval → Timeval
timersub a b =
    if leb b.tv_usec a.tv_usec
    then record {
      tv_sec = (a.tv_sec + 18446744073709551616 - b.tv_sec) % 18446744073709551616;
      tv_usec = a.tv_usec - b.tv_usec;
    }
    else record {
      tv_sec = (a.tv_sec + 18446744073709551616 - b.tv_sec - 1) % 18446744073709551616;
      tv_usec = a.tv_usec + 1000000 - b.tv_usec;
    }

-- `this->closing_ != sender`
abbrev pub other_side : Option Side → Side → Bool
other_side (some client) client = false
other_side (some server) server = false
other_side _ _ = true

module _ {Buf : Type 0} (flags : ℕ) (sender : Side) (seq seg_len : ℕ) (tv : Timeval) where
  -- The switch over the status. The result is NONE where the status does not change.
  unfoldable pub trans_from : Status → Session Buf → Status × Session Buf
  unfolding set_base_seq inc_seq timersub
  trans_from Status.none s =
      if flags == syn && is_client sender
      then (
        syn_sent,
        set_stream (record s { status = syn_sent; ts_init = tv }) sender
            (set_base_seq (stream s sender) seq seg_len),
      )
      else (Status.none, s)
  trans_from syn_sent s =
      if flags == bit_or syn ack && is_server sender
      then (
        synack_sent,
        set_stream (record s { status = synack_sent }) sender
            (set_base_seq (stream s sender) seq seg_len),
      )
      else (Status.none, s)
  trans_from synack_sent s =
      if flags == ack && is_client sender
      then (
        established,
        record s { status = established; ts_estb = tv; ts_rtt = timersub tv s.ts_init },
      )
      else (Status.none, s)
  trans_from established s =
      if has_fin flags
      then (
        closing,
        set_stream (record s { status = closing; closing_side = some sender }) sender
            (inc_seq (stream s sender)),
      )
      else (Status.none, s)
  trans_from closing s =
      if has_fin flags && other_side s.closing_side sender
      then (closed, set_stream (record s { status = closed }) sender (inc_seq (stream s sender)))
      else (Status.none, s)
  trans_from closed s = (Status.none, s)

  unfoldable pub trans_state : Session Buf → Status × Session Buf
  unfolding trans_from
  trans_state s = trans_from s.status s
