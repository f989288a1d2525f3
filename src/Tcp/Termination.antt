-- ===== src/Tcp/Termination.antt =====
-- `decode_stream` of src/modules/tcp.cc ends: each call inside of another has used up a segment.
use packetmachine.Base.{
  ℕ, zero, suc, ◌+◌, ◌-◌, ◌≤◌, ◌<◌, ◌≡◌, ◌∙◌, refl, sym, subst, true, false, none, some, List, [],
  ◌∷◌, inl, inr, arith, length, Outcome, ok, ◌>>=◌, Satisfies, Satisfies->>=, Satisfies-weaken,
  Bool-cases, Option, le_bytes, if◌then◌else◌, Bool,
}
use packetmachine.Value.{little, big, outside}
use packetmachine.Property.{Property, BufferOps, push_event}
use packetmachine.Property.Objects.{Class}
use packetmachine.Property.Pools.{Inv}
use packetmachine.Property.Write.{cpy_value, set_value_ptr-Inv, cpy_value-Inv}
use packetmachine.Modules.Contract.{IsParam, push_event-Inv}
use packetmachine.Tcp.Stream.{Stream, send, recv, in_window, to_rel_seq}
use packetmachine.Tcp.SegMap.{find, stored, stored-store, stored-erase}
use packetmachine.Tcp.Session.{
  Side, client, server, Status, Timeval, Segment, Session, stream, set_stream, other, sender_of,
}
use packetmachine.Tcp.State.{trans_from, trans_state}
use packetmachine.Tcp.Decode.{
  Defs, BufferMake, Arrival, hold, announce, is_established, is_closed, show_data, take_in, each,
  reassemble, again, decode_stream, report, decode, rtt,
}

-- The parameters of the module have the constructors of their ids.
pub record IsDefined (class : ℕ → Class) (m : Defs) : Type 0 where
  pub src_port_param : IsParam class m.p_src_port
  pub dst_port_param : IsParam class m.p_dst_port
  pub ssn_id_param : IsParam class m.p_ssn_id
  pub hdr_param : IsParam class m.p_hdr
  pub optdata_param : IsParam class m.p_optdata
  pub segment_param : IsParam class m.p_segment
  pub data_param : IsParam class m.p_data
  pub rtt_param : IsParam class m.p_rtt_3wh
  pub tx_server_param : IsParam class m.p_tx_server
  pub tx_client_param : IsParam class m.p_tx_client

module _ {Buf : Type 0} where
  pub set_stream-seg_map :
      (s : Session Buf) (side : Side) (t : Stream) → (set_stream s side t).seg_map ≡ s.seg_map
  set_stream-seg_map s client t = refl
  set_stream-seg_map s server t = refl

  trans_from-seg_map :
      (flags : ℕ) (sender : Side) (seq seg_len : ℕ) (tv : Timeval) (st : Status) (s : Session Buf)
      → (trans_from flags sender seq seg_len tv st s).1.seg_map ≡ s.seg_map
  unfolding trans_from
  trans_from-seg_map flags client seq seg_len tv st s = ground arith
  trans_from-seg_map flags server seq seg_len tv st s = ground arith

-- A well-formed property, and at most `n` stored segments.
abbrev pub Holds : {Buf : Type 0} → (ℕ → Class) → ℕ → Property Buf × Session Buf → Type 0
Holds class n (p, s) = Inv class p × (stored s.seg_map ≤ n)

module _ {Buf : Type 0} (class : ℕ → Class) (tb : BufferOps Buf) (mk : BufferMake Buf) (m : Defs)
    (w : IsDefined class m) (tv : Timeval) (sender : Side) where
  announce-Inv :
      (st : Status) (s : Session Buf) (p : Property Buf)
      → Inv class p
      → Satisfies (Inv class) (announce tb mk m tv sender st s p)
  unfolding announce
  announce-Inv st s p v =
      Satisfies->>= (Inv class) (Inv class) _ _ (first (is_established st))
        (λ q u. second (is_closed st) q u)
    where
      first :
          (b : Bool)
          → Satisfies (Inv class) (
              if b
              then cpy_value
                  (push_event p m.ev_estb)
                  m.p_rtt_3wh
                  (le_bytes 4 (rtt tb mk m tv sender s))
                  little
              else ok p)
      first true =
          cpy_value-Inv class (push_event p m.ev_estb) m.p_rtt_3wh
            (le_bytes 4 (rtt tb mk m tv sender s)) little (push_event-Inv p v m.ev_estb) w.rtt_param
      first false = v

      second :
          (b : Bool) (q : Property Buf)
          → Inv class q
          → Inv class (if b then push_event q m.ev_close else q)
      second true q u = push_event-Inv q u m.ev_close
      second false q u = u

  show_data-Holds :
      (n : ℕ) (b : Option Buf) (a : Arrival) (s : Session Buf) (p : Property Buf)
      → Holds class n (p, s)
      → Satisfies (Holds class n) (show_data tb mk m tv sender b a s p)
  unfolding show_data
  show_data-Holds n none a s p h =
      Satisfies->>= (Inv class) (Holds class n) _ _
        (set_value_ptr-Inv class p m.p_data a.ptr (length a.bytes) big h.0 w.data_param)
        (λ q v. (v, h.1))
  show_data-Holds n (some b) a s p h =
      Satisfies->>= (Inv class) (Holds class n) _ _
        (set_value_ptr-Inv class p m.p_data (outside (tb.contents (mk.append b a.bytes)))
          (length (tb.contents (mk.append b a.bytes))) big h.0 w.data_param)
        (λ q v. (v, h.1))

  take_in-Holds :
      (n : ℕ) (a : Arrival) (p : Property Buf) (s : Session Buf)
      → Holds class n (p, s)
      → Satisfies (Holds class n) (take_in tb mk m tv sender a p s)
  unfolding take_in trans_state
  take_in-Holds n a p s h =
      Satisfies->>= (Inv class) (Holds class n) _ _ (announce-Inv out.0 out.1 p h.0) (λ q v.
        show_data-Holds n out.1.buf a out.1 q (v, subst (λ map. stored map ≤ n) (sym same) h.1))
    where
      s1 : Session Buf
      s1 = set_stream s (other sender) (recv (stream s (other sender)) a.ack a.win_size)

      out : Status × Session Buf
      out = trans_from a.flags sender a.seq (length a.bytes) tv s1.status s1

      same : out.1.seg_map ≡ s.seg_map
      same =
          trans_from-seg_map a.flags sender a.seq (length a.bytes) tv s1.status s1
          ∙ set_stream-seg_map s (other sender) (recv (stream s (other sender)) a.ack a.win_size)

  -- The loop over a chain, where each call may store one segment.
  each-Holds :
      (fuel : ℕ)
      (f : Segment Buf → Property Buf × Session Buf → Outcome (Property Buf × Session Buf))
      → ((tgt : Segment Buf) (n : ℕ) (x : Property Buf × Session Buf)
          → n < fuel
          → Holds class n x
          → Satisfies (Holds class (n + 1)) (f tgt x))
      → (segs : List (Segment Buf)) (n : ℕ) (x : Property Buf × Session Buf)
      → n + length segs ≤ fuel
      → Holds class n x
      → Satisfies (Holds class (n + length segs)) (each tb mk m tv sender f segs x)
  unfolding each
  each-Holds fuel f k [] n x le h = (h.0, omega (arith, h.1))
  each-Holds fuel f k (tgt ∷ segs) n x le h =
      subst (λ j. Satisfies (Holds class j) (f tgt x >>= λ y. each tb mk m tv sender f segs y))
        (omega arith)
        (Satisfies->>= (Holds class (n + 1)) (Holds class (n + 1 + length segs)) (f tgt x) _
          (k tgt n x (omega (arith, le)) h)
          (λ y v. each-Holds fuel f k segs (n + 1) y (omega (arith, le)) v))

  reassemble-Holds :
      (fuel n : ℕ)
      (call : Segment Buf → Property Buf × Session Buf → Outcome (Property Buf × Session Buf))
      (a : Arrival)
      → n ≤ fuel
      → ((tgt : Segment Buf) (n : ℕ) (x : Property Buf × Session Buf)
          → n < fuel
          → Holds class n x
          → Satisfies (Holds class (n + 1)) (call tgt x))
      → (r : Option (List (Segment Buf))) (y : Property Buf × Session Buf)
      → find y.1.seg_map (stream y.1 sender).next_seq ≡ r
      → Holds class n y
      → Satisfies (Holds class n) (reassemble tb mk m tv sender call a r y)
  unfolding reassemble
  reassemble-Holds fuel n call a le k none y e h = h
  reassemble-Holds fuel n call a le k (some segs) y e h =
      let fits = stored-erase y.1.seg_map (stream y.1 sender).next_seq segs e in
      Satisfies-weaken (Holds class (n - length segs + length segs)) (Holds class n) _
        (λ x v. (v.0, omega (arith, v.1, fits, h.1)))
        (each-Holds fuel call k segs (n - length segs) _ (omega (arith, fits, h.1, le))
          (h.0, omega (arith, fits, h.1)))

  hold-stored :
      (n : ℕ) (a : Arrival) (s : Session Buf)
      → stored s.seg_map ≤ n
      → stored (hold tb mk m tv sender s a).seg_map ≤ n + 1
  unfolding hold in_window
  hold-stored n a s h = omega (
    arith,
    h,
    stored-store s.seg_map (to_rel_seq (stream s sender) a.seq)
        (record { seq = a.seq; flags = a.flags; buf = mk.append mk.empty a.bytes }),
  )

  -- With more fuel than segments are stored, the call ends: it neither faults nor throws. It
  -- stores one segment at most.
  pub decode_stream-Holds :
      (fuel n : ℕ) (a : Arrival) (p : Property Buf) (s : Session Buf)
      → n < fuel
      → Holds class n (p, s)
      → Satisfies (Holds class (n + 1)) (decode_stream tb mk m tv sender fuel a (p, s))
  unfolding decode_stream
  decode_stream-Holds zero n a p s lt h = absurd (omega arith)
  decode_stream-Holds (suc fuel) n a p s lt h = elim (Bool-cases sent.0) [
    | inl e ↦ rw e (
        Satisfies->>= (Holds class n) (Holds class (n + 1)) _ _
          (take_in-Holds n a p (set_stream s sender sent.1) (h.0, kept))
          (λ y v. more _ (
            reassemble-Holds fuel n
              (λ tgt. decode_stream tb mk m tv sender fuel (again tb mk m tv sender a tgt)) a
              (omega arith)
              (λ tgt k x. decode_stream-Holds fuel k (again tb mk m tv sender a tgt) x.0 x.1)
              (find y.1.seg_map (stream y.1 sender).next_seq) y refl v)))
    | inr e ↦ rw e (h.0, held)
  ]
    where
      sent : Bool × Stream
      sent = send (stream s sender) a.seq (length a.bytes)

      kept : stored (set_stream s sender sent.1).seg_map ≤ n
      kept = rw (set_stream-seg_map s sender sent.1) h.1

      held : stored (hold tb mk m tv sender s a).seg_map ≤ n + 1
      held = hold-stored n a s h.1

      more :
          (r : Outcome (Property Buf × Session Buf))
          → Satisfies (Holds class n) r
          → Satisfies (Holds class (n + 1)) r
      more r g =
          Satisfies-weaken (Holds class n) (Holds class (n + 1)) r
            (λ x v. (v.0, omega (arith, v.1))) g

module _ {Buf : Type 0} (class : ℕ → Class) (tb : BufferOps Buf) (mk : BufferMake Buf) (m : Defs)
    (w : IsDefined class m) (tv : Timeval) where
  -- The last two values leave the session as it is.
  pub report-Keeps :
      (p : Property Buf) (s : Session Buf)
      → Inv class p
      → Satisfies (λ y. Inv class y.0 × (y.1 ≡ s)) (report tb mk m tv (p, s))
  unfolding report
  report-Keeps p s v =
      Satisfies->>= (Inv class) (λ y. Inv class y.0 × (y.1 ≡ s)) _ _
        (cpy_value-Inv class p m.p_tx_server (le_bytes 4 s.client.tx_size) little v
          w.tx_server_param)
        (λ p1 v1.
          Satisfies->>= (Inv class) (λ y. Inv class y.0 × (y.1 ≡ s)) _ _
            (cpy_value-Inv class p1 m.p_tx_client (le_bytes 4 s.server.tx_size) little v1
              w.tx_client_param)
            (λ p2 v2. (v2, refl)))

  -- Whatever the segment and the state of the session, the decoding of the segment by the session
  -- ends with a result: nothing is thrown, no null pointer is dereferenced, the calls inside of
  -- `decode_stream` come to an end, the property stays well formed, and at most one segment more
  -- than before is stored. This where the parameters have the constructors of their ids.
  pub decode-Holds :
      (a : Arrival) (p : Property Buf) (s : Session Buf)
      → Inv class p
      → Satisfies (Holds class (stored s.seg_map + 1)) (decode tb mk m tv a p s)
  unfolding decode
  decode-Holds a p s v =
      Satisfies->>= (Holds class (stored s.seg_map + 1)) (Holds class (stored s.seg_map + 1)) _ _
        (decode_stream-Holds class tb mk m w tv (sender_of tb s p) (suc (stored s.seg_map))
          (stored s.seg_map) a p (record s { buf = none }) (omega arith) (v, omega arith))
        (λ x h.
          Satisfies-weaken _ (Holds class (stored s.seg_map + 1)) _
            (λ y k. (k.0, subst (λ r. stored r.seg_map ≤ stored s.seg_map + 1) (sym k.1) h.1))
            (report-Keeps x.0 x.1 h.0))
