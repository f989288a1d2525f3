-- ===== src/Modules/Tcp/Safety.antt =====
-- `decode` of class TCP in src/modules/tcp.cc: it stays inside the packet, and uses only sessions
-- that live.
use Prim.Native.String.{String}
use mathlib.Core.Option.{some-injective}
use packetmachine.Base.{
  ℕ, ◌+◌, ◌≤◌, ◌≡◌, refl, Bool, true, false, Option, none, some, arith, ltb, if◌then◌else◌, length,
  ok, ◌>>=◌, Bytes, load_lem, Satisfies, Satisfies->>=, Satisfies-weaken, Bool-cases, inl, inr,
  get_or,
}
use packetmachine.Payload.{Payload, retain}
use packetmachine.Payload.Bounds.{Retains}
use packetmachine.Value.{Ptr}
use packetmachine.Property.{Property, BufferOps, set_src_port, set_dst_port}
use packetmachine.Property.Objects.{Class, ParamDef}
use packetmachine.Property.Pools.{Inv}
use packetmachine.Property.Write.{set_value, set_value_ptr}
use packetmachine.Modules.Addresses.{write-Good}
use packetmachine.Modules.Contract.{
  IsReady, IsParam, IsGood, be16_at, load_be16_lem, load_slice_lem, retain-IsHeader, retain-IsReady,
  IsHeader, set_src_port-Inv, set_dst_port-Inv,
}
use packetmachine.Tcp.Session.{Timeval}
use packetmachine.Tcp.Decode.{BufferMake}
use packetmachine.Tcp.Key.{KeyOps}
use packetmachine.Tcp.Table.{TableOps, State}
use packetmachine.Tcp.Termination.{IsDefined}
use packetmachine.Tcp.Expiry.{IsTable, IsSafe}
use packetmachine.Tcp.Lifetime.{manage-IsSafe}
use packetmachine.Modules.Tcp.{
  Tcp, optlen_of, bytes_at, pointer, set_options, set_properties, take_segment, manage_header,
  decode_header, decode, Out, decode_packet, set_up,
}

retain_all :
    (size : ℕ) (pd : Payload)
    → IsReady size pd
    → Satisfies
        (λ r. ((p : ℕ) × (r.0 ≡ some p) × (p + pd.length ≤ size)) × IsReady size r.1)
        (retain pd pd.length)
retain_all size pd r =
    Satisfies-weaken (λ q. Retains size pd pd.length q × IsReady size q.1) _ (retain pd pd.length)
      (λ q h. (found q h.0, h.1)) (retain-IsReady size pd.length pd r)
  where
    found :
        (q : Option ℕ × Payload)
        → Retains size pd pd.length q
        → (p : ℕ) × (q.0 ≡ some p) × (p + pd.length ≤ size)
    found (none, q) h = absurd (omega (arith, h.0))
    found (some p, q) h = (p, refl, h.2)

module _ {T Key Buf : Type 0} (ops : TableOps T Key) (LeadsTo : T → ℕ → Type 0)
    (laws : IsTable ops LeadsTo) (class : ℕ → Class) (tb : BufferOps Buf) (k : KeyOps Key)
    (mk : BufferMake Buf) (m : Tcp) (w : IsDefined class m.defs) (mem : Bytes) (tv : Timeval) where
  -- A well-formed property whose addresses have one length.
  abbrev Good : Property Buf → Type 0
  Good p = Inv class p × (length (tb.contents p.src_addr) ≡ length (tb.contents p.dst_addr))

  -- After the header: the cursor in the packet, and a good property.
  abbrev IsPrepared : Bool × Payload × Property Buf → Type 0
  IsPrepared (good, pd, p) = IsReady (length mem) pd × Good p

  set_options-IsPrepared :
      (prop : Property Buf) (n : ℕ) (r : Option ℕ × Payload)
      → Good prop
      → IsHeader (length mem) n r
      → Satisfies IsPrepared (set_options ops tb k mk m mem tv prop n r)
  unfolding set_options set_value
  set_options-IsPrepared prop n (none, pd) g h = (h, g)
  set_options-IsPrepared prop n (some opt, pd) g h =
      Satisfies->>= Good IsPrepared _ _
        (write-Good tb class _ prop m.defs.p_optdata (λ o. refl) g w.optdata_param)
        (λ q u. (h.1, u))

  set_properties-IsPrepared :
      (prop : Property Buf) (hdr : ℕ) (pd : Payload)
      → hdr + 20 ≤ length mem
      → IsReady (length mem) pd
      → Good prop
      → Satisfies IsPrepared (set_properties ops tb k mk m mem tv prop hdr pd)
  unfolding set_properties set_value set_src_port set_dst_port
  set_properties-IsPrepared prop hdr pd h r g =
      rw
        (
          load_be16_lem mem hdr (omega arith),
          load_be16_lem mem (hdr + 2) (omega arith),
          load_lem mem (hdr + 12) (omega arith),
        )
        (Satisfies->>= Good IsPrepared _ _
          (write-Good tb class _ _ m.defs.p_src_port (λ o. refl)
            (
              set_dst_port-Inv _ (set_src_port-Inv prop g.0 (be16_at mem hdr))
                  (be16_at mem (hdr + 2)),
              g.1,
            )
            w.src_port_param)
          (λ p1 v1.
            Satisfies->>= Good IsPrepared _ _
              (write-Good tb class _ p1 m.defs.p_dst_port (λ o. refl) v1 w.dst_port_param)
              (λ p2 v2.
                Satisfies->>= Good IsPrepared _ _
                  (write-Good tb class _ p2 m.defs.p_hdr (λ o. refl) v2 w.hdr_param)
                  (λ p3 v3.
                    options p3 v3 (optlen_of (get_or mem (hdr + 12) 0))
                      (ltb 0 (optlen_of (get_or mem (hdr + 12) 0)))))))
    where
      options :
          (p : Property Buf)
          → Good p
          → (n : ℕ) (b : Bool)
          → Satisfies IsPrepared
              (if b then retain pd n >>= set_options ops tb k mk m mem tv p n else ok (true, pd, p))
      options p u n false = (r, u)
      options p u n true =
          Satisfies->>= (IsHeader (length mem) n) IsPrepared (retain pd n) _
            (retain-IsHeader (length mem) n pd r) (λ q h. set_options-IsPrepared p n q u h)

  -- A pointer with as many bytes behind it, or null where there are none.
  abbrev IsSegment : ℕ → Ptr × Payload × Property Buf → Type 0
  IsSegment len (ptr, pd, p) =
      Satisfies (λ bytes. Unit {0}) (bytes_at mem ptr len) × IsReady (length mem) pd × Good p

  take_segment-IsSegment :
      (prop : Property Buf) (pd : Payload)
      → IsReady (length mem) pd
      → Good prop
      → Satisfies (IsSegment pd.length) (take_segment ops tb k mk m mem tv prop pd)
  unfolding take_segment set_value_ptr bytes_at
  take_segment-IsSegment prop pd r g = elim (Bool-cases (ltb 0 pd.length)) [
    | inl e ↦ rw e (
        Satisfies->>= _ (IsSegment pd.length) (retain pd pd.length) _ (retain_all (length mem) pd r)
          (λ q h.
            Satisfies->>= Good (IsSegment pd.length) _ _
              (write-Good tb class _ prop m.defs.p_segment (λ o. refl) g w.segment_param)
              (λ p1 v1. (readable q.0 h.0, h.1, v1))))
    | inr e ↦ rw e (ground (arith, e), r, g)
  ]
    where
      readable :
          (o : Option ℕ)
          → ((x : ℕ) × (o ≡ some x) × (x + pd.length ≤ length mem))
          → Satisfies (λ bytes. Unit {0}) (bytes_at mem (pointer o) pd.length)
      readable none h = cc (h.1)
      readable (some x) h =
          rw (load_slice_lem mem x pd.length (omega (arith, h.2, some-injective x h.0 h.1))) tt

  -- The property and the sessions after the header.
  abbrev IsManaged : Property Buf × State T Key Buf → Type 0
  IsManaged (p, st) = Inv class p × IsSafe ops LeadsTo st

  manage_header-IsManaged :
      (prop : Property Buf) (hdr : ℕ) (seg_ptr : Ptr) (seg_len : ℕ) (st : State T Key Buf)
      → hdr + 20 ≤ length mem
      → Satisfies (λ bytes. Unit {0}) (bytes_at mem seg_ptr seg_len)
      → Good prop
      → IsSafe ops LeadsTo st
      → Satisfies IsManaged (manage_header ops tb k mk m mem tv prop hdr seg_ptr seg_len st)
  unfolding manage_header
  manage_header-IsManaged prop hdr seg_ptr seg_len st h readable g safe =
      rw
        (
          load_lem mem (hdr + 13) (omega arith),
          load_be16_lem mem (hdr + 4) (omega arith),
          load_be16_lem mem (hdr + 4 + 2) (omega arith),
          load_be16_lem mem (hdr + 8) (omega arith),
          load_be16_lem mem (hdr + 8 + 2) (omega arith),
          load_be16_lem mem (hdr + 14) (omega arith),
        )
        (Satisfies->>= (λ bytes. Unit {0}) IsManaged (bytes_at mem seg_ptr seg_len) _ readable
          (λ bytes u.
            Satisfies-weaken _ IsManaged _ (λ x q. (q.0, q.1))
              (manage-IsSafe ops LeadsTo laws class tb k mk m.defs w tv m.ssn_timeout _ prop st g.0
                g.1 safe)))

  -- The whole result: a good one, with sessions that live.
  abbrev pub IsDecoded : (Option ℕ → Type 0) → Out ops tb k mk m mem tv → Type 0
  IsDecoded Next (next, pd, p, st) =
      IsGood class (length mem) Next (next, pd, p) × IsSafe ops LeadsTo st

  decode_header-IsDecoded :
      (Next : Option ℕ → Type 0) (prop : Property Buf) (hdr : ℕ) (pd : Payload)
      (st : State T Key Buf)
      → Next none
      → hdr + 20 ≤ length mem
      → IsReady (length mem) pd
      → Good prop
      → IsSafe ops LeadsTo st
      → Satisfies (IsDecoded Next) (decode_header ops tb k mk m mem tv prop hdr pd st)
  unfolding decode_header
  decode_header-IsDecoded Next prop hdr pd st stop h r g safe =
      Satisfies->>= IsPrepared (IsDecoded Next) _ _ (set_properties-IsPrepared prop hdr pd h r g)
        (λ s k1. elim (Bool-cases s.0) [
          | inl e ↦ rw e (
              Satisfies->>= (IsSegment s.1.length) (IsDecoded Next) _ _
                (take_segment-IsSegment s.2 s.1 k1.0 k1.1)
                (λ u k2.
                  Satisfies->>= IsManaged (IsDecoded Next) _ _
                    (by_setting u.2 u.0 s.1.length k2.0 k2.2 m.enable_ssn_mgmt)
                    (λ x k3. (record { next = stop; ready = k2.1; inv = k3.0 }, k3.1))))
          | inr e ↦ rw e (record { next = stop; ready = k1.0; inv = k1.1.0 }, safe)
        ])
    where
      by_setting :
          (p : Property Buf) (ptr : Ptr) (len : ℕ)
          → Satisfies (λ bytes. Unit {0}) (bytes_at mem ptr len)
          → Good p
          → (b : Bool)
          → Satisfies IsManaged
              (if b then manage_header ops tb k mk m mem tv p hdr ptr len st else ok (p, st))
      by_setting p ptr len readable u true =
          manage_header-IsManaged p hdr ptr len st h readable u safe
      by_setting p ptr len readable u false = (u.0, safe)

  -- Over every packet the module for TCP ends with NONE as the next module: it reads nothing
  -- outside of the packet, dereferences no null pointer and no session that was deleted, and leaves
  -- the cursor inside the packet, the property well formed and every session that the table leads
  -- to alive. This where the table leads only to what it led to before and what was put in, the
  -- addresses of the packet have one length, and the parameters have the constructors of their ids.
  pub decode-IsDecoded :
      (Next : Option ℕ → Type 0) (pd : Payload) (prop : Property Buf) (st : State T Key Buf)
      → Next none
      → IsReady (length mem) pd
      → Inv class prop
      → length (tb.contents prop.src_addr) ≡ length (tb.contents prop.dst_addr)
      → IsSafe ops LeadsTo st
      → Satisfies (IsDecoded Next) (decode ops tb k mk m mem tv pd prop st)
  unfolding decode
  decode-IsDecoded Next pd prop st stop r v same safe =
      Satisfies->>= (IsHeader (length mem) 20) (IsDecoded Next) (retain pd 20) _
        (retain-IsHeader (length mem) 20 pd r) (λ q h. by_header q h)
    where
      by_header :
          (q : Option ℕ × Payload)
          → IsHeader (length mem) 20 q
          → Satisfies (IsDecoded Next) (elim q.0 [
            | none ↦ ok (none, q.1, prop, st)
            | some hdr ↦ decode_header ops tb k mk m mem tv prop hdr q.1 st
          ])
      by_header (none, q) h = (record { next = stop; ready = h; inv = v }, safe)
      by_header (some hdr, q) h =
          decode_header-IsDecoded Next prop hdr q st stop h.0 h.1 (v, same) safe

  pub decode_packet-IsGood :
      (Next : Option ℕ → Type 0) (pd : Payload) (prop : Property Buf) (st : State T Key Buf)
      → Next none
      → IsReady (length mem) pd
      → Inv class prop
      → length (tb.contents prop.src_addr) ≡ length (tb.contents prop.dst_addr)
      → IsSafe ops LeadsTo st
      → Satisfies (IsGood class (length mem) Next) (decode_packet ops tb k mk m mem tv st pd prop)
  unfolding decode_packet
  decode_packet-IsGood Next pd prop st stop r v same safe =
      Satisfies->>= (IsDecoded Next) (IsGood class (length mem) Next) _ _
        (decode-IsDecoded Next pd prop st stop r v same safe) (λ out h. h.0)

-- Where `define_param` gives parameters of the class asked for.
pub set_up-IsDefined :
    (class : ℕ → Class) (define_param : String → Class → ParamDef) (define_event : String → ℕ)
    (enable : Bool) (timeout : ℕ)
    → ((name : String) (c : Class) → IsParam class (define_param name c))
    → IsDefined class (set_up define_param define_event enable timeout).defs
unfolding set_up
set_up-IsDefined class define_param define_event enable timeout c = record {
  src_port_param = c "src_port" Class.port_number;
  dst_port_param = c "dst_port" Class.port_number;
  ssn_id_param = c "id" Class.value;
  hdr_param = c "hdr" Class.storage;
  optdata_param = c "optdata" Class.value;
  segment_param = c "segment" Class.value;
  data_param = c "data" Class.value;
  rtt_param = c "rtt_3wh" Class.value;
  tx_server_param = c "tx_server" Class.value;
  tx_client_param = c "tx_client" Class.value;
}
