-- ===== src/Modules/Arp.antt =====
-- class ARP of src/modules/arp.cc.
use Prim.Native.String.{String}
use packetmachine.Base.{
  ℕ, ◌+◌, inl, inr, Bool-cases, Option, none, arith, length, ◌==◌, if◌then◌else◌, Outcome, ok,
  ◌>>=◌, Bytes, load, load_lem, load_be16, Satisfies,
}
use packetmachine.Payload.{Payload}
use packetmachine.Value.{big}
use packetmachine.Property.{Property, push_event}
use packetmachine.Property.Objects.{Class, ParamDef}
use packetmachine.Property.Pools.{Inv}
use packetmachine.Property.Write.{set_value}
use packetmachine.Modules.Header.{Decoded, retain_or_stop}
use packetmachine.Modules.Contract.{
  IsReady, IsParam, IsGood, be16_at, load_be16_lem, retain_or_stop-IsGood, set_value_then,
  push_event-Inv,
}

pub record Arp : Type 0 where
  pub p_hw_type : ParamDef
  pub p_pr_type : ParamDef
  pub p_hw_size : ParamDef
  pub p_pr_size : ParamDef
  pub p_op : ParamDef
  pub p_hw_src : ParamDef
  pub p_hw_dst : ParamDef
  pub p_pr_src : ParamDef
  pub p_pr_dst : ParamDef
  pub ev_request : ℕ
  pub ev_reply : ℕ

-- The constructor and `setup`, over the calls that they make of Module.
unfoldable pub set_up : (String → Class → ParamDef) → (String → ℕ) → Arp
set_up define_param define_event = record {
  p_hw_type = define_param "hw_type" Class.value;
  p_pr_type = define_param "pr_type" Class.value;
  p_hw_size = define_param "hw_size" Class.value;
  p_pr_size = define_param "pr_size" Class.value;
  p_op = define_param "op" Class.value;
  p_hw_src = define_param "hw_src" Class.value;
  p_hw_dst = define_param "hw_dst" Class.value;
  p_pr_src = define_param "pr_src" Class.value;
  p_pr_dst = define_param "pr_dst" Class.value;
  ev_request = define_event "request";
  ev_reply = define_event "reply";
}

-- The events for an operation, ARPOP_REQUEST and ARPOP_REPLY.
unfoldable pub push_op : {Buf : Type 0} → Arp → Property Buf → ℕ → Property Buf
push_op m prop op =
    if op == 1
    then push_event prop m.ev_request
    else if op == 2
    then push_event prop m.ev_reply
    else prop

-- SET_ADDR: the module stops where the address is not there.
unfoldable pub set_addr :
    {Buf : Type 0}
    → Payload
    → Property Buf
    → ParamDef
    → ℕ
    → (Payload → Property Buf → Outcome (Decoded Buf))
    → Outcome (Decoded Buf)
set_addr pd prop def len rest =
    retain_or_stop pd prop len (λ ptr pd'. set_value prop def ptr len big >>= rest pd')

module _ {Buf : Type 0} (m : Arp) (mem : Bytes) where
  -- The four addresses behind the header.
  unfoldable pub decode_addrs : ℕ → ℕ → Payload → Property Buf → Outcome (Decoded Buf)
  unfolding set_addr
  decode_addrs hw_len pr_len pd prop = set_addr pd prop m.p_hw_src hw_len (λ pd1 prop1.
      set_addr pd1 prop1 m.p_pr_src pr_len (λ pd2 prop2.
        set_addr pd2 prop2 m.p_hw_dst hw_len
          (λ pd3 prop3. set_addr pd3 prop3 m.p_pr_dst pr_len (λ pd4 prop4. ok (none, pd4, prop4)))))

  -- The fields stand at 0, 2, 4, 5 and 6 in the header.
  unfoldable pub decode_header : Property Buf → ℕ → Payload → Outcome (Decoded Buf)
  unfolding decode_addrs push_op
  decode_header prop hdr pd = do
    prop1 ← set_value prop m.p_hw_type hdr 2 big
    prop2 ← set_value prop1 m.p_pr_type (hdr + 2) 2 big
    prop3 ← set_value prop2 m.p_hw_size (hdr + 4) 1 big
    prop4 ← set_value prop3 m.p_pr_size (hdr + 5) 1 big
    prop5 ← set_value prop4 m.p_op (hdr + 6) 2 big
    hw_len ← load mem (hdr + 4)
    pr_len ← load mem (hdr + 5)
    op ← load_be16 mem (hdr + 6)
    decode_addrs hw_len pr_len pd (push_op m prop5 op)

  unfoldable pub decode : Payload → Property Buf → Outcome (Decoded Buf)
  decode pd prop = retain_or_stop pd prop 8 (decode_header prop)

-- The parameters are those of the constructor, and each module it leads to is permitted.
pub record IsSetUp (class : ℕ → Class) (Next : Option ℕ → Type 0) (m : Arp) : Type 0 where
  pub hw_type_param : IsParam class m.p_hw_type
  pub pr_type_param : IsParam class m.p_pr_type
  pub hw_size_param : IsParam class m.p_hw_size
  pub pr_size_param : IsParam class m.p_pr_size
  pub op_param : IsParam class m.p_op
  pub hw_src_param : IsParam class m.p_hw_src
  pub hw_dst_param : IsParam class m.p_hw_dst
  pub pr_src_param : IsParam class m.p_pr_src
  pub pr_dst_param : IsParam class m.p_pr_dst
  pub stop : Next none

-- Where `define_param` gives parameters of the class asked for.
pub set_up-IsSetUp :
    (class : ℕ → Class) (Next : Option ℕ → Type 0) (define_param : String → Class → ParamDef)
    (define_event : String → ℕ)
    → ((name : String) (c : Class) → IsParam class (define_param name c))
    → Next none
    → IsSetUp class Next (set_up define_param define_event)
unfolding set_up
set_up-IsSetUp class Next define_param define_event c stop = record {
  hw_type_param = c "hw_type" Class.value;
  pr_type_param = c "pr_type" Class.value;
  hw_size_param = c "hw_size" Class.value;
  pr_size_param = c "pr_size" Class.value;
  op_param = c "op" Class.value;
  hw_src_param = c "hw_src" Class.value;
  hw_dst_param = c "hw_dst" Class.value;
  pr_src_param = c "pr_src" Class.value;
  pr_dst_param = c "pr_dst" Class.value;
  stop = stop;
}

module _ (class : ℕ → Class) (Next : Option ℕ → Type 0) (m : Arp) (w : IsSetUp class Next m) where
  push_op-Inv :
      {Buf : Type 0} (prop : Property Buf) (op : ℕ) → Inv class prop → Inv class (push_op m prop op)
  unfolding push_op
  push_op-Inv prop op v = elim (Bool-cases (op == 1)) [
    | inl e ↦ rw e (push_event-Inv prop v m.ev_request)
    | inr e ↦ rw e (elim (Bool-cases (op == 2)) [
      | inl f ↦ rw f (push_event-Inv prop v m.ev_reply)
      | inr f ↦ rw f v
    ])
  ]

  set_addr-IsGood :
      {Buf : Type 0} (size : ℕ) (pd : Payload) (prop : Property Buf) (def : ParamDef) (len : ℕ)
      (rest : Payload → Property Buf → Outcome (Decoded Buf))
      → IsReady size pd
      → Inv class prop
      → IsParam class def
      → ((q : Payload) (p : Property Buf)
          → IsReady size q
          → Inv class p
          → Satisfies (IsGood class size Next) (rest q p))
      → Satisfies (IsGood class size Next) (set_addr pd prop def len rest)
  unfolding set_addr
  set_addr-IsGood size pd prop def len rest r v c k =
      retain_or_stop-IsGood class size Next len pd prop _ w.stop r v (λ ptr pd' h r'.
        set_value_then class size Next prop def ptr len big _ v c (λ q u. k pd' q r' u))

  decode_addrs-IsGood :
      {Buf : Type 0} (mem : Bytes) (hw_len pr_len : ℕ) (pd : Payload) (prop : Property Buf)
      → IsReady (length mem) pd
      → Inv class prop
      → Satisfies (IsGood class (length mem) Next) (decode_addrs m mem hw_len pr_len pd prop)
  unfolding decode_addrs
  decode_addrs-IsGood mem hw_len pr_len pd prop r v =
      set_addr-IsGood (length mem) pd prop m.p_hw_src hw_len _ r v w.hw_src_param (λ d1 p1 r1 v1.
        set_addr-IsGood (length mem) d1 p1 m.p_pr_src pr_len _ r1 v1 w.pr_src_param (λ d2 p2 r2 v2.
          set_addr-IsGood (length mem) d2 p2 m.p_hw_dst hw_len _ r2 v2 w.hw_dst_param
            (λ d3 p3 r3 v3.
              set_addr-IsGood (length mem) d3 p3 m.p_pr_dst pr_len _ r3 v3 w.pr_dst_param
                (λ d4 p4 r4 v4. record { next = w.stop; ready = r4; inv = v4 }))))

  pub decode-IsGood :
      {Buf : Type 0} (mem : Bytes) (pd : Payload) (prop : Property Buf)
      → IsReady (length mem) pd
      → Inv class prop
      → Satisfies (IsGood class (length mem) Next) (decode m mem pd prop)
  unfolding decode decode_header
  decode-IsGood mem pd prop r v =
      retain_or_stop-IsGood class (length mem) Next 8 pd prop (decode_header m mem prop) w.stop r v
        (λ hdr pd' h r'.
          set_value_then class (length mem) Next prop m.p_hw_type hdr 2 big _ v w.hw_type_param
            (λ p1 v1.
              set_value_then class (length mem) Next p1 m.p_pr_type (hdr + 2) 2 big _ v1
                w.pr_type_param
                (λ p2 v2.
                  set_value_then class (length mem) Next p2 m.p_hw_size (hdr + 4) 1 big _ v2
                    w.hw_size_param
                    (λ p3 v3.
                      set_value_then class (length mem) Next p3 m.p_pr_size (hdr + 5) 1 big _ v3
                        w.pr_size_param
                        (λ p4 v4.
                          set_value_then class (length mem) Next p4 m.p_op (hdr + 6) 2 big _ v4
                            w.op_param
                            (λ p5 v5.
                              rw
                                (
                                  load_lem mem (hdr + 4) (omega arith),
                                  load_lem mem (hdr + 5) (omega arith),
                                  load_be16_lem mem (hdr + 6) (omega arith),
                                )
                                (decode_addrs-IsGood mem _ _ pd' _ r'
                                  (push_op-Inv p5 (be16_at mem (hdr + 6)) v5))))))))
