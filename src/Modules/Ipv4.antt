-- ===== src/Modules/Ipv4.antt =====
-- class IPv4 of src/modules/ipv4.cc, without the minor parameters of its header.
use Prim.Native.String.{String}
use packetmachine.Base.{
  ℕ, ◌+◌, ◌-◌, ◌*◌, ◌%◌, ◌≤◌, inl, inr, Bool-cases, Option, none, some, arith, length, ◌==◌, ltb,
  if◌then◌else◌, get_or, Outcome, ok, ◌>>=◌, Bytes, load, load_lem, load_be16, load_slice, slice,
  Satisfies, Satisfies->>=,
}
use packetmachine.Payload.{Payload, retain, shrink}
use packetmachine.Value.{big, Ptr, null, packet}
use packetmachine.Property.{Property, BufferOps, set_src_addr, set_dst_addr}
use packetmachine.Property.Objects.{Class, ParamDef}
use packetmachine.Property.Pools.{Inv}
use packetmachine.Property.Write.{set_value, set_value_ptr}
use packetmachine.Modules.Header.{Decoded, retain_or_stop}
use packetmachine.Modules.Contract.{
  IsReady, IsParam, IsGood, IsHeader, be16_at, load_be16_lem, load_slice_lem, retain_or_stop-IsGood,
  retain-IsHeader, set_value_then, set_value_ptr_then, set_src_addr-Inv, set_dst_addr-Inv,
  shrink-IsReady,
}

pub record Ipv4 : Type 0 where
  pub p_hdr : ParamDef
  pub p_src : ParamDef
  pub p_dst : ParamDef
  pub p_opt : ParamDef
  pub p_data : ParamDef
  pub mod_tcp : Option ℕ
  pub mod_udp : Option ℕ
  pub mod_icmp : Option ℕ

-- The constructor and `setup`, over the calls that they make of Module.
unfoldable pub set_up : (String → Class → ParamDef) → (String → Option ℕ) → Ipv4
set_up define_param lookup_module = record {
  p_hdr = define_param "hdr" Class.storage;
  p_src = define_param "src" Class.ipv4_addr;
  p_dst = define_param "dst" Class.ipv4_addr;
  p_opt = define_param "opt" Class.value;
  p_data = define_param "data" Class.value;
  mod_tcp = lookup_module "TCP";
  mod_udp = lookup_module "UDP";
  mod_icmp = lookup_module "ICMP";
}

-- The switch on the protocol.
unfoldable pub next_of : Ipv4 → ℕ → Option ℕ
next_of m proto =
    if proto == 1
    then m.mod_icmp
    else if proto == 6
    then m.mod_tcp
    else if proto == 17
    then m.mod_udp
    else none

-- What `retain` returned, as a pointer.
abbrev pub pointer : Option ℕ → Ptr
pointer none = null
pointer (some p) = packet p

module _ {Buf : Type 0} (tb : BufferOps Buf) (m : Ipv4) (mem : Bytes) where
  -- From `pd->shrink(data_len)` on. `proto_` stands at 9 in the header.
  unfoldable pub decode_data : ℕ → ℕ → Payload → Property Buf → Outcome (Decoded Buf)
  unfolding next_of
  decode_data hdr data_len pd prop =
      let q = (shrink pd data_len).1 in
      do
        prop1 ← set_value prop m.p_data q.ptr q.length big
        proto ← load mem (hdr + 9)
        ok (next_of m proto, q, prop1)

  -- The option field. The pointer may be null, and is set all the same.
  unfoldable pub decode_opt : ℕ → ℕ → ℕ → Property Buf → Option ℕ × Payload → Outcome (Decoded Buf)
  unfolding decode_data
  decode_opt hdr data_len opt_len prop (opt, pd) = do
    prop1 ← set_value_ptr prop m.p_opt (pointer opt) opt_len big
    decode_data hdr data_len pd prop1

  -- Behind the test of the lengths. `src_` and `dst_` stand at 12 and 16 in the header.
  unfoldable pub decode_body : ℕ → ℕ → ℕ → Payload → Property Buf → Outcome (Decoded Buf)
  unfolding decode_opt decode_data
  decode_body hdr hdr_len total_len pd prop = do
    prop1 ← set_value prop m.p_hdr hdr 20 big
    src ← load_slice mem (hdr + 12) 4
    dst ← load_slice mem (hdr + 16) 4
    prop2 ← set_value (set_dst_addr tb (set_src_addr tb prop1 src) dst) m.p_src (hdr + 12) 4 big
    prop3 ← set_value prop2 m.p_dst (hdr + 16) 4 big
    if ltb 20 hdr_len
        then retain pd (hdr_len - 20) >>= decode_opt hdr (total_len - hdr_len) (hdr_len - 20) prop3
        else decode_data hdr (total_len - hdr_len) pd prop3

  -- `hdrlen_` is the low half of the first byte, and counts words of four bytes.
  unfoldable pub decode_header : Property Buf → ℕ → Payload → Outcome (Decoded Buf)
  unfolding decode_body
  decode_header prop hdr pd = do
    b ← load mem hdr
    total_len ← load_be16 mem (hdr + 2)
    if ltb total_len (b % 16 * 4)
        then ok (none, pd, prop)
        else decode_body hdr (b % 16 * 4) total_len pd prop

  unfoldable pub decode : Payload → Property Buf → Outcome (Decoded Buf)
  decode pd prop = retain_or_stop pd prop 20 (decode_header prop)

-- The parameters are those of the constructor, and each module it leads to is permitted.
pub record IsSetUp (class : ℕ → Class) (Next : Option ℕ → Type 0) (m : Ipv4) : Type 0 where
  pub hdr_param : IsParam class m.p_hdr
  pub src_param : IsParam class m.p_src
  pub dst_param : IsParam class m.p_dst
  pub opt_param : IsParam class m.p_opt
  pub data_param : IsParam class m.p_data
  pub stop : Next none
  pub to_tcp : Next m.mod_tcp
  pub to_udp : Next m.mod_udp
  pub to_icmp : Next m.mod_icmp

-- Where `define_param` gives parameters of the class asked for, and the modules looked up may follow.
pub set_up-IsSetUp :
    (class : ℕ → Class) (Next : Option ℕ → Type 0) (define_param : String → Class → ParamDef)
    (lookup_module : String → Option ℕ)
    → ((name : String) (c : Class) → IsParam class (define_param name c))
    → Next none
    → Next (lookup_module "TCP")
    → Next (lookup_module "UDP")
    → Next (lookup_module "ICMP")
    → IsSetUp class Next (set_up define_param lookup_module)
unfolding set_up
set_up-IsSetUp class Next define_param lookup_module c stop h0 h1 h2 = record {
  hdr_param = c "hdr" Class.storage;
  src_param = c "src" Class.ipv4_addr;
  dst_param = c "dst" Class.ipv4_addr;
  opt_param = c "opt" Class.value;
  data_param = c "data" Class.value;
  stop = stop;
  to_tcp = h0;
  to_udp = h1;
  to_icmp = h2;
}

module _ (class : ℕ → Class) (Next : Option ℕ → Type 0) (m : Ipv4) (w : IsSetUp class Next m) where
  next_of-Next : (t : ℕ) → Next (next_of m t)
  unfolding next_of
  next_of-Next t = ground (arith, w)

  module _ {Buf : Type 0} (tb : BufferOps Buf) (mem : Bytes) (hdr : ℕ)
      (h : hdr + 20 ≤ length mem) where
    decode_data-IsGood :
        (data_len : ℕ) (pd : Payload) (prop : Property Buf)
        → IsReady (length mem) pd
        → Inv class prop
        → Satisfies (IsGood class (length mem) Next) (decode_data tb m mem hdr data_len pd prop)
    unfolding decode_data
    decode_data-IsGood data_len pd prop r v =
        set_value_then class (length mem) Next prop m.p_data _ _ big _ v w.data_param (λ p1 v1.
          rw (load_lem mem (hdr + 9) (omega arith)) (record {
            next = next_of-Next (get_or mem (hdr + 9) 0);
            ready = shrink-IsReady (length mem) data_len pd r;
            inv = v1;
          }))

    decode_opt-IsGood :
        (data_len opt_len : ℕ) (prop : Property Buf) (out : Option ℕ × Payload)
        → Inv class prop
        → IsHeader (length mem) opt_len out
        → Satisfies
            (IsGood class (length mem) Next)
            (decode_opt tb m mem hdr data_len opt_len prop out)
    unfolding decode_opt
    decode_opt-IsGood data_len opt_len prop (none, pd) v r =
        set_value_ptr_then class (length mem) Next prop m.p_opt null opt_len big _ v w.opt_param
          (λ p1 v1. decode_data-IsGood data_len pd p1 r v1)
    decode_opt-IsGood data_len opt_len prop (some opt, pd) v r =
        set_value_ptr_then class (length mem) Next prop m.p_opt (packet opt) opt_len big _ v
          w.opt_param (λ p1 v1. decode_data-IsGood data_len pd p1 r.1 v1)

    decode_body-IsGood :
        (hdr_len total_len : ℕ) (pd : Payload) (prop : Property Buf)
        → IsReady (length mem) pd
        → Inv class prop
        → Satisfies
            (IsGood class (length mem) Next)
            (decode_body tb m mem hdr hdr_len total_len pd prop)
    unfolding decode_body
    decode_body-IsGood hdr_len total_len pd prop r v =
        set_value_then class (length mem) Next prop m.p_hdr hdr 20 big _ v w.hdr_param (λ p1 v1.
          rw
            (
              load_slice_lem mem (hdr + 12) 4 (omega arith),
              load_slice_lem mem (hdr + 16) 4 (omega arith),
            )
            (set_value_then class (length mem) Next _ m.p_src (hdr + 12) 4 big _
              (set_dst_addr-Inv _ (set_src_addr-Inv p1 v1 tb (slice mem (hdr + 12) 4)) tb
                (slice mem (hdr + 16) 4))
              w.src_param
              (λ p2 v2.
                set_value_then class (length mem) Next p2 m.p_dst (hdr + 16) 4 big _ v2 w.dst_param
                  (λ p3 v3. elim (Bool-cases (ltb 20 hdr_len)) [
                    | inl e ↦ rw e (
                        Satisfies->>= (IsHeader (length mem) (hdr_len - 20))
                          (IsGood class (length mem) Next) (retain pd (hdr_len - 20)) _
                          (retain-IsHeader (length mem) (hdr_len - 20) pd r)
                          (λ out g.
                            decode_opt-IsGood (total_len - hdr_len) (hdr_len - 20) p3 out v3 g))
                    | inr e ↦ rw e (decode_data-IsGood (total_len - hdr_len) pd p3 r v3)
                  ]))))

  pub decode-IsGood :
      {Buf : Type 0} (tb : BufferOps Buf) (mem : Bytes) (pd : Payload) (prop : Property Buf)
      → IsReady (length mem) pd
      → Inv class prop
      → Satisfies (IsGood class (length mem) Next) (decode tb m mem pd prop)
  unfolding decode decode_header
  decode-IsGood tb mem pd prop r v =
      retain_or_stop-IsGood class (length mem) Next 20 pd prop (decode_header tb m mem prop) w.stop
        r v
        (λ hdr pd' h r'.
          let hdr_len = get_or mem hdr 0 % 16 * 4 in
          let total_len = be16_at mem (hdr + 2) in
          rw (load_lem mem hdr (omega arith), load_be16_lem mem (hdr + 2) (omega arith))
            (elim (Bool-cases (ltb total_len hdr_len)) [
              | inl e ↦ rw e (record { next = w.stop; ready = r'; inv = v })
              | inr e ↦ rw e (decode_body-IsGood tb mem hdr h hdr_len total_len pd' prop r' v)
            ]))
