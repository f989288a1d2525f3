-- ===== src/Modules/Udp.antt =====
-- class UDP of src/modules/udp.cc.
use Prim.Native.String.{String}
use packetmachine.Base.{
  ℕ, ◌+◌, ◌||◌, Option, none, arith, length, ◌==◌, if◌then◌else◌, Outcome, ok, ◌>>=◌, Bytes,
  load_be16, Satisfies,
}
use packetmachine.Payload.{Payload}
use packetmachine.Value.{big}
use packetmachine.Property.{Property, set_src_port, set_dst_port}
use packetmachine.Property.Objects.{Class, ParamDef}
use packetmachine.Property.Pools.{Inv}
use packetmachine.Property.Write.{set_value}
use packetmachine.Modules.Header.{Decoded, retain_or_stop}
use packetmachine.Modules.Contract.{
  IsReady, IsParam, IsGood, be16_at, load_be16_lem, retain_or_stop-IsGood, set_value_then,
  set_src_port-Inv, set_dst_port-Inv,
}

pub record Udp : Type 0 where
  pub p_src_port : ParamDef
  pub p_dst_port : ParamDef
  pub p_length : ParamDef
  pub p_chksum : ParamDef
  pub p_hdr : ParamDef
  pub mod_dns : Option ℕ
  pub mod_mdns : Option ℕ
  pub mod_dhcp : Option ℕ

-- The constructor and `setup`, over the calls that they make of Module.
unfoldable pub set_up : (String → Class → ParamDef) → (String → Option ℕ) → Udp
set_up define_param lookup_module = record {
  p_src_port = define_param "src_port" Class.port_number;
  p_dst_port = define_param "dst_port" Class.port_number;
  p_length = define_param "length" Class.value;
  p_chksum = define_param "chksum" Class.value;
  p_hdr = define_param "hdr" Class.storage;
  mod_dns = lookup_module "DNS";
  mod_mdns = lookup_module "MDNS";
  mod_dhcp = lookup_module "DHCP";
}

-- The choice of the next module by the ports.
unfoldable pub next_of : Udp → ℕ → ℕ → Option ℕ
next_of m sport dport =
    if sport == 53 || dport == 53
    then m.mod_dns
    else if sport == 5353 || dport == 5353
    then m.mod_mdns
    else if sport == 67 || sport == 68 || dport == 67 || dport == 68
    then m.mod_dhcp
    else none

module _ {Buf : Type 0} (m : Udp) (mem : Bytes) where
  unfoldable pub decode_header : Property Buf → ℕ → Payload → Outcome (Decoded Buf)
  decode_header prop hdr pd = do
    sport ← load_be16 mem hdr
    dport ← load_be16 mem (hdr + 2)
    prop1 ← set_value (set_dst_port (set_src_port prop sport) dport) m.p_hdr hdr 8 big
    prop2 ← set_value prop1 m.p_src_port hdr 2 big
    prop3 ← set_value prop2 m.p_dst_port (hdr + 2) 2 big
    prop4 ← set_value prop3 m.p_length (hdr + 4) 2 big
    prop5 ← set_value prop4 m.p_chksum (hdr + 6) 2 big
    ok (next_of m sport dport, pd, prop5)

  unfoldable pub decode : Payload → Property Buf → Outcome (Decoded Buf)
  decode pd prop = retain_or_stop pd prop 8 (decode_header prop)

-- The parameters are those of the constructor, and each module it leads to is permitted.
pub record IsSetUp (class : ℕ → Class) (Next : Option ℕ → Type 0) (m : Udp) : Type 0 where
  pub src_port_param : IsParam class m.p_src_port
  pub dst_port_param : IsParam class m.p_dst_port
  pub length_param : IsParam class m.p_length
  pub chksum_param : IsParam class m.p_chksum
  pub hdr_param : IsParam class m.p_hdr
  pub stop : Next none
  pub to_dns : Next m.mod_dns
  pub to_mdns : Next m.mod_mdns
  pub to_dhcp : Next m.mod_dhcp

-- Where `define_param` gives parameters of the class asked for, and the modules looked up may follow.
pub set_up-IsSetUp :
    (class : ℕ → Class) (Next : Option ℕ → Type 0) (define_param : String → Class → ParamDef)
    (lookup_module : String → Option ℕ)
    → ((name : String) (c : Class) → IsParam class (define_param name c))
    → Next none
    → Next (lookup_module "DNS")
    → Next (lookup_module "MDNS")
    → Next (lookup_module "DHCP")
    → IsSetUp class Next (set_up define_param lookup_module)
unfolding set_up
set_up-IsSetUp class Next define_param lookup_module c stop h0 h1 h2 = record {
  src_port_param = c "src_port" Class.port_number;
  dst_port_param = c "dst_port" Class.port_number;
  length_param = c "length" Class.value;
  chksum_param = c "chksum" Class.value;
  hdr_param = c "hdr" Class.storage;
  stop = stop;
  to_dns = h0;
  to_mdns = h1;
  to_dhcp = h2;
}

module _ (class : ℕ → Class) (Next : Option ℕ → Type 0) (m : Udp) (w : IsSetUp class Next m) where
  next_of-Next : (s d : ℕ) → Next (next_of m s d)
  unfolding next_of
  next_of-Next s d = ground (arith, w)

  pub decode-IsGood :
      {Buf : Type 0} (mem : Bytes) (pd : Payload) (prop : Property Buf)
      → IsReady (length mem) pd
      → Inv class prop
      → Satisfies (IsGood class (length mem) Next) (decode m mem pd prop)
  unfolding decode decode_header
  decode-IsGood mem pd prop r v =
      retain_or_stop-IsGood class (length mem) Next 8 pd prop (decode_header m mem prop) w.stop r v
        (λ hdr pd' h r'.
          rw (load_be16_lem mem hdr (omega arith), load_be16_lem mem (hdr + 2) (omega arith))
            (set_value_then class (length mem) Next _ m.p_hdr hdr 8 big _
              (set_dst_port-Inv _ (set_src_port-Inv prop v (be16_at mem hdr))
                (be16_at mem (hdr + 2)))
              w.hdr_param
              (λ p1 v1.
                set_value_then class (length mem) Next p1 m.p_src_port hdr 2 big _ v1
                  w.src_port_param
                  (λ p2 v2.
                    set_value_then class (length mem) Next p2 m.p_dst_port (hdr + 2) 2 big _ v2
                      w.dst_port_param
                      (λ p3 v3.
                        set_value_then class (length mem) Next p3 m.p_length (hdr + 4) 2 big _ v3
                          w.length_param
                          (λ p4 v4.
                            set_value_then class (length mem) Next p4 m.p_chksum (hdr + 6) 2 big _
                              v4 w.chksum_param
                              (λ p5 v5. record {
                                next = next_of-Next (be16_at mem hdr) (be16_at mem (hdr + 2));
                                ready = r';
                                inv = v5;
                              })))))))
