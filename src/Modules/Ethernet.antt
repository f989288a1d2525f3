-- ===== src/Modules/Ethernet.antt =====
-- class Ethernet of src/modules/ether.cc.
use Prim.Native.String.{String}
use packetmachine.Base.{
  ℕ, ◌+◌, Option, none, arith, length, ◌==◌, if◌then◌else◌, Outcome, ok, ◌>>=◌, Bytes, load_be16,
  Satisfies,
}
use packetmachine.Payload.{Payload}
use packetmachine.Value.{big}
use packetmachine.Property.{Property}
use packetmachine.Property.Objects.{Class, ParamDef}
use packetmachine.Property.Pools.{Inv}
use packetmachine.Property.Write.{set_value}
use packetmachine.Modules.Header.{Decoded, retain_or_stop}
use packetmachine.Modules.Contract.{
  IsReady, IsParam, IsGood, be16_at, load_be16_lem, retain_or_stop-IsGood, set_value_then,
}

pub record Ethernet : Type 0 where
  pub p_type : ParamDef
  pub p_src : ParamDef
  pub p_dst : ParamDef
  pub mod_ipv4 : Option ℕ
  pub mod_arp : Option ℕ
  pub mod_pppoe : Option ℕ
  pub mod_dot1q : Option ℕ

-- The constructor and `setup`, over the calls that they make of Module.
unfoldable pub set_up : (String → Class → ParamDef) → (String → Option ℕ) → Ethernet
set_up define_param lookup_module = record {
  p_type = define_param "type" Class.value;
  p_src = define_param "src" Class.value;
  p_dst = define_param "dst" Class.value;
  mod_ipv4 = lookup_module "IPv4";
  mod_arp = lookup_module "ARP";
  mod_pppoe = lookup_module "PPPoE";
  mod_dot1q = lookup_module "Dot1Q";
}

-- The switch on the type.
unfoldable pub next_of : Ethernet → ℕ → Option ℕ
next_of m t =
    if t == 0x0806
    then m.mod_arp
    else if t == 0x0800
    then m.mod_ipv4
    else if t == 0x8100
    then m.mod_dot1q
    else if t == 0x8864
    then m.mod_pppoe
    else none

module _ {Buf : Type 0} (m : Ethernet) (mem : Bytes) where
  -- Behind the test of the header. `dst_`, `src_` and `type_` stand at 0, 6 and 12 in it.
  unfoldable pub decode_header : Property Buf → ℕ → Payload → Outcome (Decoded Buf)
  unfolding next_of
  decode_header prop hdr pd = do
    prop1 ← set_value prop m.p_type (hdr + 12) 2 big
    prop2 ← set_value prop1 m.p_src (hdr + 6) 6 big
    prop3 ← set_value prop2 m.p_dst hdr 6 big
    t ← load_be16 mem (hdr + 12)
    ok (next_of m t, pd, prop3)

  unfoldable pub decode : Payload → Property Buf → Outcome (Decoded Buf)
  decode pd prop = retain_or_stop pd prop 14 (decode_header prop)

-- The parameters are those of the constructor, and each module it leads to is permitted.
pub record IsSetUp (class : ℕ → Class) (Next : Option ℕ → Type 0) (m : Ethernet) : Type 0 where
  pub type_param : IsParam class m.p_type
  pub src_param : IsParam class m.p_src
  pub dst_param : IsParam class m.p_dst
  pub stop : Next none
  pub to_ipv4 : Next m.mod_ipv4
  pub to_arp : Next m.mod_arp
  pub to_pppoe : Next m.mod_pppoe
  pub to_dot1q : Next m.mod_dot1q

-- Where `define_param` gives parameters of the class asked for, and the modules looked up may follow.
pub set_up-IsSetUp :
    (class : ℕ → Class) (Next : Option ℕ → Type 0) (define_param : String → Class → ParamDef)
    (lookup_module : String → Option ℕ)
    → ((name : String) (c : Class) → IsParam class (define_param name c))
    → Next none
    → Next (lookup_module "IPv4")
    → Next (lookup_module "ARP")
    → Next (lookup_module "PPPoE")
    → Next (lookup_module "Dot1Q")
    → IsSetUp class Next (set_up define_param lookup_module)
unfolding set_up
set_up-IsSetUp class Next define_param lookup_module c stop h0 h1 h2 h3 = record {
  type_param = c "type" Class.value;
  src_param = c "src" Class.value;
  dst_param = c "dst" Class.value;
  stop = stop;
  to_ipv4 = h0;
  to_arp = h1;
  to_pppoe = h2;
  to_dot1q = h3;
}

module _ (class : ℕ → Class) (Next : Option ℕ → Type 0) (m : Ethernet)
    (w : IsSetUp class Next m) where
  next_of-Next : (t : ℕ) → Next (next_of m t)
  unfolding next_of
  next_of-Next t = ground (arith, w)

  pub decode-IsGood :
      {Buf : Type 0} (mem : Bytes) (pd : Payload) (prop : Property Buf)
      → IsReady (length mem) pd
      → Inv class prop
      → Satisfies (IsGood class (length mem) Next) (decode m mem pd prop)
  unfolding decode decode_header
  decode-IsGood mem pd prop r v =
      retain_or_stop-IsGood class (length mem) Next 14 pd prop (decode_header m mem prop) w.stop r v
        (λ hdr pd' h r'.
          set_value_then class (length mem) Next prop m.p_type (hdr + 12) 2 big _ v w.type_param
            (λ p1 v1.
              set_value_then class (length mem) Next p1 m.p_src (hdr + 6) 6 big _ v1 w.src_param
                (λ p2 v2.
                  set_value_then class (length mem) Next p2 m.p_dst hdr 6 big _ v2 w.dst_param
                    (λ p3 v3. rw (load_be16_lem mem (hdr + 12) (omega arith)) (record {
                      next = next_of-Next (be16_at mem (hdr + 12));
                      ready = r';
                      inv = v3;
                    })))))
