-- ===== src/Modules/Dot1Q.antt =====
-- class Dot1Q of src/modules/dot1q.cc.
use Prim.Native.String.{String}
use packetmachine.Base.{
  ℕ, ◌+◌, ◌%◌, ◌^◌, Option, none, arith, length, ◌==◌, if◌then◌else◌, Outcome, ok, ◌>>=◌, Bytes,
  le_bytes, load_be16, Satisfies,
}
use packetmachine.Payload.{Payload}
use packetmachine.Value.{big, little}
use packetmachine.Property.{Property}
use packetmachine.Property.Objects.{Class, ParamDef}
use packetmachine.Property.Pools.{Inv}
use packetmachine.Property.Write.{set_value, cpy_value}
use packetmachine.Modules.Header.{Decoded, retain_or_stop}
use packetmachine.Modules.Contract.{
  IsReady, IsParam, IsGood, be16_at, load_be16_lem, retain_or_stop-IsGood, set_value_then,
  cpy_value_then,
}

pub record Dot1Q : Type 0 where
  pub p_type : ParamDef
  pub p_vlan_id : ParamDef
  pub mod_ipv4 : Option ℕ
  pub mod_arp : Option ℕ
  pub mod_pppoe : Option ℕ

-- The constructor and `setup`, over the calls that they make of Module.
unfoldable pub set_up : (String → Class → ParamDef) → (String → Option ℕ) → Dot1Q
set_up define_param lookup_module = record {
  p_type = define_param "type" Class.value;
  p_vlan_id = define_param "vlan_id" Class.value;
  mod_ipv4 = lookup_module "IPv4";
  mod_arp = lookup_module "ARP";
  mod_pppoe = lookup_module "PPPoE";
}

-- The switch on the type.
unfoldable pub next_of : Dot1Q → ℕ → Option ℕ
next_of m t =
    if t == 0x0806
    then m.mod_arp
    else if t == 0x0800
    then m.mod_ipv4
    else if t == 0x8864
    then m.mod_pppoe
    else none

module _ {Buf : Type 0} (m : Dot1Q) (mem : Bytes) where
  -- `info_` and `type_` stand at 0 and 2 in the header. `& 0x7ff` keeps the low 11 bits.
  unfoldable pub decode_header : Property Buf → ℕ → Payload → Outcome (Decoded Buf)
  decode_header prop hdr pd = do
    info ← load_be16 mem hdr
    prop1 ← set_value prop m.p_type (hdr + 2) 2 big
    prop2 ← cpy_value prop1 m.p_vlan_id (le_bytes 2 (info % 2 ^ 11)) little
    t ← load_be16 mem (hdr + 2)
    ok (next_of m t, pd, prop2)

  unfoldable pub decode : Payload → Property Buf → Outcome (Decoded Buf)
  decode pd prop = retain_or_stop pd prop 4 (decode_header prop)

-- The parameters are those of the constructor, and each module it leads to is permitted.
pub record IsSetUp (class : ℕ → Class) (Next : Option ℕ → Type 0) (m : Dot1Q) : Type 0 where
  pub type_param : IsParam class m.p_type
  pub vlan_id_param : IsParam class m.p_vlan_id
  pub stop : Next none
  pub to_ipv4 : Next m.mod_ipv4
  pub to_arp : Next m.mod_arp
  pub to_pppoe : Next m.mod_pppoe

-- Where `define_param` gives parameters of the class asked for, and the modules looked up may follow.
pub set_up-IsSetUp :
    (class : ℕ → Class) (Next : Option ℕ → Type 0) (define_param : String → Class → ParamDef)
    (lookup_module : String → Option ℕ)
    → ((name : String) (c : Class) → IsParam class (define_param name c))
    → Next none
    → Next (lookup_module "IPv4")
    → Next (lookup_module "ARP")
    → Next (lookup_module "PPPoE")
    → IsSetUp class Next (set_up define_param lookup_module)
unfolding set_up
set_up-IsSetUp class Next define_param lookup_module c stop h0 h1 h2 = record {
  type_param = c "type" Class.value;
  vlan_id_param = c "vlan_id" Class.value;
  stop = stop;
  to_ipv4 = h0;
  to_arp = h1;
  to_pppoe = h2;
}

module _ (class : ℕ → Class) (Next : Option ℕ → Type 0) (m : Dot1Q) (w : IsSetUp class Next m) where
  next_of-Next : (t : ℕ) → Next (next_of m t)
  unfolding next_of
  next_of-Next t = ground (arith, w)

  pub decode-IsGood :
      {Buf : Type 0} (mem : Bytes) (pd : Payload) (prop : Property Buf)
      → IsReady (length mem) pd
      → Inv class prop
      → Satisfies (IsGood class (length mem) Next) (decode m mem pd prop)
  unfolding decode decode_header
  decode-IsGood mem pd prop r v =
      retain_or_stop-IsGood class (length mem) Next 4 pd prop (decode_header m mem prop) w.stop r v
        (λ hdr pd' h r'. rw (load_be16_lem mem hdr (omega arith)) (
          set_value_then class (length mem) Next prop m.p_type (hdr + 2) 2 big _ v w.type_param
            (λ p1 v1.
              cpy_value_then class (length mem) Next p1 m.p_vlan_id
                (le_bytes 2 (be16_at mem hdr % 2 ^ 11)) little _ v1 w.vlan_id_param
                (λ p2 v2.
                  rw (load_be16_lem mem (hdr + 2) (omega arith)) (record {
                    next = next_of-Next (be16_at mem (hdr + 2));
                    ready = r';
                    inv = v2;
                  })))))
