-- ===== src/Modules/Icmp.antt =====
-- class ICMP of src/modules/icmp.cc, without the printing of its values.
use Prim.Native.String.{String}
use packetmachine.Base.{
  ℕ, ◌+◌, refl, Option, none, arith, length, Outcome, ok, ◌>>=◌, Bytes, load, load_lem, Satisfies,
}
use packetmachine.Payload.{Payload}
use packetmachine.Value.{big, little, Ptr, null, packet}
use packetmachine.Value
use packetmachine.Property.{Property}
use packetmachine.Property.Objects.{Class, ParamDef}
use packetmachine.Property.Pools.{Inv}
use packetmachine.Property.Write.{set_value}
use packetmachine.Modules.Header.{Decoded, retain_or_stop}
use packetmachine.Property.{retain_value}
use packetmachine.Property.Objects.{Object}
use packetmachine.Property.Handles.{
  Keeps, alter_as, retain_value-Keeps, alter_as-Keeps, retain_value-class,
}
use packetmachine.Base.{[], ◌∷◌, Satisfies->>=}
use packetmachine.Modules.Contract.{
  IsParamOf, IsReady, IsParam, IsGood, retain_or_stop-IsGood, set_value_then,
}

pub record Icmp : Type 0 where
  pub p_type : ParamDef
  pub p_code : ParamDef
  pub p_chksum : ParamDef

-- The constructor and `setup`, over the calls that they make of Module.
unfoldable pub set_up : (String → Class → ParamDef) → Icmp
set_up define_param = record {
  p_type = define_param "type" Class.icmp_type;
  p_code = define_param "code" Class.icmp_code;
  p_chksum = define_param "chksum" Class.value;
}

-- `set` and `set_type` of IcmpCode.
abbrev set_code : ℕ → ℕ → Object → Object
set_code off type o = record o { view = Value.set o.view off 1 big; code_type = type }

module _ {Buf : Type 0} (m : Icmp) (mem : Bytes) where
  -- `type_`, `code_` and `chksum_` stand at 0, 1 and 2 in the header. The value of the code keeps
  -- the type too.
  unfoldable pub decode_header : Property Buf → ℕ → Payload → Outcome (Decoded Buf)
  decode_header prop hdr pd = do
    prop1 ← set_value prop m.p_type hdr 1 big
    type ← load mem hdr
    let (code, prop2) = retain_value prop1 m.p_code
    prop3 ← alter_as Class.icmp_code (set_code (hdr + 1) type) code prop2
    prop4 ← set_value prop3 m.p_chksum (hdr + 2) 2 big
    ok (none, pd, prop4)

  unfoldable pub decode : Payload → Property Buf → Outcome (Decoded Buf)
  decode pd prop = retain_or_stop pd prop 4 (decode_header prop)

-- The parameters are those of the constructor, and each module it leads to is permitted.
pub record IsSetUp (class : ℕ → Class) (Next : Option ℕ → Type 0) (m : Icmp) : Type 0 where
  pub type_param : IsParam class m.p_type
  pub code_param : IsParamOf class Class.icmp_code m.p_code
  pub chksum_param : IsParam class m.p_chksum
  pub stop : Next none

-- Where `define_param` gives parameters of the class asked for.
pub set_up-IsSetUp :
    (class : ℕ → Class) (Next : Option ℕ → Type 0) (define_param : String → Class → ParamDef)
    → ((name : String) (c : Class) → IsParamOf class c (define_param name c))
    → Next none
    → IsSetUp class Next (set_up define_param)
unfolding set_up
set_up-IsSetUp class Next define_param c stop = record {
  type_param = (c "type" Class.icmp_type).0;
  code_param = c "code" Class.icmp_code;
  chksum_param = (c "chksum" Class.value).0;
  stop = stop;
}

module _ (class : ℕ → Class) (Next : Option ℕ → Type 0) (m : Icmp) (w : IsSetUp class Next m) where
  pub decode-IsGood :
      {Buf : Type 0} (mem : Bytes) (pd : Payload) (prop : Property Buf)
      → IsReady (length mem) pd
      → Inv class prop
      → Satisfies (IsGood class (length mem) Next) (decode m mem pd prop)
  unfolding decode decode_header
  decode-IsGood mem pd prop r v =
      retain_or_stop-IsGood class (length mem) Next 4 pd prop (decode_header m mem prop) w.stop r v
        (λ hdr pd' h r'.
          set_value_then class (length mem) Next prop m.p_type hdr 1 big _ v w.type_param (λ p1 v1.
            rw (load_lem mem hdr (omega arith)) (
              let code = retain_value p1 m.p_code in
              let k = retain_value-Keeps class [] p1 m.p_code (v1, tt) w.code_param.0 in
              Satisfies->>= (Keeps class (code.0 ∷ [])) (IsGood class (length mem) Next) _ _
                (alter_as-Keeps class (code.0 ∷ []) code.1 Class.icmp_code _ code.0 (λ o. refl)
                  (retain_value-class class p1 m.p_code Class.icmp_code w.code_param.0
                    w.code_param.1)
                  k.1.0 k)
                (λ p2 k2.
                  set_value_then class (length mem) Next p2 m.p_chksum (hdr + 2) 2 big _ k2.0
                    w.chksum_param (λ p3 v3. record { next = w.stop; ready = r'; inv = v3 })))))
