-- ===== src/Modules/Pppoe.antt =====
-- class PPPoE of src/modules/pppoe.cc.
use Prim.Native.String.{String}
use packetmachine.Base.{
  ℕ, ◌+◌, ◌/◌, ◌%◌, Option, none, arith, length, ◌==◌, if◌then◌else◌, get_or, Outcome, ok, ◌>>=◌,
  Bytes, le_bytes, load, load_lem, load_be16, Satisfies,
}
use packetmachine.Payload.{Payload}
use packetmachine.Value.{big}
use packetmachine.Property.{Property}
use packetmachine.Property.Objects.{Class, ParamDef}
use packetmachine.Property.Pools.{Inv}
use packetmachine.Property.Write.{set_value, cpy_value}
use packetmachine.Modules.Header.{Decoded, retain_or_stop}
use packetmachine.Modules.Contract.{
  IsReady, IsParam, IsGood, be16_at, load_be16_lem, retain_or_stop-IsGood, set_value_then,
  cpy_value_then,
}

pub record Pppoe : Type 0 where
  pub p_version : ParamDef
  pub p_type : ParamDef
  pub p_code : ParamDef
  pub p_session_id : ParamDef
  pub p_payload_length : ParamDef
  pub mod_ipv4 : Option ℕ

-- The constructor and `setup`, over the calls that they make of Module.
unfoldable pub set_up : (String → Class → ParamDef) → (String → Option ℕ) → Pppoe
set_up define_param lookup_module = record {
  p_version = define_param "version" Class.value;
  p_type = define_param "type" Class.value;
  p_code = define_param "code" Class.value;
  p_session_id = define_param "session_id" Class.value;
  p_payload_length = define_param "payload_length" Class.value;
  mod_ipv4 = lookup_module "IPv4";
}

-- if (ntohs(*ppp) == 0x21)
unfoldable pub next_of : Pppoe → ℕ → Option ℕ
next_of m t = if t == 0x21 then m.mod_ipv4 else none

module _ {Buf : Type 0} (m : Pppoe) (mem : Bytes) where
  -- Behind the test of the two bytes that follow the header.
  unfoldable pub decode_ppp : Property Buf → ℕ → Payload → Outcome (Decoded Buf)
  decode_ppp prop ppp pd = do t ← load_be16 mem ppp; ok (next_of m t, pd, prop)

  -- `version_` is the low half of the first byte and `type_` the high half, on a host that fills
  -- bit fields from the low end. The other fields stand at 1, 2 and 4.
  unfoldable pub decode_header : Property Buf → ℕ → Payload → Outcome (Decoded Buf)
  unfolding decode_ppp
  decode_header prop hdr pd = do
    b ← load mem hdr
    prop1 ← cpy_value prop m.p_version (le_bytes 1 (b % 16)) big
    prop2 ← cpy_value prop1 m.p_type (le_bytes 1 (b / 16)) big
    prop3 ← set_value prop2 m.p_code (hdr + 1) 1 big
    prop4 ← set_value prop3 m.p_session_id (hdr + 2) 2 big
    prop5 ← set_value prop4 m.p_payload_length (hdr + 4) 2 big
    retain_or_stop pd prop5 2 (decode_ppp prop5)

  unfoldable pub decode : Payload → Property Buf → Outcome (Decoded Buf)
  decode pd prop = retain_or_stop pd prop 6 (decode_header prop)

-- The parameters are those of the constructor, and each module it leads to is permitted.
pub record IsSetUp (class : ℕ → Class) (Next : Option ℕ → Type 0) (m : Pppoe) : Type 0 where
  pub version_param : IsParam class m.p_version
  pub type_param : IsParam class m.p_type
  pub code_param : IsParam class m.p_code
  pub session_id_param : IsParam class m.p_session_id
  pub payload_length_param : IsParam class m.p_payload_length
  pub stop : Next none
  pub to_ipv4 : Next m.mod_ipv4

-- Where `define_param` gives parameters of the class asked for, and the modules looked up may follow.
pub set_up-IsSetUp :
    (class : ℕ → Class) (Next : Option ℕ → Type 0) (define_param : String → Class → ParamDef)
    (lookup_module : String → Option ℕ)
    → ((name : String) (c : Class) → IsParam class (define_param name c))
    → Next none
    → Next (lookup_module "IPv4")
    → IsSetUp class Next (set_up define_param lookup_module)
unfolding set_up
set_up-IsSetUp class Next define_param lookup_module c stop h0 = record {
  version_param = c "version" Class.value;
  type_param = c "type" Class.value;
  code_param = c "code" Class.value;
  session_id_param = c "session_id" Class.value;
  payload_length_param = c "payload_length" Class.value;
  stop = stop;
  to_ipv4 = h0;
}

module _ (class : ℕ → Class) (Next : Option ℕ → Type 0) (m : Pppoe) (w : IsSetUp class Next m) where
  next_of-Next : (t : ℕ) → Next (next_of m t)
  unfolding next_of
  next_of-Next t = ground (arith, w)

  pub decode-IsGood :
      {Buf : Type 0} (mem : Bytes) (pd : Payload) (prop : Property Buf)
      → IsReady (length mem) pd
      → Inv class prop
      → Satisfies (IsGood class (length mem) Next) (decode m mem pd prop)
  unfolding decode decode_header decode_ppp
  decode-IsGood mem pd prop r v =
      retain_or_stop-IsGood class (length mem) Next 6 pd prop (decode_header m mem prop) w.stop r v
        (λ hdr pd' h r'. rw (load_lem mem hdr (omega arith)) (
          cpy_value_then class (length mem) Next prop m.p_version
            (le_bytes 1 (get_or mem hdr 0 % 16)) big _ v w.version_param
            (λ p1 v1.
              cpy_value_then class (length mem) Next p1 m.p_type
                (le_bytes 1 (get_or mem hdr 0 / 16)) big _ v1 w.type_param
                (λ p2 v2.
                  set_value_then class (length mem) Next p2 m.p_code (hdr + 1) 1 big _ v2
                    w.code_param
                    (λ p3 v3.
                      set_value_then class (length mem) Next p3 m.p_session_id (hdr + 2) 2 big _ v3
                        w.session_id_param
                        (λ p4 v4.
                          set_value_then class (length mem) Next p4 m.p_payload_length (hdr + 4) 2
                            big _ v4 w.payload_length_param
                            (λ p5 v5.
                              retain_or_stop-IsGood class (length mem) Next 2 pd' p5
                                (decode_ppp m mem p5) w.stop r' v5
                                (λ ppp pd2 h2 r2. rw (load_be16_lem mem ppp (omega arith)) (record {
                                  next = next_of-Next (be16_at mem ppp);
                                  ready = r2;
                                  inv = v5;
                                })))))))))
