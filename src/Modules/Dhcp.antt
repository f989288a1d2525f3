-- ===== src/Modules/Dhcp.antt =====
-- class DHCP of src/modules/dhcp.cc: the header, and the loop over the options.
pub mod Safety
use Prim.Native.String.{String}
use packetmachine.Base.{
  ℕ, zero, suc, ◌+◌, Bool, true, false, Option, none, some, List, [], ◌∷◌, ◌++◌, ◌==◌,
  if◌then◌else◌, Outcome, ok, fault, ◌>>=◌, Bytes, load,
}
use packetmachine.Payload.{Payload, retain}
use packetmachine.Value.{Endian, little, big}
use packetmachine.Value
use packetmachine.Property.{Property, Handle, retain_value}
use packetmachine.Property.Objects.{Class, ParamDef, Object, to}
use packetmachine.Property.Handles.{alter, alter_as}
use packetmachine.Property.Write.{set_value}
use packetmachine.Modules.Header.{Decoded, retain_or_stop}

pub record Dhcp : Type 0 where
  pub p_msg_type : ParamDef
  pub p_hw_type : ParamDef
  pub p_hw_addr_len : ParamDef
  pub p_hops : ParamDef
  pub p_trans_id : ParamDef
  pub p_seconds : ParamDef
  pub p_flags : ParamDef
  pub p_client_addr : ParamDef
  pub p_your_client_addr : ParamDef
  pub p_next_server_addr : ParamDef
  pub p_relay_agent_addr : ParamDef
  pub p_client_hw_addr : ParamDef
  pub p_server_host_name : ParamDef
  pub p_boot_file_name : ParamDef
  pub p_magic_cookie : ParamDef
  pub p_options : ParamDef
  pub p_option : ParamDef
  pub p_opt_type : ParamDef
  pub p_opt_length : ParamDef
  pub p_opt_data : ParamDef

unfoldable pub set_up : (String → Class → ParamDef) → Dhcp
set_up define_param = record {
  p_msg_type = define_param "msg_type" Class.value;
  p_hw_type = define_param "hw_type" Class.value;
  p_hw_addr_len = define_param "hw_addr_len" Class.value;
  p_hops = define_param "hops" Class.value;
  p_trans_id = define_param "trans_id" Class.value;
  p_seconds = define_param "seconds" Class.value;
  p_flags = define_param "flags" Class.value;
  p_client_addr = define_param "client_addr" Class.value;
  p_your_client_addr = define_param "your_client_addr" Class.value;
  p_next_server_addr = define_param "next_server_addr" Class.value;
  p_relay_agent_addr = define_param "relay_agent_addr" Class.value;
  p_client_hw_addr = define_param "client_hw_addr" Class.value;
  p_server_host_name = define_param "server_host_name" Class.value;
  p_boot_file_name = define_param "boot_file_name" Class.value;
  p_magic_cookie = define_param "magic_cookie" Class.value;
  p_options = define_param "options" Class.array;
  p_option = define_param "_option" Class.dhcp_option;
  p_opt_type = define_param "_opt_type" Class.value;
  p_opt_length = define_param "_opt_length" Class.value;
  p_opt_data = define_param "_opt_data" Class.value;
}

-- `set` on the object of a pointer.
abbrev pub set_view : ℕ → ℕ → Object → Object
set_view off len o = record o { view = Value.set o.view off len big }

-- `set_type`, `set_length` and `set_data` of an option.
abbrev pub set_links : Handle → Handle → Handle → Object → Object
set_links v_type v_length v_data o = record o {
  type_link = to v_type;
  length_link = to v_length;
  data_link = to v_data;
}

-- `push` of an array.
abbrev pub push_item : Handle → Object → Object
push_item h o = record o { items = o.items ++ (h ∷ []) }

-- A field of the header: its parameter, offset and size, and the byte order it is set with.
abbrev pub Field : Type 0
Field = ParamDef × ℕ × ℕ × Endian

-- The fields that are set in every case, in the order of the calls. The size of the hardware
-- address is what the header says.
abbrev pub fixed_fields : Dhcp → ℕ → List Field
fixed_fields m hw_addr_len =
    (m.p_msg_type, 0, 1, big)
    ∷ (m.p_hw_type, 1, 1, big)
    ∷ (m.p_hw_addr_len, 2, 1, big)
    ∷ (m.p_hops, 3, 1, big)
    ∷ (m.p_trans_id, 4, 4, big)
    ∷ (m.p_flags, 10, 2, big)
    ∷ (m.p_client_addr, 12, 4, big)
    ∷ (m.p_your_client_addr, 16, 4, big)
    ∷ (m.p_next_server_addr, 20, 4, big)
    ∷ (m.p_relay_agent_addr, 24, 4, big)
    ∷ (m.p_magic_cookie, 236, 4, big)
    ∷ (m.p_seconds, 8, 2, little)
    ∷ (m.p_client_hw_addr, 28, hw_addr_len, big)
    ∷ []

-- Each name is set where it is not empty.
abbrev pub name_field : ℕ → Field → List Field
name_field c field = if c == 0 then [] else field ∷ []

-- One round of the loop over the options; true where it goes on.
abbrev pub Round : Type 0 → Type 0
Round Buf = Bool × Payload × Property Buf

module _ {Buf : Type 0} (m : Dhcp) (mem : Bytes) where
  unfoldable pub set_fields : ℕ → List Field → Property Buf → Outcome (Property Buf)
  set_fields hdr [] p = ok p
  set_fields hdr ((def, off, size, e) ∷ fields) p =
      set_value p def (hdr + off) size e >>= λ q. set_fields hdr fields q

  -- The values of one option, and the option at the end of the array.
  unfoldable pub put_option : Handle → ℕ → ℕ → ℕ → Property Buf → Outcome (Property Buf)
  put_option opt_arr opt_hdr len opt_data p = do
    let (option, p1) = retain_value p m.p_option
    let (v_type, p2) = retain_value p1 m.p_opt_type
    let (v_length, p3) = retain_value p2 m.p_opt_length
    let (v_data, p4) = retain_value p3 m.p_opt_data
    p5 ← alter (set_view opt_hdr 1) v_type p4
    p6 ← alter (set_view (opt_hdr + 1) 1) v_length p5
    p7 ← alter (set_view opt_data len) v_data p6
    p8 ← alter_as Class.dhcp_option (set_links v_type v_length v_data) option p7
    alter_as Class.array (push_item option) opt_arr p8

  unfoldable pub option_data :
      Handle → ℕ → ℕ → Property Buf → Option ℕ × Payload → Outcome (Round Buf)
  option_data opt_arr opt_hdr len p (none, pd) = ok (false, pd, p)
  option_data opt_arr opt_hdr len p (some opt_data, pd) =
      put_option opt_arr opt_hdr len opt_data p >>= λ q. ok (true, pd, q)

  unfoldable pub option_header : Handle → Property Buf → Option ℕ × Payload → Outcome (Round Buf)
  option_header opt_arr p (none, pd) = ok (false, pd, p)
  option_header opt_arr p (some opt_hdr, pd) = do
    opt ← load mem opt_hdr
    let rest : Outcome (Round Buf) =
        (load mem (opt_hdr + 1) >>= λ len.
        retain pd len >>= λ r. option_data opt_arr opt_hdr len p r)
    if opt == 0xff then ok (false, pd, p) else rest

  unfoldable pub round : Handle → Payload → Property Buf → Outcome (Round Buf)
  round opt_arr pd p = retain pd 2 >>= option_header opt_arr p

  -- On fuel. To run out of it is a fault, which Safety excludes.
  unfoldable pub options : ℕ → Handle → Payload → Property Buf → Outcome (Payload × Property Buf)
  options zero opt_arr pd p = fault
  options (suc fuel) opt_arr pd p = round opt_arr pd p >>= λ s.
      let rest = options fuel opt_arr s.1 s.2 in if s.0 then rest else ok (s.1, s.2)

  unfoldable pub decode_header : Property Buf → ℕ → Payload → Outcome (Decoded Buf)
  decode_header prop hdr pd = do
    hw_addr_len ← load mem (hdr + 2)
    host ← load mem (hdr + 44)
    boot ← load mem (hdr + 108)
    prop1 ← set_fields hdr (fixed_fields m hw_addr_len) prop
    prop2 ← set_fields hdr (name_field host (m.p_server_host_name, 44, 64, big)) prop1
    prop3 ← set_fields hdr (name_field boot (m.p_boot_file_name, 108, 128, big)) prop2
    let (opt_arr, prop4) = retain_value prop3 m.p_options
    (pd1, prop5) ← options (suc pd.length) opt_arr pd prop4
    ok (none, pd1, prop5)

  unfoldable pub decode : Payload → Property Buf → Outcome (Decoded Buf)
  decode pd prop = retain_or_stop pd prop 240 (decode_header prop)
