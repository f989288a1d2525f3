-- ===== src/NameService/Message.antt =====
-- `NameService::ns_decode` of src/modules/utils.cc, which the modules for DNS and MDNS inherit: the
-- header of a message and its records.
pub mod Safety
pub mod SetUp
pub mod Records
use Prim.Native.Nat.{bit_and}
use Prim.Native.String.{String}
use packetmachine.Base.{
  ℕ, zero, suc, ◌+◌, ◌-◌, Bool, true, false, Option, none, some, List, [], ◌∷◌, ◌++◌, ltb, leb,
  ◌==◌, if◌then◌else◌, le_bytes, Outcome, ok, fault, ◌>>=◌, Bytes, load_be16,
}
use packetmachine.Payload.{Payload, retain}
use packetmachine.Value.{little, big}
use packetmachine.Value
use packetmachine.Property.{Property, Handle, retain_value, push_event}
use packetmachine.Property.Objects.{Class, ParamDef, Object, to}
use packetmachine.Property.Handles.{alter, alter_as}
use packetmachine.Property.Write.{set_value, cpy_value}
use packetmachine.Modules.Header.{Decoded, retain_or_stop}
use packetmachine.NameService.Label.{parse_label}

pub record NameService : Type 0 where
  pub p_tx_id : ParamDef
  pub p_is_query : ParamDef
  pub p_question : ParamDef
  pub p_answer : ParamDef
  pub p_authority : ParamDef
  pub p_additional : ParamDef
  pub p_records : ParamDef
  pub p_name : ParamDef
  pub p_data : ParamDef
  pub p_type : ParamDef
  pub ev_query : ℕ
  pub ev_reply : ℕ

unfoldable pub set_up : (String → Class → ParamDef) → (String → ℕ) → NameService
set_up define_param define_event = record {
  p_tx_id = define_param "tx_id" Class.value;
  p_is_query = define_param "is_query" Class.value;
  p_question = define_param "question" Class.array;
  p_answer = define_param "answer" Class.array;
  p_authority = define_param "authority" Class.array;
  p_additional = define_param "additional" Class.array;
  p_records = define_param "records" Class.ns_record;
  p_name = define_param "name" Class.ns_name;
  p_data = define_param "data" Class.ns_data;
  p_type = define_param "type" Class.ns_type;
  ev_query = define_event "query";
  ev_reply = define_event "reply";
}

-- `(ntohs(hdr->flags_) & NS_FLAG_MASK_QUERY) == 0`
unfoldable pub is_query : ℕ → Bool
is_query flags = bit_and flags 0x0080 == 0

-- The counts from `target` on, with the parameter of each, and the other variables of the loop.
pub record Cursor : Type 0 where
  pub rr_c : ℕ
  pub targets : List (ℕ × ParamDef)
  pub arr : Option Handle
  pub ptr : ℕ

-- `while (rr_c >= rr_count[target])`, with its assertion: the count and the parameter of the target
-- found, and what follows them.
unfoldable pub seek :
    ℕ
    → List (ℕ × ParamDef)
    → Option Handle
    → Outcome (ℕ × ℕ × ParamDef × List (ℕ × ParamDef) × Option Handle)
seek rr_c [] arr = fault
seek rr_c ((count, def) ∷ targets) arr =
    let rest = seek 0 targets none in
    if leb count rr_c then rest else ok (rr_c, count, def, targets, arr)

-- `set_name` and `set_type` of a record, `set_data` of it, and `push` of an array.
abbrev pub set_name_type : Handle → Handle → Object → Object
set_name_type v_name v_type o = record o { name_link = to v_name; type_link = to v_type }

abbrev pub set_data : Handle → Object → Object
set_data v_data o = record o { data_link = to v_data }

abbrev pub push_item : Handle → Object → Object
push_item h o = record o { items = o.items ++ (h ∷ []) }

-- `NSName::set_param`, `NSData::set_param` and `set` of a type.
abbrev pub set_name_param : (ptr len base total_len : ℕ) → Object → Object
set_name_param ptr len base total_len o = record o {
  view = Value.set o.view ptr len big;
  base_ptr = base;
  total_len = total_len;
}

abbrev pub set_data_param : (ptr len type base total_len : ℕ) → Object → Object
set_data_param ptr len type base total_len o = record o {
  view = Value.set o.view ptr len big;
  code_type = type;
  base_ptr = base;
  total_len = total_len;
}

abbrev pub set_type : ℕ → Object → Object
set_type ptr o = record o { view = Value.set o.view ptr 2 big }

-- What a round of the loop over the records comes to: the loop goes on from a pointer, or the
-- function returns; a `break` returns true.
pub data Next : Type 0 where
  return : Bool → Next
  continue : ℕ → Next

module _ {Buf : Type 0} (m : NameService) (mem : Bytes) (base total_len ep : ℕ) where
  -- The resource data of the record `rec` at `ptr`, whose type stands at `rr_hdr`.
  unfoldable pub resource : Handle → ℕ → ℕ → Property Buf → Outcome (Next × Property Buf)
  resource rec rr_hdr ptr p =
      let body : Outcome (Next × Property Buf) =
        (load_be16 mem (ptr + 4) >>= λ rd_len.
        let stored : Outcome (Next × Property Buf) =
          (load_be16 mem rr_hdr >>= λ type.
          let (v_data, p1) = retain_value p m.p_data in
          alter_as Class.ns_record (set_data v_data) rec p1 >>= λ p2.
          alter_as Class.ns_data (set_data_param (ptr + 6) rd_len type base total_len) v_data p2
          >>= λ p3. ok (continue (ptr + 6 + rd_len), p3)) in
        if ltb (ep - (ptr + 6)) rd_len then ok (return true, p) else stored) in
      if ltb (ep - ptr) 6 then ok (return true, p) else body

  -- What stands behind the name, where `answer` tells whether it has resource data.
  unfoldable pub after_name :
      Handle → Handle → Bool → Option ℕ → Property Buf → Outcome (Next × Property Buf)
  after_name rec v_type answer none p = ok (return true, p)
  after_name rec v_type answer (some ptr) p =
      let body : Outcome (Next × Property Buf) =
        (alter (set_type ptr) v_type p >>= λ q.
        if answer then resource rec ptr (ptr + 4) q else ok (continue (ptr + 4), q)) in
      if leb ep ptr
      then ok (return false, p)
      else if ltb (ep - ptr) 4
      then ok (return true, p)
      else body

  -- The array of the target, which the first record of the target retains.
  unfoldable pub array_of : Option Handle → ParamDef → Property Buf → Handle × Property Buf
  array_of none def p = retain_value p def
  array_of (some arr) def p = (arr, p)

  -- A new record at `ptr`, in the array `arr`.
  unfoldable pub new_record : Handle → Bool → ℕ → Property Buf → Outcome (Next × Property Buf)
  new_record arr answer ptr p =
      let (rec, p1) = retain_value p m.p_records in
      let (v_name, p2) = retain_value p1 m.p_name in
      let (v_type, p3) = retain_value p2 m.p_type in
      alter_as Class.ns_record (set_name_type v_name v_type) rec p3 >>= λ p4.
      alter_as Class.array (push_item rec) arr p4 >>= λ p5.
      alter_as Class.ns_name (set_name_param ptr (ep - ptr) base total_len) v_name p5 >>= λ p6.
      parse_label mem base total_len ptr (ep - ptr) false >>= λ r.
      after_name rec v_type answer r.0 p6

  unfoldable pub after_record :
      (ℕ → Property Buf → Outcome (Bool × Property Buf))
      → Next × Property Buf
      → Outcome (Bool × Property Buf)
  after_record rest (return result, p) = ok (result, p)
  after_record rest (continue ptr, p) = rest ptr p

  -- The loop over the `left` records from `c` on; `qd` is the count of the questions.
  unfoldable pub records : (left c qd : ℕ) → Cursor → Property Buf → Outcome (Bool × Property Buf)
  records zero c qd cur p = ok (true, p)
  records (suc left) c qd cur p = seek cur.rr_c cur.targets cur.arr >>= λ s.
      let a = array_of s.4 s.2 p in
      let body : Outcome (Bool × Property Buf) =
        (new_record a.0 (leb qd c) cur.ptr a.1
          >>= after_record (λ ptr q.
            records left (c + 1) qd
              (record { rr_c = s.0 + 1; targets = (s.1, s.2) ∷ s.3; arr = some a.0; ptr = ptr })
              q)) in
      if leb ep cur.ptr then ok (false, p) else body

module _ {Buf : Type 0} (m : NameService) (mem : Bytes) where
  unfoldable pub decode_body :
      Property Buf → (hdr total_len : ℕ) → ℕ → Outcome (Bool × Property Buf)
  decode_body prop hdr total_len ptr = do
    qd ← load_be16 mem (hdr + 4)
    an ← load_be16 mem (hdr + 6)
    ns ← load_be16 mem (hdr + 8)
    ar ← load_be16 mem (hdr + 10)
    flags ← load_be16 mem (hdr + 2)
    prop1 ← set_value prop m.p_tx_id hdr 2 big
    let ev = if is_query flags then m.ev_query else m.ev_reply
    let is_q = if is_query flags then 1 else 0
    prop2 ← cpy_value (push_event prop1 ev) m.p_is_query (le_bytes 4 is_q) little
    records m mem hdr total_len (hdr + 12 + total_len) (qd + an + ns + ar) 0 qd
        (record {
          rr_c = 0;
          targets =
              (qd, m.p_question)
              ∷ (an, m.p_answer)
              ∷ (ns, m.p_authority)
              ∷ (ar, m.p_additional)
              ∷ [];
          arr = none;
          ptr = ptr;
        })
        prop2

  -- `retain` of all that is left, with the assertion, and `decode`: the result of `ns_decode` is
  -- not used.
  unfoldable pub decode_header : Property Buf → ℕ → Payload → Outcome (Decoded Buf)
  decode_header prop hdr pd = retain pd pd.length >>= λ r. elim r.0 [
    | none ↦ fault
    | some ptr ↦ decode_body prop hdr pd.length ptr >>= λ d. ok (none, r.1, d.1)
  ]

  unfoldable pub decode : Payload → Property Buf → Outcome (Decoded Buf)
  decode pd prop = retain_or_stop pd prop 12 (decode_header prop)
