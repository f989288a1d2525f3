-- ===== src/NameService/Message/SetUp.antt =====
-- What the parameters of NameService in src/modules/utils.cc are, and what the search for the
-- next section of a message finds.
use Prim.Native.String.{String}
use packetmachine.Base.{
  ℕ, ◌+◌, ◌≤◌, ◌<◌, ◌≡◌, Option, none, some, List, [], ◌∷◌, leb, arith, All, Satisfies, Bool-cases,
  inl, inr,
}
use packetmachine.Property.{Property, Handle}
use packetmachine.Property.Objects.{Class, ParamDef}
use packetmachine.Property.Handles.{IsLive}
use packetmachine.Modules.Contract.{IsParam, IsParamOf}
use packetmachine.NameService.Message.{NameService, set_up, seek}

pub record IsSetUp (class : ℕ → Class) (m : NameService) : Type 0 where
  pub tx_id_param : IsParam class m.p_tx_id
  pub is_query_param : IsParam class m.p_is_query
  pub question_param : IsParamOf class Class.array m.p_question
  pub answer_param : IsParamOf class Class.array m.p_answer
  pub authority_param : IsParamOf class Class.array m.p_authority
  pub additional_param : IsParamOf class Class.array m.p_additional
  pub records_param : IsParamOf class Class.ns_record m.p_records
  pub name_param : IsParamOf class Class.ns_name m.p_name
  pub data_param : IsParamOf class Class.ns_data m.p_data
  pub type_param : IsParam class m.p_type

pub set_up-IsSetUp :
    (class : ℕ → Class) (define_param : String → Class → ParamDef) (define_event : String → ℕ)
    → ((name : String) (c : Class) → IsParamOf class c (define_param name c))
    → IsSetUp class (set_up define_param define_event)
unfolding set_up
set_up-IsSetUp class define_param define_event c = record {
  tx_id_param = (c "tx_id" Class.value).0;
  is_query_param = (c "is_query" Class.value).0;
  question_param = c "question" Class.array;
  answer_param = c "answer" Class.array;
  authority_param = c "authority" Class.array;
  additional_param = c "additional" Class.array;
  records_param = c "records" Class.ns_record;
  name_param = c "name" Class.ns_name;
  data_param = c "data" Class.ns_data;
  type_param = (c "type" Class.ns_type).0;
}

-- The counts that are left, all and the first.
abbrev pub total : List (ℕ × ParamDef) → ℕ
total [] = 0
total ((count, def) ∷ targets) = count + total targets

abbrev pub head_count : List (ℕ × ParamDef) → ℕ
head_count [] = 0
head_count ((count, def) ∷ targets) = count

abbrev pub arrays : Option Handle → List Handle
arrays none = []
arrays (some arr) = arr ∷ []

module _ (class : ℕ → Class) {Buf : Type 0} (p : Property Buf) where
  -- A pointer to an array.
  abbrev pub IsArray : Handle → Type 0
  IsArray h = IsLive p h × (class h.0 ≡ Class.array)

  -- The target has room for one more record.
  abbrev pub IsSought : ℕ → ℕ × ℕ × ParamDef × List (ℕ × ParamDef) × Option Handle → Type 0
  IsSought left (rr_c, count, def, targets, arr) =
      (rr_c < count)
      × (count + total targets ≡ rr_c + left)
      × IsParamOf class Class.array def
      × All (λ t. IsParamOf class Class.array t.1) targets
      × All IsArray (arrays arr)

  -- The assertion holds while records are left.
  pub seek-IsSought :
      (left rr_c : ℕ) (targets : List (ℕ × ParamDef)) (arr : Option Handle)
      → 0 < left
      → total targets ≡ rr_c + left
      → rr_c ≤ head_count targets
      → All (λ t. IsParamOf class Class.array t.1) targets
      → All IsArray (arrays arr)
      → Satisfies (IsSought left) (seek rr_c targets arr)
  unfolding seek
  seek-IsSought left rr_c [] arr pos sum le c live = absurd (omega (arith, pos, sum))
  seek-IsSought left rr_c ((count, def) ∷ targets) arr pos sum le c live =
      elim (Bool-cases (leb count rr_c)) [
        | inl e ↦
            let full : count ≡ rr_c = ground (arith, e, le) in
            rw e (
              seek-IsSought left 0 targets none pos (omega (arith, sum, full)) (omega arith) c.1 tt)
        | inr e ↦ rw e (ground (arith, e), sum, c.0, c.1, live)
      ]
