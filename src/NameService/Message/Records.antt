-- ===== src/NameService/Message/Records.antt =====
-- The loop over the records of a message in `NameService::decode` of src/modules/utils.cc.
use packetmachine.Base.{
  ℕ, zero, suc, ◌+◌, ◌-◌, ◌≤◌, ◌<◌, ◌≡◌, refl, Bool, true, false, Option, none, some, List, [], ◌∷◌,
  ltb, leb, if◌then◌else◌, arith, All, length, Outcome, ok, throw, fault, ◌>>=◌, Bytes, Satisfies,
  Satisfies->>=, Bool-cases, inl, inr,
}
use packetmachine.Property.{Property, Handle, retain_value}
use packetmachine.Property.Objects.{Class, ParamDef}
use packetmachine.Property.Pools.{Inv}
use packetmachine.Property.Handles.{
  alter, Keeps, retain_value-Keeps, alter-Keeps, alter_as, alter_as-Keeps, retain_value-class,
}
use packetmachine.Modules.Contract.{IsParamOf, be16_at, load_be16_lem}
use packetmachine.NameService.Label.{parse_label}
use packetmachine.NameService.Label.Bounds.{Returns, parse_label-Returns}
use packetmachine.NameService.Message.{
  NameService, Cursor, set_name_type, set_data, push_item, set_name_param, set_data_param, set_type,
  Next, return, continue, resource, after_name, array_of, new_record, after_record, records,
}
use packetmachine.NameService.Message.SetUp.{
  IsSetUp, total, head_count, arrays, IsSought, seek-IsSought, IsArray,
}

name_returns :
    (mem : Bytes) (base total_len ep ptr : ℕ)
    → ep ≤ length mem
    → base + total_len ≤ length mem
    → ptr < ep
    → Satisfies (λ r. Unit {0}) (parse_label mem base total_len ptr (ep - ptr) false)
name_returns mem base total_len ep ptr inside message lt = any _ (
    parse_label-Returns mem ptr (ep - ptr) base total_len false (omega (arith, lt, inside)) message)
  where
    any :
        (r : Outcome (Option ℕ × Option Bytes))
        → Returns ptr (ptr + (ep - ptr)) r
        → Satisfies (λ r. Unit {0}) r
    any (ok r) h = tt
    any (throw e) h = h
    any fault h = h

module _ (class : ℕ → Class) (m : NameService) (w : IsSetUp class m) {Buf : Type 0} (mem : Bytes)
    (base total_len ep : ℕ) (inside : ep ≤ length mem)
    (message : base + total_len ≤ length mem) where
  -- A round leaves the array of the target live.
  abbrev IsNext : Handle → Next × Property Buf → Type 0
  IsNext arr (next, p) = Keeps class (arr ∷ []) p

  resource-IsNext :
      (arr v_type v_name rec : Handle) (rr_hdr ptr : ℕ) (p : Property Buf)
      → rr_hdr + 2 ≤ length mem
      → class rec.0 ≡ Class.ns_record
      → Keeps class (v_type ∷ v_name ∷ rec ∷ arr ∷ []) p
      → Satisfies (IsNext arr) (resource m mem base total_len ep rec rr_hdr ptr p)
  unfolding resource
  resource-IsNext arr v_type v_name rec rr_hdr ptr p h typed k =
      elim (Bool-cases (ltb (ep - ptr) 6)) [
        | inl e ↦ rw e (k.0, k.1.1.1.1)
        | inr e ↦
            rw
              (
                e,
                load_be16_lem mem (ptr + 4) (fits (ground (arith, e))),
                load_be16_lem mem rr_hdr h,
              )
              (stored (ltb (ep - (ptr + 6)) (be16_at mem (ptr + 4))))
      ]
    where
      fits : 6 ≤ ep - ptr → ptr + 4 + 2 ≤ length mem
      fits e = omega (arith, e, inside)

      d : Handle × Property Buf
      d = retain_value p m.p_data

      all : List Handle
      all = d.0 ∷ v_type ∷ v_name ∷ rec ∷ arr ∷ []

      stored :
          (b : Bool)
          → Satisfies (IsNext arr) (
              if b
              then ok (return true, p)
              else alter_as Class.ns_record (set_data d.0) rec d.1 >>= λ p2.
                  alter_as Class.ns_data
                    (set_data_param
                      (ptr + 6)
                      (be16_at mem (ptr + 4))
                      (be16_at mem rr_hdr)
                      base
                      total_len)
                    d.0
                    p2
                  >>= λ p3. ok (continue (ptr + 6 + be16_at mem (ptr + 4)), p3))
      stored true = (k.0, k.1.1.1.1)
      stored false =
          let k1 =
            retain_value-Keeps class (v_type ∷ v_name ∷ rec ∷ arr ∷ []) p m.p_data k
              w.data_param.0 in
          Satisfies->>= (Keeps class all) (IsNext arr) _ _
            (alter_as-Keeps class all d.1 Class.ns_record (set_data d.0) rec (λ o. refl) typed
              k1.1.1.1.1.0 k1)
            (λ p2 k2.
              Satisfies->>= (Keeps class all) (IsNext arr) _ _
                (alter_as-Keeps class all p2 Class.ns_data _ d.0 (λ o. refl)
                  (retain_value-class class p m.p_data Class.ns_data w.data_param.0 w.data_param.1)
                  k2.1.0 k2)
                (λ p3 k3. (k3.0, k3.1.1.1.1.1)))

  after_name-IsNext :
      (arr v_type v_name rec : Handle) (answer : Bool) (at : Option ℕ) (p : Property Buf)
      → class rec.0 ≡ Class.ns_record
      → Keeps class (v_type ∷ v_name ∷ rec ∷ arr ∷ []) p
      → Satisfies (IsNext arr) (after_name m mem base total_len ep rec v_type answer at p)
  unfolding after_name
  after_name-IsNext arr v_type v_name rec answer none p typed k = (k.0, k.1.1.1.1)
  after_name-IsNext arr v_type v_name rec answer (some ptr) p typed k =
      elim (Bool-cases (leb ep ptr)) [
        | inl e ↦ rw e (k.0, k.1.1.1.1)
        | inr e ↦ rw e (elim (Bool-cases (ltb (ep - ptr) 4)) [
          | inl f ↦ rw f (k.0, k.1.1.1.1)
          | inr f ↦ rw f (with_type (ground (arith, f)))
        ])
      ]
    where
      all : List Handle
      all = v_type ∷ v_name ∷ rec ∷ arr ∷ []

      with_type :
          4 ≤ ep - ptr
          → Satisfies (IsNext arr) (
              alter (set_type ptr) v_type p >>= λ q.
              if answer
              then resource m mem base total_len ep rec ptr (ptr + 4) q
              else ok (continue (ptr + 4), q))
      with_type f =
          Satisfies->>= (Keeps class all) (IsNext arr) _ _
            (alter-Keeps class all p (set_type ptr) v_type (λ o. refl) k.1.0 k)
            (λ q u. by_kind q u answer)
        where
          by_kind :
              (q : Property Buf)
              → Keeps class all q
              → (b : Bool)
              → Satisfies (IsNext arr) (
                  if b
                  then resource m mem base total_len ep rec ptr (ptr + 4) q
                  else ok (continue (ptr + 4), q))
          by_kind q u true =
              resource-IsNext arr v_type v_name rec ptr (ptr + 4) q (omega (arith, f, inside)) typed
                u
          by_kind q u false = (u.0, u.1.1.1.1)

  new_record-IsNext :
      (arr : Handle) (answer : Bool) (ptr : ℕ) (p : Property Buf)
      → ptr < ep
      → class arr.0 ≡ Class.array
      → Keeps class (arr ∷ []) p
      → Satisfies (IsNext arr) (new_record m mem base total_len ep arr answer ptr p)
  unfolding new_record
  new_record-IsNext arr answer ptr p lt is_array k =
      let rec = retain_value p m.p_records in
      let v_name = retain_value rec.1 m.p_name in
      let v_type = retain_value v_name.1 m.p_type in
      let all : List Handle = v_type.0 ∷ v_name.0 ∷ rec.0 ∷ arr ∷ [] in
      let k1 = retain_value-Keeps class (arr ∷ []) p m.p_records k w.records_param.0 in
      let k2 = retain_value-Keeps class (rec.0 ∷ arr ∷ []) rec.1 m.p_name k1 w.name_param.0 in
      let k3 =
        retain_value-Keeps class (v_name.0 ∷ rec.0 ∷ arr ∷ []) v_name.1 m.p_type k2 w.type_param in
      let is_record =
        retain_value-class class p m.p_records Class.ns_record w.records_param.0
          w.records_param.1 in
      let is_name =
        retain_value-class class rec.1 m.p_name Class.ns_name w.name_param.0 w.name_param.1 in
      Satisfies->>= (Keeps class all) (IsNext arr) _ _
        (alter_as-Keeps class all v_type.1 Class.ns_record (set_name_type v_name.0 v_type.0) rec.0
          (λ o. refl) is_record k3.1.1.1.0 k3)
        (λ p4 k4.
          Satisfies->>= (Keeps class all) (IsNext arr) _ _
            (alter_as-Keeps class all p4 Class.array (push_item rec.0) arr (λ o. refl) is_array
              k4.1.1.1.1.0 k4)
            (λ p5 k5.
              Satisfies->>= (Keeps class all) (IsNext arr) _ _
                (alter_as-Keeps class all p5 Class.ns_name
                  (set_name_param ptr (ep - ptr) base total_len) v_name.0 (λ o. refl) is_name
                  k5.1.1.0 k5)
                (λ p6 k6.
                  Satisfies->>= (λ r. Unit {0}) (IsNext arr) _ _
                    (name_returns mem base total_len ep ptr inside message lt)
                    (λ r u.
                      after_name-IsNext arr v_type.0 v_name.0 rec.0 answer r.0 p6 is_record k6))))

  array_of-Keeps :
      (o : Option Handle) (def : ParamDef) (p : Property Buf)
      → Inv class p
      → All (IsArray class p) (arrays o)
      → IsParamOf class Class.array def
      → let a = array_of m mem base total_len ep o def p in
        Keeps class (a.0 ∷ []) a.1 × (class a.0.0 ≡ Class.array)
  unfolding array_of
  array_of-Keeps none def p v live c = (
    retain_value-Keeps class [] p def (v, tt) c.0,
    retain_value-class class p def Class.array c.0 c.1,
  )
  array_of-Keeps (some arr) def p v live c = ((v, (live.0.0, tt)), live.0.1)

  after_record-Inv :
      (arr : Handle) (rest : ℕ → Property Buf → Outcome (Bool × Property Buf))
      (r : Next × Property Buf)
      → IsNext arr r
      → ((ptr : ℕ) (q : Property Buf)
          → Keeps class (arr ∷ []) q
          → Satisfies (λ x. Inv class x.1) (rest ptr q))
      → Satisfies (λ x. Inv class x.1) (after_record m mem base total_len ep rest r)
  unfolding after_record
  after_record-Inv arr rest (return result, q) k go = k.0
  after_record-Inv arr rest (continue ptr, q) k go = go ptr q k

  -- The loop over the records.
  pub records-Inv :
      (left c qd : ℕ) (cur : Cursor) (p : Property Buf)
      → total cur.targets ≡ cur.rr_c + left
      → cur.rr_c ≤ head_count cur.targets
      → All (λ t. IsParamOf class Class.array t.1) cur.targets
      → All (IsArray class p) (arrays cur.arr)
      → Inv class p
      → Satisfies (λ r. Inv class r.1) (records m mem base total_len ep left c qd cur p)
  unfolding records
  records-Inv zero c qd cur p sum le params live v = v
  records-Inv (suc left) c qd cur p sum le params live v =
      Satisfies->>= (IsSought class p (suc left)) (λ r. Inv class r.1) _ _
        (seek-IsSought class p (suc left) cur.rr_c cur.targets cur.arr (omega arith) sum le params
          live)
        (λ s h. elim (Bool-cases (leb ep cur.ptr)) [
          | inl e ↦ rw e v
          | inr e ↦ rw e (
              Satisfies->>= (IsNext (array_of m mem base total_len ep s.4 s.2 p).0)
                (λ r. Inv class r.1) _ _
                (new_record-IsNext _ (leb qd c) cur.ptr _ (ground (arith, e))
                  (array_of-Keeps s.4 s.2 p v h.4 h.2).1 (array_of-Keeps s.4 s.2 p v h.4 h.2).0)
                (λ r k. after_record-Inv _ _ r k (λ ptr q u.
                  records-Inv left (c + 1) qd _ q (omega (arith, h.1)) (omega (arith, h.0))
                    (h.2, h.3) ((u.1.0, (array_of-Keeps s.4 s.2 p v h.4 h.2).1), tt) u.0)))
        ])
