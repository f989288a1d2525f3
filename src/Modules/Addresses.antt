-- ===== src/Modules/Addresses.antt =====
-- The addresses that the modules of src/modules/ipv4.cc and src/modules/ipv6.cc set, which the module
-- for TCP compares.
use packetmachine.Base.{
  ℕ, ◌+◌, ◌-◌, ◌*◌, ◌%◌, ◌≤◌, ◌≡◌, ◌∙◌, ◌⊎◌, inl, inr, refl, sym, ap, Bool-cases, Option, none,
  some, arith, ltb, length, get_or, slice, length-slice, Bytes, load_lem, Satisfies, Satisfies->>=,
  Satisfies-weaken, Satisfies-both,
}
use packetmachine.Payload.{Payload, retain}
use packetmachine.Property.{Property, BufferOps, set_src_addr, set_dst_addr}
use packetmachine.Property.Objects.{Class, ParamDef, Object}
use packetmachine.Property.Pools.{Inv}
use packetmachine.Property.Write.{
  write, set_value, set_value_ptr, write-Inv, write-addresses, set_value-Inv,
}
use packetmachine.Modules.Header.{Decoded, or_stop}
use packetmachine.Modules.Contract.{
  IsReady, IsParam, IsHeader, be16_at, load_be16_lem, load_slice_lem, retain-IsHeader,
  set_src_addr-Inv, set_dst_addr-Inv,
}
use packetmachine.Modules.Ipv4.{Ipv4}
use packetmachine.Modules.Ipv4
use packetmachine.Modules.Ipv6.{Ipv6}
use packetmachine.Modules.Ipv6

-- A buffer of cpp-toolbox holds what has been set, after a `clear`.
unfoldable pub SetsAll : {Buf : Type 0} → BufferOps Buf → Type 0
SetsAll {Buf = Buf} tb = (b : Buf) (bytes : Bytes) → tb.contents (tb.set (tb.clear b) bytes) ≡ bytes

module _ {Buf : Type 0} (tb : BufferOps Buf) where
  -- The two addresses have one length.
  abbrev pub IsAlike : Property Buf → Type 0
  IsAlike p = length (tb.contents p.src_addr) ≡ length (tb.contents p.dst_addr)

module _ {Buf : Type 0} (tb : BufferOps Buf) (class : ℕ → Class) where
  abbrev pub Good : Property Buf → Type 0
  Good p = Inv class p × IsAlike tb p

  pub write-Good :
      (change : Object → Object) (p : Property Buf) (def : ParamDef)
      → ((o : Object) → (change o).class ≡ o.class)
      → Good p
      → IsParam class def
      → Satisfies Good (write change p def)
  write-Good change p def keeps g c =
      Satisfies-weaken (λ q. Inv class q × ((q.src_addr ≡ p.src_addr) × (q.dst_addr ≡ p.dst_addr)))
        Good _
        (λ q h. (
          h.0,
          ap (λ b. length (tb.contents b)) h.1.0
              ∙ g.1
              ∙ sym (ap (λ b. length (tb.contents b)) h.1.1),
        ))
        (Satisfies-both (Inv class) (λ q. (q.src_addr ≡ p.src_addr) × (q.dst_addr ≡ p.dst_addr)) _
          (write-Inv class change p def keeps g.0 c) (write-addresses class change p def g.0 c))

  -- No module follows, or the addresses are alike.
  abbrev pub EndsOrAlike : Decoded Buf → Type 0
  EndsOrAlike (next, pd, p) = (next ≡ none) ⊎ IsAlike tb p

module _ {Buf : Type 0} (tb : BufferOps Buf) (sets : SetsAll tb) (mem : Bytes) where
  set_addresses-IsAlike :
      (p : Property Buf) (at_src at_dst n : ℕ)
      → at_src + n ≤ length mem
      → at_dst + n ≤ length mem
      → IsAlike tb (set_dst_addr tb (set_src_addr tb p (slice mem at_src n)) (slice mem at_dst n))
  unfolding set_src_addr set_dst_addr SetsAll
  set_addresses-IsAlike p at_src at_dst n hs hd =
      ap length (sets p.src_addr (slice mem at_src n))
      ∙ (length-slice mem at_src n hs
          ∙ (sym (length-slice mem at_dst n hd)
              ∙ sym (ap length (sets p.dst_addr (slice mem at_dst n)))))

  pub ipv6-EndsOrAlike :
      (class : ℕ → Class) (m : Ipv6) (pd : Payload) (prop : Property Buf)
      → IsReady (length mem) pd
      → Satisfies (EndsOrAlike tb class) (Ipv6.decode tb m mem pd prop)
  unfolding Ipv6.decode Ipv6.decode_header
  ipv6-EndsOrAlike class m pd prop r =
      Satisfies->>= (IsHeader (length mem) 40) (EndsOrAlike tb class) (retain pd 40) _
        (retain-IsHeader (length mem) 40 pd r) (λ q h. by_header q h)
    where
      by_header :
          (q : Option ℕ × Payload)
          → IsHeader (length mem) 40 q
          → Satisfies (EndsOrAlike tb class) (or_stop prop (Ipv6.decode_header tb m mem prop) q)
      by_header (none, q) h = inl refl
      by_header (some hdr, q) h =
          rw
            (
              load_slice_lem mem (hdr + 8) 16 (omega (arith, h.0)),
              load_slice_lem mem (hdr + 24) 16 (omega (arith, h.0)),
              load_lem mem (hdr + 6) (omega (arith, h.0)),
            )
            (inr (
              set_addresses-IsAlike prop (hdr + 8) (hdr + 24) 16 (omega (arith, h.0))
                (omega (arith, h.0))))

module _ {Buf : Type 0} (tb : BufferOps Buf) (sets : SetsAll tb) (mem : Bytes) (class : ℕ → Class)
    (Next : Option ℕ → Type 0) (m : Ipv4) (w : Ipv4.IsSetUp class Next m) where
  ipv4_data :
      (hdr data_len : ℕ) (pd : Payload) (prop : Property Buf)
      → hdr + 20 ≤ length mem
      → Good tb class prop
      → Satisfies (EndsOrAlike tb class) (Ipv4.decode_data tb m mem hdr data_len pd prop)
  unfolding Ipv4.decode_data set_value
  ipv4_data hdr data_len pd prop h g =
      Satisfies->>= (Good tb class) (EndsOrAlike tb class) _ _
        (write-Good tb class _ prop m.p_data (λ o. refl) g w.data_param)
        (λ p1 g1. rw (load_lem mem (hdr + 9) (omega (arith, h))) (inr g1.1))

  ipv4_opt :
      (hdr data_len opt_len : ℕ) (prop : Property Buf) (out : Option ℕ × Payload)
      → hdr + 20 ≤ length mem
      → Good tb class prop
      → Satisfies (EndsOrAlike tb class) (Ipv4.decode_opt tb m mem hdr data_len opt_len prop out)
  unfolding Ipv4.decode_opt set_value_ptr
  ipv4_opt hdr data_len opt_len prop (opt, pd) h g =
      Satisfies->>= (Good tb class) (EndsOrAlike tb class) _ _
        (write-Good tb class _ prop m.p_opt (λ o. refl) g w.opt_param)
        (λ p1 g1. ipv4_data hdr data_len pd p1 h g1)

  ipv4_body :
      (hdr hdr_len total_len : ℕ) (pd : Payload) (prop : Property Buf)
      → hdr + 20 ≤ length mem
      → IsReady (length mem) pd
      → Inv class prop
      → Satisfies (EndsOrAlike tb class) (Ipv4.decode_body tb m mem hdr hdr_len total_len pd prop)
  unfolding Ipv4.decode_body set_value
  ipv4_body hdr hdr_len total_len pd prop h r v =
      Satisfies->>= (Inv class) (EndsOrAlike tb class) _ _
        (set_value-Inv class prop m.p_hdr hdr 20 _ v w.hdr_param)
        (λ p1 v1.
          rw
            (
              load_slice_lem mem (hdr + 12) 4 (omega (arith, h)),
              load_slice_lem mem (hdr + 16) 4 (omega (arith, h)),
            )
            (Satisfies->>= (Good tb class) (EndsOrAlike tb class) _ _
              (write-Good tb class _ _ m.p_src (λ o. refl)
                (
                  set_dst_addr-Inv _ (set_src_addr-Inv p1 v1 tb (slice mem (hdr + 12) 4)) tb
                      (slice mem (hdr + 16) 4),
                  set_addresses-IsAlike tb sets mem p1 (hdr + 12) (hdr + 16) 4 (omega (arith, h))
                      (omega (arith, h)),
                )
                w.src_param)
              (λ p2 g2.
                Satisfies->>= (Good tb class) (EndsOrAlike tb class) _ _
                  (write-Good tb class _ p2 m.p_dst (λ o. refl) g2 w.dst_param)
                  (λ p3 g3. elim (Bool-cases (ltb 20 hdr_len)) [
                    | inl e ↦ rw e (
                        Satisfies->>= (IsHeader (length mem) (hdr_len - 20)) (EndsOrAlike tb class)
                          (retain pd (hdr_len - 20)) _
                          (retain-IsHeader (length mem) (hdr_len - 20) pd r)
                          (λ out g. ipv4_opt hdr (total_len - hdr_len) (hdr_len - 20) p3 out h g3))
                    | inr e ↦ rw e (ipv4_data hdr (total_len - hdr_len) pd p3 h g3)
                  ]))))

  pub ipv4-EndsOrAlike :
      (pd : Payload) (prop : Property Buf)
      → IsReady (length mem) pd
      → Inv class prop
      → Satisfies (EndsOrAlike tb class) (Ipv4.decode tb m mem pd prop)
  unfolding Ipv4.decode Ipv4.decode_header
  ipv4-EndsOrAlike pd prop r v =
      Satisfies->>= (IsHeader (length mem) 20) (EndsOrAlike tb class) (retain pd 20) _
        (retain-IsHeader (length mem) 20 pd r) (λ q h. by_header q h)
    where
      by_header :
          (q : Option ℕ × Payload)
          → IsHeader (length mem) 20 q
          → Satisfies (EndsOrAlike tb class) (or_stop prop (Ipv4.decode_header tb m mem prop) q)
      by_header (none, q) h = inl refl
      by_header (some hdr, q) h =
          let hdr_len = get_or mem hdr 0 % 16 * 4 in
          let total_len = be16_at mem (hdr + 2) in
          rw
            (
              load_lem mem hdr (omega (arith, h.0)),
              load_be16_lem mem (hdr + 2) (omega (arith, h.0)),
            )
            (elim (Bool-cases (ltb total_len hdr_len)) [
              | inl e ↦ rw e (inl refl)
              | inr e ↦ rw e (ipv4_body hdr hdr_len total_len q prop h.0 h.1 v)
            ])
