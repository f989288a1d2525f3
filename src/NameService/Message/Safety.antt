-- ===== src/NameService/Message/Safety.antt =====
-- `NameService::decode` of src/modules/utils.cc ends and stays inside the packet, whatever counts
-- and pointers a message has.
use packetmachine.Base.{
  ℕ, ◌+◌, ◌≤◌, ◌≡◌, Option, none, some, arith, length, ok, fault, ◌>>=◌, Bytes, Satisfies,
  Satisfies->>=,
}
use packetmachine.Payload.{Payload, retain}
use packetmachine.Payload.Bounds.{Retains}
use packetmachine.Value.{little, big}
use packetmachine.Property.{Property}
use packetmachine.Property.Objects.{Class}
use packetmachine.Property.Pools.{Inv}
use packetmachine.Property.Write.{set_value-Inv, cpy_value-Inv}
use packetmachine.Modules.Contract.{IsReady, IsGood, load_be16_lem, retain-IsReady, push_event-Inv}
use packetmachine.Modules.Header.{Decoded, or_stop}
use packetmachine.NameService.Message.{NameService, decode_body, decode_header, decode}
use packetmachine.NameService.Message.Records.{records-Inv}
use packetmachine.NameService.Message.SetUp.{IsSetUp}

module _ (class : ℕ → Class) (m : NameService) (w : IsSetUp class m) {Buf : Type 0}
    (mem : Bytes) where
  decode_body-Inv :
      (prop : Property Buf) (hdr total_len ptr : ℕ)
      → Inv class prop
      → hdr + 12 + total_len ≤ length mem
      → Satisfies (λ r. Inv class r.1) (decode_body m mem prop hdr total_len ptr)
  unfolding decode_body
  decode_body-Inv prop hdr total_len ptr v h =
      rw
        (
          load_be16_lem mem (hdr + 2) (omega arith),
          load_be16_lem mem (hdr + 4) (omega arith),
          load_be16_lem mem (hdr + 6) (omega arith),
          load_be16_lem mem (hdr + 8) (omega arith),
          load_be16_lem mem (hdr + 10) (omega arith),
        )
        (Satisfies->>= (Inv class) (λ r. Inv class r.1) _ _
          (set_value-Inv class prop m.p_tx_id hdr 2 big v w.tx_id_param)
          (λ p1 v1.
            Satisfies->>= (Inv class) (λ r. Inv class r.1) _ _
              (cpy_value-Inv class _ m.p_is_query _ little (push_event-Inv p1 v1 _)
                w.is_query_param)
              (λ p2 v2.
                records-Inv class m w mem hdr total_len (hdr + 12 + total_len) h (omega arith) _ 0 _
                  _ p2 (omega arith) (omega arith)
                  (
                    w.question_param,
                    (w.answer_param, (w.authority_param, (w.additional_param, tt))),
                  )
                  tt v2)))

  -- Over every packet the modules for DNS and MDNS end with NONE as the next module: the loop over
  -- the records never runs past the four counts, every name is read by `parse_label` inside of the
  -- packet, no pointer to a value that was retained goes stale, no `dynamic_cast` gives null, no
  -- assertion fails, and the cursor and the property stay good. This where the parameters have the
  -- constructors of their ids, and the arrays, records, names and data those of their classes.
  pub decode_message-IsGood :
      (Follows : Option ℕ → Type 0) (pd : Payload) (prop : Property Buf)
      → Follows none
      → IsReady (length mem) pd
      → Inv class prop
      → Satisfies (IsGood class (length mem) Follows) (decode m mem pd prop)
  unfolding decode decode_header
  decode_message-IsGood Follows pd prop stop r v =
      Satisfies->>= (λ q. Retains (length mem) pd 12 q × IsReady (length mem) q.1)
        (IsGood class (length mem) Follows) (retain pd 12) _ (retain-IsReady (length mem) 12 pd r)
        (λ q h. by_header q h.0 h.1)
    where
      G : Decoded Buf → Type 0
      G = IsGood class (length mem) Follows

      by_rest :
          (hdr : ℕ) (pd' : Payload) (q : Option ℕ × Payload)
          → pd'.ptr ≡ hdr + 12
          → Retains (length mem) pd' pd'.length q
          → IsReady (length mem) q.1
          → Satisfies G (elim q.0 [
            | none ↦ fault
            | some ptr ↦ decode_body m mem prop hdr pd'.length ptr >>= λ d. ok (none, q.1, d.1)
          ])
      by_rest hdr pd' (none, q) at h ready = absurd (omega (arith, h.0))
      by_rest hdr pd' (some ptr, q) at h ready =
          Satisfies->>= (λ x. Inv class x.1) G _ _
            (decode_body-Inv prop hdr pd'.length ptr v (omega (arith, at, h.1, h.2)))
            (λ x u. record { next = stop; ready = ready; inv = u })

      by_header :
          (q : Option ℕ × Payload)
          → Retains (length mem) pd 12 q
          → IsReady (length mem) q.1
          → Satisfies G (or_stop prop (decode_header m mem prop) q)
      by_header (none, q) h ready = record { next = stop; ready = ready; inv = v }
      by_header (some hdr, q) h ready =
          Satisfies->>= (λ x. Retains (length mem) q q.length x × IsReady (length mem) x.1) G
            (retain q q.length) _ (retain-IsReady (length mem) q.length q ready)
            (λ x k. by_rest hdr q x h.3 k.0 k.1)
