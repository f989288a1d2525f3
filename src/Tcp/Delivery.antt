-- ===== src/Tcp/Delivery.antt =====
-- `decode` of TCP::Session in src/modules/tcp.cc, for segments that come out of order: what the
-- session delivers once the missing one has come.
use mathlib.Core.List.{append-nil}
use packetmachine.Base.{
  ℕ, suc, ◌+◌, ◌≤◌, ◌<◌, ◌≡◌, ◌≢◌, ◌∙◌, sym, ap, subst, true, false, none, List, [], ◌∷◌, ◌++◌,
  arith, ◌==◌, length, ok, ◌>>=◌, Satisfies, Satisfies->>=, Satisfies-weaken,
}
use packetmachine.Property.{Property, BufferOps}
use packetmachine.Property.Objects.{Class}
use packetmachine.Property.Pools.{Inv}
use packetmachine.Tcp.Stream.{Stream, u32, send, to_rel_seq, in_window}
use packetmachine.Tcp.SegMap.{find, store, erase, stored, stored-erase, find-store, find-store_new}
use packetmachine.Tcp.Session.{Side, established, Timeval, Segment, Session, stream, sender_of}
use packetmachine.Tcp.State.{has_fin}
use packetmachine.Tcp.Decode.{Defs, BufferMake, Arrival, hold, decode_stream, decode}
use packetmachine.Tcp.Termination.{IsDefined, report-Keeps}
use packetmachine.Tcp.Intake.{IsBuffer, all, held, Follows, stream-buf}
use packetmachine.Tcp.Reassembly.{Follows-erase, Delivered, decode_stream-Delivered}

module _ {Buf : Type 0} (tb : BufferOps Buf) where
  -- The fuel is enough: what follows is stored.
  Follows-stored :
      (st : Stream) (map : List (ℕ × List (Segment Buf))) (n : ℕ) (segs : List (Segment Buf))
      → Follows tb st map n segs
      → length segs ≤ stored map
  Follows-stored st map n [] h = omega arith
  Follows-stored st map n (seg ∷ segs) h = omega (
    arith,
    stored-erase map n (seg ∷ []) h.0,
    Follows-stored st (erase map n) (n + length (tb.contents seg.buf)) segs (
        Follows-erase tb st map n (n + length (tb.contents seg.buf)) segs (omega (arith, h.3)) h.4),
  )

module _ {Buf : Type 0} (class : ℕ → Class) (tb : BufferOps Buf) (mk : BufferMake Buf)
    (laws : IsBuffer tb mk) (m : Defs) (w : IsDefined class m) (tv : Timeval) (sender : Side) where
  -- The segment that was missing arrives in an established session, and `seg` and `segs` are
  -- stored behind it, each with some data and no FIN, up to a gap: `decode` ends with a result in
  -- which the buffer of the session holds the bytes of the segment and then those of every stored
  -- one, in the order of their numbers, and the sender's next number is behind all of them. What
  -- the parameter TCP.data shows is not stated. This where the parameters have the constructors of
  -- their ids, the numbers do not pass 2^32, and the buffers append.
  pub decode-reassembled :
      (seg : Segment Buf) (segs : List (Segment Buf)) (n : ℕ) (a : Arrival) (p : Property Buf)
      (s : Session Buf)
      → Inv class p
      → sender_of tb s p ≡ sender
      → s.status ≡ established
      → has_fin a.flags ≡ false
      → (stream s sender).has_base_seq ≡ true
      → (stream s sender).next_seq ≡ n
      → to_rel_seq (stream s sender) a.seq ≡ n
      → 0 < length a.bytes
      → n + length a.bytes + length (all tb (seg ∷ segs)) < u32
      → Follows tb (stream s sender) s.seg_map (n + length a.bytes) (seg ∷ segs)
      → Satisfies
          (Delivered class tb mk laws m w tv sender
            (n + length a.bytes + length (all tb (seg ∷ segs)))
            (a.bytes ++ all tb (seg ∷ segs)))
          (decode tb mk m tv a p s)
  unfolding decode
  decode-reassembled seg segs n a p s v from e nofin based next rel pos small follows = rw from (
      Satisfies->>= D D _ _
        (decode_stream-Delivered class tb mk laws m w tv sender (suc (stored s.seg_map))
          (seg ∷ segs) n a p (record s { buf = none })
          (omega (
            arith,
            Follows-stored tb (stream s sender) s.seg_map (n + length a.bytes) (seg ∷ segs) follows,
          ))
          v e nofin (ap Stream.has_base_seq same ∙ based) (ap Stream.next_seq same ∙ next)
          (ap (λ t. to_rel_seq t a.seq) same ∙ rel) pos small
          (subst (λ t. Follows tb t s.seg_map (n + length a.bytes) (seg ∷ segs)) (sym same)
            follows))
        (λ x h.
          Satisfies-weaken (λ y. Inv class y.0 × (y.1 ≡ x.1)) D _
            (λ y k. (
              k.0,
              ap Session.status k.1 ∙ h.1,
              ap (λ r. held tb r.buf) k.1 ∙ h.2,
              ap (λ r. (stream r sender).next_seq) k.1 ∙ h.3,
            ))
            (report-Keeps class tb mk m w tv x.0 x.1 h.0)))
    where
      D : Property Buf × Session Buf → Type 0
      D =
          Delivered class tb mk laws m w tv sender
            (n + length a.bytes + length (all tb (seg ∷ segs))) (a.bytes ++ all tb (seg ∷ segs))

      same : stream (record s { buf = none }) sender ≡ stream s sender
      same = stream-buf s sender none s.seg_map

  pub decode_stream-hold :
      (fuel : ℕ) (a : Arrival) (p : Property Buf) (s : Session Buf)
      → (stream s sender).has_base_seq ≡ true
      → to_rel_seq (stream s sender) a.seq ≢ (stream s sender).next_seq
      → decode_stream tb mk m tv sender (suc fuel) a (p, s) ≡ ok (p, hold tb mk m tv sender s a)
  unfolding decode_stream send
  decode_stream-hold fuel a p s based early =
      let e : ((stream s sender).next_seq == to_rel_seq (stream s sender) a.seq) ≡ false =
        ground arith in
      rw (based, e)

  segment : Arrival → Segment Buf
  segment b = record { seq = b.seq; flags = b.flags; buf = mk.append mk.empty b.bytes }

  segment-contents : (b : Arrival) → tb.contents (segment b).buf ≡ b.bytes
  unfolding segment
  segment-contents b =
      laws.contents_append mk.empty b.bytes ∙ ap (λ l. l ++ b.bytes) laws.contents_empty

  -- The session after a segment that came too early.
  waiting : Arrival → Session Buf → Session Buf
  waiting b s = record s {
    buf = none;
    seg_map = store s.seg_map (to_rel_seq (stream s sender) b.seq) (segment b);
  }

  decode-waiting :
      (b : Arrival) (q : Property Buf) (s : Session Buf)
      → Inv class q
      → sender_of tb s q ≡ sender
      → (stream s sender).has_base_seq ≡ true
      → to_rel_seq (stream s sender) b.seq ≢ (stream s sender).next_seq
      → Satisfies (λ x. Inv class x.0 × (x.1 ≡ waiting b s)) (decode tb mk m tv b q s)
  unfolding decode waiting segment hold in_window
  decode-waiting b q s v from based early =
      let same = stream-buf s sender none s.seg_map in
      rw
        (
          from,
          decode_stream-hold (stored s.seg_map) b q (record s { buf = none })
              (ap Stream.has_base_seq same ∙ based)
              (λ e. early (sym (ap (λ t. to_rel_seq t b.seq) same) ∙ e ∙ ap Stream.next_seq same)),
        )
        (Satisfies-weaken
          (λ y. Inv class y.0 × (y.1 ≡ hold tb mk m tv sender (record s { buf = none }) b))
          (λ y. Inv class y.0 × (y.1 ≡ waiting b s)) _
          (λ x k. (
            k.0,
            k.1
                ∙ ap
                    (λ t. record s {
                      buf = none;
                      seg_map = store s.seg_map (to_rel_seq t b.seq) (segment b);
                    })
                    same,
          ))
          (report-Keeps class tb mk m w tv q _ v))

  -- Two segments of an established session in the wrong order, each with some data and no FIN: the
  -- second is kept, and when the first has come the buffer of the session holds the bytes of the
  -- first and then those of the second, and the sender's next number is behind both. This where
  -- nothing is stored under the numbers behind the two, and else as above.
  pub decode-swapped :
      (n : ℕ) (a b : Arrival) (p q : Property Buf) (s : Session Buf)
      → Inv class p
      → Inv class q
      → sender_of tb s p ≡ sender
      → sender_of tb s q ≡ sender
      → s.status ≡ established
      → has_fin a.flags ≡ false
      → has_fin b.flags ≡ false
      → (stream s sender).has_base_seq ≡ true
      → (stream s sender).next_seq ≡ n
      → to_rel_seq (stream s sender) a.seq ≡ n
      → to_rel_seq (stream s sender) b.seq ≡ n + length a.bytes
      → 0 < length a.bytes
      → 0 < length b.bytes
      → n + length a.bytes + length b.bytes < u32
      → find s.seg_map (n + length a.bytes) ≡ none
      → find s.seg_map (n + length a.bytes + length b.bytes) ≡ none
      → Satisfies
          (Delivered class tb mk laws m w tv sender
            (n + length a.bytes + length b.bytes)
            (a.bytes ++ b.bytes))
          (decode tb mk m tv b q s >>= λ x. decode tb mk m tv a p x.1)
  unfolding segment waiting sender_of
  decode-swapped n a b p q s v u from_p from_q e nofin_a nofin_b based next rel_a rel_b pos_a pos_b
        small free end =
      Satisfies->>= (λ x. Inv class x.0 × (x.1 ≡ waiting b s))
        (Delivered class tb mk laws m w tv sender (n + length a.bytes + length b.bytes)
          (a.bytes ++ b.bytes))
        _ _
        (decode-waiting b q s u from_q based (λ c. absurd (omega (arith, c, next, rel_b, pos_a))))
        (λ x h.
          subst
            (λ r.
              Satisfies
                (Delivered class tb mk laws m w tv sender (n + length a.bytes + length b.bytes)
                  (a.bytes ++ b.bytes))
                (decode tb mk m tv a p r))
            (sym h.1)
            (subst
              (λ bytes.
                Satisfies
                  (Delivered class tb mk laws m w tv sender (n + length a.bytes + length bytes)
                    (a.bytes ++ bytes))
                  (decode tb mk m tv a p (waiting b s)))
              delivered
              (decode-reassembled (segment b) [] n a p (waiting b s) v from_p e nofin_a
                (ap Stream.has_base_seq same ∙ based) (ap Stream.next_seq same ∙ next)
                (ap (λ t. to_rel_seq t a.seq) same ∙ rel_a) pos_a
                (omega (arith, small, ap length delivered)) follows)))
    where
      same : stream (waiting b s) sender ≡ stream s sender
      same =
          stream-buf s sender none
            (store s.seg_map (to_rel_seq (stream s sender) b.seq) (segment b))

      delivered : all tb (segment b ∷ []) ≡ b.bytes
      delivered = append-nil (tb.contents (segment b).buf) ∙ segment-contents b

      kept : (waiting b s).seg_map ≡ store s.seg_map (n + length a.bytes) (segment b)
      kept = ap (λ key. store s.seg_map key (segment b)) rel_b

      follows :
          Follows tb
            (stream (waiting b s) sender)
            (waiting b s).seg_map
            (n + length a.bytes)
            (segment b ∷ [])
      follows =
          let size : length (tb.contents (segment b).buf) ≡ length b.bytes =
            ap length (segment-contents b) in
          (
            ap (λ l. find l (n + length a.bytes)) kept
                ∙ find-store_new s.seg_map (n + length a.bytes) (segment b) free,
            ap (λ t. to_rel_seq t b.seq) same ∙ rel_b,
            nofin_b,
            omega (arith, pos_b, size),
            ap (λ l. find l (n + length a.bytes + length (tb.contents (segment b).buf))) kept
                ∙ find-store s.seg_map (n + length a.bytes)
                    (n + length a.bytes + length (tb.contents (segment b).buf)) (segment b)
                    (λ c. absurd (omega (arith, c, pos_b, size)))
                ∙ ap (λ k. find s.seg_map (n + length a.bytes + k)) size
                ∙ end,
          )
