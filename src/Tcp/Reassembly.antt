-- ===== src/Tcp/Reassembly.antt =====
-- Reassembly in `decode_stream` of src/modules/tcp.cc: the segments that were stored out of order
-- are delivered behind the one that was missing.
use mathlib.Core.List.{append_assoc, append-nil}
use packetmachine.Base.{
  ==_iff, ℕ, zero, suc, ◌+◌, ◌-◌, ◌%◌, ◌<◌, ◌≡◌, ◌∙◌, refl, sym, ap, subst, true, false, Bool,
  Option, none, some, List, [], ◌∷◌, ◌++◌, arith, ◌==◌, if◌then◌else◌, length, length-append, Bytes,
  Satisfies, Satisfies->>=, Satisfies-weaken,
}
use packetmachine.Property.{Property, BufferOps}
use packetmachine.Property.Objects.{Class}
use packetmachine.Property.Pools.{Inv}
use packetmachine.Tcp.Stream.{Stream, u32, send, to_rel_seq}
use packetmachine.Tcp.SegMap.{find, erase, find-erase}
use packetmachine.Tcp.Session.{Side, established, Timeval, Segment, Session, stream, set_stream}
use packetmachine.Tcp.State.{has_fin}
use packetmachine.Tcp.Decode.{
  Defs, BufferMake, Arrival, each, again, start_buf, reassemble, decode_stream,
}
use packetmachine.Tcp.Termination.{IsDefined}
use packetmachine.Tcp.Intake.{
  IsBuffer, all, Follows, held, expected, stream-set_self, stream-buf, set_stream-rest, after, IsAt,
  take_in-IsAt,
}

module _ {Buf : Type 0} (tb : BufferOps Buf) where
  pub Follows-erase :
      (st : Stream) (map : List (ℕ × List (Segment Buf))) (key n : ℕ) (segs : List (Segment Buf))
      → key < n
      → Follows tb st map n segs
      → Follows tb st (erase map key) n segs
  Follows-erase st map key n [] lt h = find-erase map key n (omega (arith, lt)) ∙ h
  Follows-erase st map key n (seg ∷ segs) lt h = (
    find-erase map key n (omega (arith, lt)) ∙ h.0,
    h.1,
    h.2,
    h.3,
    Follows-erase st map key (n + length (tb.contents seg.buf)) segs (omega (arith, lt)) h.4,
  )

  -- The relative numbers depend on the first number alone.
  Follows-stream :
      (st st' : Stream) (map : List (ℕ × List (Segment Buf))) (n : ℕ) (segs : List (Segment Buf))
      → st.base_seq ≡ st'.base_seq
      → Follows tb st map n segs
      → Follows tb st' map n segs
  unfolding to_rel_seq
  Follows-stream st st' map n [] e h = h
  Follows-stream st st' map n (seg ∷ segs) e h = (
    h.0,
    ap (λ base. (seg.seq + u32 - base) % u32) (sym e) ∙ h.1,
    h.2,
    h.3,
    Follows-stream st st' map (n + length (tb.contents seg.buf)) segs e h.4,
  )

-- The next segment is accepted, and moves the number that is waited for.
send-next :
    (st : Stream) (seq n len : ℕ)
    → st.has_base_seq ≡ true
    → st.next_seq ≡ n
    → to_rel_seq st seq ≡ n
    → n + len < u32
    → send st seq len ≡ (true, record st { next_seq = n + len })
unfolding send
send-next st seq n len based next rel small =
    let e : (st.next_seq == to_rel_seq st seq) ≡ true = (==_iff _ _).1 (next ∙ sym rel) in
    let moved : (st.next_seq + len) % u32 ≡ n + len = omega (arith, next, small) in
    ap
      (λ b.
        if b
        then if st.next_seq == to_rel_seq st seq
          then (true, record st { next_seq = (st.next_seq + len) % u32 })
          else (false, st)
        else (true, st))
      based
    ∙ ap
        (λ b. if b then (true, record st { next_seq = (st.next_seq + len) % u32 }) else (false, st))
        e
    ∙ ap (λ (k : ℕ). let out : Bool × Stream = (true, record st { next_seq = k }) in out) moved

module _ {Buf : Type 0} (class : ℕ → Class) (tb : BufferOps Buf) (mk : BufferMake Buf)
    (laws : IsBuffer tb mk) (m : Defs) (w : IsDefined class m) (tv : Timeval) (sender : Side) where
  -- What is left after a segment of an established session, when `bytes` are delivered with it.
  abbrev pub Delivered : ℕ → Bytes → Property Buf × Session Buf → Type 0
  Delivered n bytes (q, r) =
      Inv class q
      × (r.status ≡ established)
      × (held tb r.buf ≡ bytes)
      × ((stream r sender).next_seq ≡ n)

  start_buf-contents :
      (b : Option Buf) (bytes : Bytes)
      → tb.contents (start_buf tb mk m tv sender (after class tb mk m w tv sender b bytes) bytes)
        ≡ held tb b ++ bytes
  start_buf-contents none bytes =
      laws.contents_append mk.empty bytes ∙ ap (λ l. l ++ bytes) laws.contents_empty
  start_buf-contents (some b) bytes = laws.contents_append b bytes

  held-alone :
      (b : Option Buf) (bytes : Bytes)
      → held tb (after class tb mk m w tv sender b bytes) ≡ expected tb b bytes []
  held-alone none bytes = refl
  held-alone (some b) bytes =
      laws.contents_append b bytes ∙ ap (λ l. tb.contents b ++ l) (sym (append-nil bytes))

  held-chain :
      (b : Option Buf) (bytes : Bytes) (seg : Segment Buf) (segs : List (Segment Buf))
      → (held tb b ++ bytes) ++ (tb.contents seg.buf ++ all tb segs)
        ≡ expected tb b bytes (seg ∷ segs)
  held-chain none bytes seg segs = refl
  held-chain (some b) bytes seg segs = append_assoc (tb.contents b) bytes _

  -- What one call does, on this fuel.
  abbrev Delivers : ℕ → Type 0
  Delivers fuel =
      (segs : List (Segment Buf)) (n : ℕ) (a : Arrival) (p : Property Buf) (s : Session Buf)
      → length segs < fuel
      → Inv class p
      → s.status ≡ established
      → has_fin a.flags ≡ false
      → (stream s sender).has_base_seq ≡ true
      → (stream s sender).next_seq ≡ n
      → to_rel_seq (stream s sender) a.seq ≡ n
      → 0 < length a.bytes
      → n + length a.bytes + length (all tb segs) < u32
      → Follows tb (stream s sender) s.seg_map (n + length a.bytes) segs
      → Satisfies
          (Delivered (n + length a.bytes + length (all tb segs)) (expected tb s.buf a.bytes segs))
          (decode_stream tb mk m tv sender fuel a (p, s))

  -- What is stored behind the segment, by calls on less fuel.
  reassemble-Delivered :
      (fuel n : ℕ) (b : Option Buf) (a : Arrival) (map : List (ℕ × List (Segment Buf)))
      (st : Stream) (segs : List (Segment Buf)) (y : Property Buf × Session Buf)
      → Delivers fuel
      → length segs < suc fuel
      → st.has_base_seq ≡ true
      → st.next_seq ≡ n
      → 0 < n
      → n + length (all tb segs) < u32
      → Follows tb st map n segs
      → IsAt class tb mk m w tv sender (after class tb mk m w tv sender b a.bytes) map st y
      → Satisfies (Delivered (n + length (all tb segs)) (expected tb b a.bytes segs)) (
          reassemble tb mk m tv sender
            (λ tgt. decode_stream tb mk m tv sender fuel (again tb mk m tv sender a tgt))
            a
            (find map n)
            y)
  unfolding reassemble each
  reassemble-Delivered fuel n b a map st [] y ih lt based next pos small follows h = rw follows (
    h.0,
    h.1,
    ap (held tb) h.2 ∙ held-alone b a.bytes,
    ap Stream.next_seq h.4 ∙ next ∙ omega arith,
  )
  reassemble-Delivered fuel n b a map st (seg ∷ segs) y ih lt based next pos small follows h =
      rw (follows.0, h.2)
        (Satisfies->>= Q Q
          (decode_stream tb mk m tv sender fuel (again tb mk m tv sender a seg) (y.0, s2)) _
          (Satisfies-weaken _ Q _
            (λ x d. (
              d.0,
              d.1,
              d.2
                  ∙ ap (λ l. l ++ (tb.contents seg.buf ++ all tb segs))
                      (start_buf-contents b a.bytes)
                  ∙ held-chain b a.bytes seg segs,
              d.3 ∙ omega (arith, length-append (tb.contents seg.buf) (all tb segs)),
            ))
            (ih segs n (again tb mk m tv sender a seg) y.0 s2 (omega (arith, lt)) h.0 h.1 follows.2
              (ap Stream.has_base_seq same ∙ based) (ap Stream.next_seq same ∙ next)
              (ap (λ t. to_rel_seq t seg.seq) same ∙ follows.1) follows.3
              (omega (arith, small, length-append (tb.contents seg.buf) (all tb segs))) behind))
          (λ x d. d))
    where
      buf' : Option Buf
      buf' = after class tb mk m w tv sender b a.bytes

      s2 : Session Buf
      s2 = record y.1 {
        buf = some (start_buf tb mk m tv sender buf' a.bytes);
        seg_map = erase y.1.seg_map (stream y.1 sender).next_seq;
      }

      same : stream s2 sender ≡ st
      same =
          stream-buf y.1 sender (some (start_buf tb mk m tv sender buf' a.bytes))
            (erase y.1.seg_map (stream y.1 sender).next_seq)
          ∙ h.4

      erased : s2.seg_map ≡ erase map n
      erased =
          ap (λ l. erase l (stream y.1 sender).next_seq) h.3
          ∙ ap (erase map) (ap Stream.next_seq h.4 ∙ next)

      behind : Follows tb (stream s2 sender) s2.seg_map (n + length (tb.contents seg.buf)) segs
      behind =
          subst (λ l. Follows tb (stream s2 sender) l (n + length (tb.contents seg.buf)) segs)
            (sym erased)
            (Follows-stream tb st (stream s2 sender) (erase map n)
              (n + length (tb.contents seg.buf)) segs (sym (ap Stream.base_seq same))
              (Follows-erase tb st map n (n + length (tb.contents seg.buf)) segs
                (omega (arith, follows.3)) follows.4))

      Q : Property Buf × Session Buf → Type 0
      Q = Delivered (n + length (all tb (seg ∷ segs))) (expected tb b a.bytes (seg ∷ segs))

  pub decode_stream-Delivered : (fuel : ℕ) → Delivers fuel
  unfolding decode_stream
  decode_stream-Delivered zero segs n a p s lt v e nofin based next rel pos small follows =
      absurd (omega (arith, lt))
  decode_stream-Delivered (suc fuel) segs n a p s lt v e nofin based next rel pos small follows =
      rw
        (send-next (stream s sender) a.seq n (length a.bytes) based next rel (omega (arith, small)))
        (Satisfies->>=
          (IsAt class tb mk m w tv sender (after class tb mk m w tv sender s.buf a.bytes) s.seg_map
            st)
          (Delivered (n + length a.bytes + length (all tb segs)) (expected tb s.buf a.bytes segs)) _
          _
          (take_in-IsAt class tb mk m w tv sender s.buf s.seg_map st a (set_stream s sender st) p
            nofin (v, rest.0 ∙ e, rest.1, rest.2, stream-set_self s sender st))
          (λ y h.
            subst
              (λ found.
                Satisfies
                  (Delivered (n + length a.bytes + length (all tb segs))
                    (expected tb s.buf a.bytes segs))
                  (reassemble tb mk m tv sender
                    (λ tgt. decode_stream tb mk m tv sender fuel (again tb mk m tv sender a tgt)) a
                    found y))
              (sym (
                ap (λ map. find map (stream y.1 sender).next_seq) h.3
                ∙ ap (λ t. find s.seg_map t.next_seq) h.4))
              (reassemble-Delivered fuel (n + length a.bytes) s.buf a s.seg_map st segs y
                (decode_stream-Delivered fuel) lt based refl (omega (arith, pos)) small
                (Follows-stream tb (stream s sender) st s.seg_map (n + length a.bytes) segs refl
                  follows)
                h)))
    where
      st : Stream
      st = record (stream s sender) { next_seq = n + length a.bytes }

      rest :
          ((set_stream s sender st).status ≡ s.status)
          × ((set_stream s sender st).buf ≡ s.buf)
          × ((set_stream s sender st).seg_map ≡ s.seg_map)
      rest = set_stream-rest s sender st
