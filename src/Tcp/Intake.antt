-- ===== src/Tcp/Intake.antt =====
-- What a session of src/modules/tcp.cc holds of the segments that came too early, and the taking in
-- of one segment, `show_data` and the calls before it.
use packetmachine.Base.{
  ℕ, ◌+◌, ◌<◌, ◌≡◌, ◌∙◌, refl, sym, ap, subst, false, Option, none, some, List, [], ◌∷◌, ◌++◌,
  length, ◌>>=◌, Bytes, Satisfies, Satisfies->>=,
}
use packetmachine.Value.{big, outside}
use packetmachine.Property.{Property, BufferOps}
use packetmachine.Property.Objects.{Class}
use packetmachine.Property.Pools.{Inv}
use packetmachine.Property.Write.{set_value_ptr-Inv}
use packetmachine.Tcp.Stream.{Stream, recv, to_rel_seq}
use packetmachine.Tcp.SegMap.{find}
use packetmachine.Tcp.Session.{
  Side, client, server, Status, established, Timeval, Segment, Session, stream, set_stream, other,
}
use packetmachine.Tcp.State.{has_fin, trans_from, trans_state}
use packetmachine.Tcp.Decode.{Defs, BufferMake, Arrival, announce, show_data, take_in}
use packetmachine.Tcp.Termination.{IsDefined}

-- What a session relies on of the buffers of cpp-toolbox.
pub record IsBuffer {Buf : Type 0} (tb : BufferOps Buf) (mk : BufferMake Buf) : Type 0 where
  pub contents_empty : tb.contents mk.empty ≡ []
  pub contents_append :
      (b : Buf) (bytes : Bytes) → tb.contents (mk.append b bytes) ≡ tb.contents b ++ bytes

module _ {Buf : Type 0} (tb : BufferOps Buf) where
  -- The bytes of a chain of segments.
  abbrev pub all : List (Segment Buf) → Bytes
  all [] = []
  all (seg ∷ segs) = tb.contents seg.buf ++ all segs

  -- The map holds these segments one behind the other, from the relative number `n` on: each
  -- alone under its number, with some data, and with no FIN. Behind them it holds nothing.
  abbrev pub Follows : Stream → List (ℕ × List (Segment Buf)) → ℕ → List (Segment Buf) → Type 0
  Follows st map n [] = find map n ≡ none
  Follows st map n (seg ∷ segs) =
      (find map n ≡ some (seg ∷ []))
      × (to_rel_seq st seg.seq ≡ n)
      × (has_fin seg.flags ≡ false)
      × (0 < length (tb.contents seg.buf))
      × Follows st map (n + length (tb.contents seg.buf)) segs

  -- The data that a buffer holds, if there is one.
  abbrev pub held : Option Buf → Bytes
  held none = []
  held (some b) = tb.contents b

  -- The buffer after a segment with these bytes and the stored ones behind it, by the buffer
  -- before: one segment alone needs no buffer.
  abbrev pub expected : Option Buf → Bytes → List (Segment Buf) → Bytes
  expected none bytes [] = []
  expected none bytes (seg ∷ segs) = bytes ++ all (seg ∷ segs)
  expected (some b) bytes segs = tb.contents b ++ (bytes ++ all segs)

module _ {Buf : Type 0} where
  pub stream-set_self :
      (s : Session Buf) (side : Side) (t : Stream) → stream (set_stream s side t) side ≡ t
  stream-set_self s client t = refl
  stream-set_self s server t = refl

  stream-set_other :
      (s : Session Buf) (side : Side) (t : Stream)
      → stream (set_stream s (other side) t) side ≡ stream s side
  stream-set_other s client t = refl
  stream-set_other s server t = refl

  pub stream-buf :
      (s : Session Buf) (side : Side) (b : Option Buf) (map : List (ℕ × List (Segment Buf)))
      → stream (record s { buf = b; seg_map = map }) side ≡ stream s side
  stream-buf s client b map = refl
  stream-buf s server b map = refl

  pub set_stream-rest :
      (s : Session Buf) (side : Side) (t : Stream)
      → ((set_stream s side t).status ≡ s.status)
        × ((set_stream s side t).buf ≡ s.buf)
        × ((set_stream s side t).seg_map ≡ s.seg_map)
  set_stream-rest s client t = (refl, refl, refl)
  set_stream-rest s server t = (refl, refl, refl)

module _ {Buf : Type 0} (class : ℕ → Class) (tb : BufferOps Buf) (mk : BufferMake Buf) (m : Defs)
    (w : IsDefined class m) (tv : Timeval) (sender : Side) where
  abbrev pub after : Option Buf → Bytes → Option Buf
  after none bytes = none
  after (some b) bytes = some (mk.append b bytes)

  -- A well-formed property, and an established session with this buffer, map and sender.
  abbrev pub IsAt :
      Option Buf → List (ℕ × List (Segment Buf)) → Stream → Property Buf × Session Buf → Type 0
  IsAt b map st (q, r) =
      Inv class q
      × (r.status ≡ established)
      × (r.buf ≡ b)
      × (r.seg_map ≡ map)
      × (stream r sender ≡ st)

  show_data-IsAt :
      (b : Option Buf) (map : List (ℕ × List (Segment Buf))) (st : Stream) (a : Arrival)
      (r : Session Buf) (p : Property Buf)
      → IsAt b map st (p, r)
      → Satisfies (IsAt (after b a.bytes) map st) (show_data tb mk m tv sender b a r p)
  unfolding show_data
  show_data-IsAt none map st a r p h =
      Satisfies->>= (Inv class) (IsAt none map st) _ _
        (set_value_ptr-Inv class p m.p_data a.ptr (length a.bytes) big h.0 w.data_param)
        (λ q v. (v, h.1, h.2, h.3, h.4))
  show_data-IsAt (some b) map st a r p h =
      Satisfies->>= (Inv class) (IsAt (after (some b) a.bytes) map st) _ _
        (set_value_ptr-Inv class p m.p_data (outside (tb.contents (mk.append b a.bytes)))
          (length (tb.contents (mk.append b a.bytes))) big h.0 w.data_param)
        (λ q v.
          (v, h.1, refl, h.3, stream-buf r sender (some (mk.append b a.bytes)) r.seg_map ∙ h.4))

  quiet :
      (a : Arrival) (s : Session Buf)
      → s.status ≡ established
      → has_fin a.flags ≡ false
      → trans_state a.flags sender a.seq (length a.bytes) tv s ≡ (Status.none, s)
  unfolding trans_state trans_from
  quiet a s e nofin =
      ap (λ st. trans_from a.flags sender a.seq (length a.bytes) tv st s) e ∙ (rw nofin)

  -- With no FIN nothing happens but that the data is shown.
  pub take_in-IsAt :
      (b : Option Buf) (map : List (ℕ × List (Segment Buf))) (st : Stream) (a : Arrival)
      (s : Session Buf) (p : Property Buf)
      → has_fin a.flags ≡ false
      → IsAt b map st (p, s)
      → Satisfies (IsAt (after b a.bytes) map st) (take_in tb mk m tv sender a p s)
  unfolding take_in announce
  take_in-IsAt b map st a s p nofin h =
      subst
        (λ (out : Status × Session Buf). Satisfies (IsAt (after b a.bytes) map st) (
          announce tb mk m tv sender out.0 out.1 p >>= λ q.
          show_data tb mk m tv sender out.1.buf a out.1 q))
        (sym (quiet a s1 (rest.0 ∙ h.1) nofin))
        (subst
          (λ c.
            Satisfies (IsAt (after c a.bytes) map st) (show_data tb mk m tv sender s1.buf a s1 p))
          (rest.1 ∙ h.2)
          (show_data-IsAt s1.buf map st a s1 p
            (h.0, rest.0 ∙ h.1, refl, rest.2 ∙ h.3, stream-set_other s sender t ∙ h.4)))
    where
      t : Stream
      t = recv (stream s (other sender)) a.ack a.win_size

      s1 : Session Buf
      s1 = set_stream s (other sender) t

      rest : (s1.status ≡ s.status) × (s1.buf ≡ s.buf) × (s1.seg_map ≡ s.seg_map)
      rest = set_stream-rest s (other sender) t
