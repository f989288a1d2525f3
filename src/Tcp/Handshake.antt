-- ===== src/Tcp/Handshake.antt =====
-- The states of a TCP session, `trans_state` of src/modules/tcp.cc: what its calls must have been
-- given for a state to be reached.
use Prim.Native.Nat.{bit_or}
use packetmachine.Base.{ℕ, ◌≡◌, true, Option, some, List, [], ◌∷◌, ◌⊎◌}
use packetmachine.Tcp.Stream.{Stream}
use packetmachine.Tcp.Session.{
  Side, client, server, other, Status, syn_sent, synack_sent, established, closing, closed, Timeval,
  Session,
}
use packetmachine.Tcp.State.{syn, ack, has_fin, trans_state}

-- The arguments of a call of `trans_state`.
pub record Frame : Type 0 where
  pub flags : ℕ
  pub sender : Side
  pub seq : ℕ
  pub seg_len : ℕ
  pub tv : Timeval

module _ {Buf : Type 0} where
  unfoldable pub step : Session Buf → Frame → Session Buf
  unfolding trans_state
  step s f = (trans_state f.flags f.sender f.seq f.seg_len f.tv s).1

  unfoldable pub run : Session Buf → List Frame → Session Buf
  run s [] = s
  run s (f ∷ frames) = run (step s f) frames

abbrev pub IsSyn : Frame → Type 0
IsSyn f = (f.flags ≡ syn) × (f.sender ≡ client)

abbrev pub IsSynAck : Frame → Type 0
IsSynAck f = (f.flags ≡ bit_or syn ack) × (f.sender ≡ server)

abbrev pub IsAck : Frame → Type 0
IsAck f = (f.flags ≡ ack) × (f.sender ≡ client)

abbrev pub IsFinOf : Side → Frame → Type 0
IsFinOf side f = (has_fin f.flags ≡ true) × (f.sender ≡ side)

-- Segments of these kinds are among the frames, in this order.
abbrev pub Shows : List (Frame → Type 0) → List Frame → Type 0
Shows [] frames = Unit
Shows (P ∷ kinds) [] = ⊥
Shows (P ∷ kinds) (f ∷ frames) = (P f × Shows kinds frames) ⊎ Shows (P ∷ kinds) frames

-- What a status needs, where `side` is the first to close.
abbrev pub needed : Status → Side → List (Frame → Type 0)
needed Status.none side = []
needed syn_sent side = IsSyn ∷ []
needed synack_sent side = IsSyn ∷ IsSynAck ∷ []
needed established side = IsSyn ∷ IsSynAck ∷ IsAck ∷ []
needed closing side = IsSyn ∷ IsSynAck ∷ IsAck ∷ IsFinOf side ∷ []
needed closed side = IsSyn ∷ IsSynAck ∷ IsAck ∷ IsFinOf side ∷ IsFinOf (other side) ∷ []

abbrev FirstCloses : Status → Option Side → Side → Type 0
FirstCloses closing c side = c ≡ some side
FirstCloses _ c side = Unit

abbrev History : List Frame → Status → Option Side → Type 0
History seen st c = (side : Side) × Shows (needed st side) seen × FirstCloses st c side
