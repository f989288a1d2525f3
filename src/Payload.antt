-- ===== src/Payload.antt =====
-- class Payload of src/packetmachine/property.hpp and src/property.cc: the cursor that the decode
-- modules move over a packet. A pointer is the offset from the start of the packet's buffer, and
-- offsets do not wrap. Sizes are any numbers.
pub mod Bounds
use packetmachine.Base.{
  ℕ, ◌+◌, ◌-◌, Bool, true, false, ◌&&◌, Option, none, some, ltb, leb, ◌==◌, if◌then◌else◌, Outcome,
  ok, fault,
}
use packetmachine.Packet.{Packet}

pub record Payload : Type 0 where
  pub pkt : Option Packet
  pub ptr : ℕ
  pub end : ℕ
  pub length : ℕ

-- The constructor sets `pkt_` only: the other fields are what the memory held.
pub construct : ℕ → ℕ → ℕ → Payload
construct ptr end length = record { pkt = none; ptr = ptr; end = end; length = length }

unfoldable pub reset : Payload → Packet → Payload
reset pd pkt = record { pkt = some pkt; ptr = 0; end = pkt.len; length = pkt.len }

-- The body of `retain` behind its assertion: the old pointer, or none for a null pointer.
unfoldable pub retain_from : Payload → ℕ → Option ℕ × Payload
retain_from pd size =
    if leb size pd.length && leb (pd.ptr + size) pd.end
    then (some pd.ptr, record pd { length = pd.length - size; ptr = pd.ptr + size })
    else (none, pd)

-- `assert(this->pkt_)` fails before `reset`.
unfoldable pub retain : Payload → ℕ → Outcome (Option ℕ × Payload)
unfolding retain_from
retain pd size = elim pd.pkt [ none ↦ fault | some pkt ↦ ok (retain_from pd size) ]

unfoldable pub shrink : Payload → ℕ → Bool × Payload
shrink pd length =
    if ltb pd.length length then (false, pd) else (true, record pd { length = length })

unfoldable pub eop : Payload → Bool
eop pd = pd.length == 0
