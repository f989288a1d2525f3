-- ===== src/Payload/Bounds.antt =====
-- The cursor stays inside the packet.
use packetmachine.Base.{ℕ, ◌+◌, ◌≤◌, ◌<◌, ◌≡◌, ◌⊎◌, true, false, Option, none, some, arith}
use packetmachine.Packet.{Packet}
use packetmachine.Payload.{Payload, reset, retain_from, shrink}

-- A cursor over a packet of `size` bytes.
pub record IsValid (size : ℕ) (pd : Payload) : Type 0 where
  pub remains : pd.ptr + pd.length ≤ pd.end
  pub inside : pd.end ≤ size

pub reset-IsValid : (pd : Payload) (pkt : Packet) → IsValid pkt.len (reset pd pkt)
unfolding reset
reset-IsValid pd pkt = omega arith

-- What a call of `retain` does, by its result.
abbrev pub Retains : ℕ → Payload → ℕ → Option ℕ × Payload → Type 0
Retains size pd n (none, q) = (pd.length < n) × (q ≡ pd)
Retains size pd n (some p, q) =
    (n ≤ pd.length)
    × (p ≡ pd.ptr)
    × (p + n ≤ size)
    × (q.ptr ≡ p + n)
    × (q.length + n ≡ pd.length)
    × (q.pkt ≡ pd.pkt)
    × IsValid size q

-- On a valid cursor `retain` fails exactly when fewer bytes remain than are asked for, and then
-- changes nothing. Otherwise it returns the cursor, from which all the bytes asked for lie inside
-- the packet, and moves past them; the new cursor is valid.
pub retain-Retains :
    (size : ℕ) (pd : Payload) (n : ℕ) → IsValid size pd → Retains size pd n (retain_from pd n)
unfolding retain_from
retain-Retains size pd n v = ground arith

-- `shrink` to at most the length that is left sets the length to the one asked for and answers
-- true; to a greater one it answers false and changes nothing. Both keep the start, the end and the
-- packet of the cursor, and leave it inside the packet.
pub shrink-IsValid :
    (size : ℕ) (pd : Payload) (n : ℕ)
    → IsValid size pd
    → let (done, q) = shrink pd n in
      (((n ≤ pd.length) × (done ≡ true) × (q.length ≡ n))
        ⊎ ((pd.length < n) × (done ≡ false) × (q.length ≡ pd.length)))
      × (q.ptr ≡ pd.ptr)
      × (q.end ≡ pd.end)
      × (q.pkt ≡ pd.pkt)
      × IsValid size q
unfolding shrink
shrink-IsValid size pd n v = ground arith
