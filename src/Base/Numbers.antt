-- ===== src/Base/Numbers.antt =====
-- Numbers as bytes, in either byte order.
use Prim.Native.Nat.{ℕ, zero, suc, ◌+◌, ◌*◌, ◌/◌, ◌%◌}
use mathlib.Core.List.{[], ◌∷◌}
use packetmachine.Base.Memory.{Bytes}

-- The number whose bytes stand in memory, the least significant first.
abbrev pub le_number : Bytes → ℕ
le_number [] = 0
le_number (b ∷ bs) = b + 256 * le_number bs

-- The number whose bytes stand in memory, the most significant first: network byte order.
abbrev pub be_from : ℕ → Bytes → ℕ
be_from acc [] = acc
be_from acc (b ∷ bs) = be_from (acc * 256 + b) bs

abbrev pub be_number : Bytes → ℕ
be_number = be_from 0

-- The `w` bytes of a number on a little-endian host.
abbrev pub le_bytes : ℕ → ℕ → Bytes
le_bytes zero x = []
le_bytes (suc w) x = (x % 256) ∷ le_bytes w (x / 256)
