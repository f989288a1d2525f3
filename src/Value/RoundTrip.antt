-- ===== src/Value/RoundTrip.antt =====
-- Numbers that a module computes, copied into a value by `cpy` and read back.
use native.Mathlib.Nat.{pow-suc}
use packetmachine.Base.{
  ℕ, zero, suc, ◌/◌, ◌^◌, ◌<◌, ◌≡◌, ◌∙◌, ◌⊎◌, refl, ap, true, some, arith, length, ok, Bytes,
  le_number, be_number, le_bytes,
}
use packetmachine.Value.{Value, Endian, little, big, cpy, is_uint}
use packetmachine.Value.View.{IsOwner, shown-cpy}
use packetmachine.Value.Numbers.{uint64, uint64_lem, AreBytes, number}

pub length-le_bytes : (w x : ℕ) → length (le_bytes w x) ≡ w
length-le_bytes zero x = refl
length-le_bytes (suc w) x = ap suc (length-le_bytes w (x / 256))

pub le_bytes-AreBytes : (w x : ℕ) → AreBytes (le_bytes w x)
le_bytes-AreBytes zero x = tt
le_bytes-AreBytes (suc w) x = (omega arith, le_bytes-AreBytes w (x / 256))

pub le_number-le_bytes : (w x : ℕ) → x < 256 ^ w → le_number (le_bytes w x) ≡ x
le_number-le_bytes zero x h = omega arith
le_number-le_bytes (suc w) x h =
    omega (arith, le_number-le_bytes w (x / 256) (omega (arith, pow-suc 256 w)))

-- The widths that `uint64` reads.
abbrev pub IsWidth : ℕ → Type 0
IsWidth w = (w ≡ 1) ⊎ (w ≡ 2) ⊎ (w ≡ 4) ⊎ (w ≡ 8)

is_uint-cpy :
    (v : Value) (src : Bytes) (e : Endian) → IsWidth (length src) → is_uint (cpy v src e) ≡ true
unfolding cpy
is_uint-cpy v src e k = ground arith

endian-cpy : (v : Value) (src : Bytes) (e : Endian) → (cpy v src e).endian ≡ e
unfolding cpy
endian-cpy v src e = refl

uint64-cpy-number :
    (mem : Bytes) (v : Value) (src : Bytes) (e : Endian)
    → IsOwner v
    → IsWidth (length src)
    → AreBytes src
    → uint64 mem (cpy v src e) ≡ ok (some (number e src))
uint64-cpy-number mem v src e o k b =
    let (same, readable, owner) = shown-cpy mem v src e o in
    uint64_lem mem (cpy v src e) readable (rw same b)
    ∙ rw (is_uint-cpy v src e k, same, endian-cpy v src e)

-- A number of 1, 2, 4 or 8 bytes copied in host order and marked LITTLE reads back as itself.
-- Marked BIG it reads back with its bytes reversed.
pub uint64-cpy :
    (mem : Bytes) (v : Value) (w x : ℕ)
    → IsOwner v
    → IsWidth w
    → x < 256 ^ w
    → (uint64 mem (cpy v (le_bytes w x) little) ≡ ok (some x))
      × (uint64 mem (cpy v (le_bytes w x) big) ≡ ok (some (be_number (le_bytes w x))))
uint64-cpy mem v w x o k h =
    let k' = rw (← length-le_bytes w x) at k in
    (
      uint64-cpy-number mem v (le_bytes w x) little o k' (le_bytes-AreBytes w x)
          ∙ rw (le_number-le_bytes w x h),
      uint64-cpy-number mem v (le_bytes w x) big o k' (le_bytes-AreBytes w x),
    )
