-- ===== src/Base/Memory.antt =====
-- Memory as bytes. A block is the list of its bytes, and a pointer into it an offset.
use Prim.Native.Nat.{ℕ, zero, suc, ◌+◌, ◌*◌, ◌≤◌, ◌<◌}
use mathlib.Core.Path.{◌≡◌, refl}
use mathlib.Core.List.{List, [], ◌∷◌, ◌++◌}
use native.Mathlib.Omega.{arith}
use packetmachine.Base.Lists.{
  length, take, drop, get_or, get_elem?, length-append, length-take, length-drop,
  get_elem?-eq-get_or,
}
use packetmachine.Base.Tests.{leb, if◌then◌else◌}
use packetmachine.Base.Exceptions.{Outcome, ok, fault, or_fault, ◌>>=◌}

-- `byte_t` is a number below 256; a number is a byte where a statement says so.
abbrev pub Bytes : Type 0
Bytes = List ℕ

-- The `len` bytes from offset `off`, as far as the block reaches.
abbrev pub slice : Bytes → ℕ → ℕ → Bytes
slice mem off len = take len (drop off mem)

-- `memcpy(dst, src, length src)` into a block that is long enough.
abbrev pub memcpy : Bytes → Bytes → Bytes
memcpy dst src = src ++ drop (length src) dst

pub length-slice :
    (mem : Bytes) (off len : ℕ) → off + len ≤ length mem → length (slice mem off len) ≡ len
length-slice mem off len h = omega (arith, length-take len (drop off mem), length-drop off mem)

pub length-memcpy :
    (dst src : Bytes) → length src ≤ length dst → length (memcpy dst src) ≡ length dst
length-memcpy dst src h =
    omega (arith, length-append src (drop (length src) dst), length-drop (length src) dst)

pub drop-length {ℓ} : {A : Type ℓ} (xs : List A) (n : ℕ) → length xs ≤ n → drop n xs ≡ []
drop-length [] zero h = refl
drop-length [] (suc n) h = refl
drop-length (x ∷ xs) zero h = absurd (omega arith)
drop-length (x ∷ xs) (suc n) h = drop-length xs n (omega arith)

pub take-append {ℓ} : {A : Type ℓ} (xs ys : List A) → take (length xs) (xs ++ ys) ≡ xs
take-append [] ys = refl
take-append (x ∷ xs) ys = rw (take-append xs ys)

-- A read of one byte, and of `len` bytes, from a block.
abbrev pub load : Bytes → ℕ → Outcome ℕ
load mem i = or_fault (get_elem? mem i)

abbrev pub load_slice : Bytes → ℕ → ℕ → Outcome Bytes
load_slice mem off len = if leb (off + len) (length mem) then ok (slice mem off len) else fault

-- A read of the two bytes of a 16 bit number in network byte order, with `ntohs`.
abbrev pub load_be16 : Bytes → ℕ → Outcome ℕ
load_be16 mem i = do hi ← load mem i; lo ← load mem (i + 1); ok (hi * 256 + lo)

-- A read of a 32 bit number in network byte order, with `ntohl`.
abbrev pub load_be32 : Bytes → ℕ → Outcome ℕ
load_be32 mem i = do hi ← load_be16 mem i; lo ← load_be16 mem (i + 2); ok (hi * 65536 + lo)

pub load_lem : (mem : Bytes) (i : ℕ) → i < length mem → load mem i ≡ ok (get_or mem i 0)
load_lem mem i h = rw (get_elem?-eq-get_or mem i 0 h)
