-- ===== src/Packet/Store.antt =====
-- What `Packet::store` promises, whether or not the allocation succeeds.
use packetmachine.Base.{
  ℕ, ◌≡◌, ◌≤◌, ◌∙◌, refl, Bool, true, false, Option, none, some, arith, inl, inr, [], ltb, length,
  take, Bool-cases, Bytes, length-memcpy, take-append,
}
use packetmachine.Packet.{Packet, copy_in, store_fresh, store_into, store}

-- The block is as long as the packet believes.
abbrev pub IsBlock : Option Bytes → ℕ → Type 0
IsBlock none n = Unit {0}
IsBlock (some block) n = length block ≡ n

-- What the C library's `realloc` gives for a size: null, or a block of that size.
abbrev pub IsRealloc : Option Bytes → ℕ → Type 0
IsRealloc = IsBlock

-- The bytes that a client sees, `buf()` up to `len()`.
abbrev pub contents : Option Bytes → ℕ → Bytes
contents none n = []
contents (some block) n = take n block

abbrev pub Stores : Packet → Bytes → Packet × Bool → Type 0
Stores p src (q, true) =
    (q.len ≡ length src)
    × (contents q.buf q.len ≡ src)
    × (q.len ≤ q.buf_len)
    × IsBlock q.buf q.buf_len
Stores p src (q, false) = (q.buf ≡ none) × (q.len ≡ p.len) × (q.buf_len ≡ p.buf_len)

copy_in-Stores :
    (p : Packet) (block src : Bytes) (n : ℕ)
    → length block ≡ n
    → length src ≤ n
    → Stores p src (copy_in (record p { buf_len = n }) block src)
unfolding copy_in
copy_in-Stores p block src n e h =
    (refl, take-append src _, h, length-memcpy block src (omega arith) ∙ e)

store_fresh-Stores :
    (p : Packet) (realloc : Option Bytes) (src : Bytes)
    → IsRealloc realloc (length src)
    → Stores p src (store_fresh p realloc src)
unfolding store_fresh
store_fresh-Stores p none src r = (refl, refl, refl)
store_fresh-Stores p (some block) src r = copy_in-Stores p block src (length src) r (omega arith)

store_into-Stores :
    (p : Packet) (buf realloc : Option Bytes) (src : Bytes)
    → IsBlock buf p.buf_len
    → IsRealloc realloc (length src)
    → Stores p src (store_into p buf realloc src)
unfolding store_into
store_into-Stores p none realloc src v r = store_fresh-Stores p realloc src r
store_into-Stores p (some old) realloc src v r = elim (Bool-cases (ltb p.buf_len (length src))) [
  | inl small ↦ rw small (store_fresh-Stores p realloc src r)
  | inr fits ↦ rw fits (copy_in-Stores p old src p.buf_len v (ground arith))
]

-- `store` returns true with the packet showing exactly the bytes given, inside its block, or it
-- returns false with no block and the length as it was; this for a packet whose block is as long
-- as it believes, and an allocation that gives null or a block of the size asked for.
pub store-Stores :
    (p : Packet) (realloc : Option Bytes) (src : Bytes)
    → IsBlock p.buf p.buf_len
    → IsRealloc realloc (length src)
    → Stores p src (store p realloc src)
unfolding store
store-Stores p realloc src v r = store_into-Stores p p.buf realloc src v r
