-- ===== src/Value/View.antt =====
-- The bytes that a value shows, and that `set` and `cpy` show what they were given.
use packetmachine.Base.{
  ℕ, ◌+◌, ◌≤◌, ◌<◌, ◌≡◌, ◌∙◌, refl, ap, [], arith, get_elem?, get_or, length, take, drop,
  length-replicate, get_elem?-eq-get_or, get_elem?-take, get_elem?-drop, ok, Bytes, slice,
  length-slice, length-memcpy, take-append,
}
use packetmachine.Value.{
  Value, Endian, Ptr, null, packet, own, outside, set, cpy, ensure_room, deref_at, deref,
}

-- The bytes behind the pointer, up to the length, where they exist.
abbrev pub shown_at : Bytes → Bytes → Ptr → ℕ → Bytes
shown_at mem buf null len = []
shown_at mem buf (packet off) len = slice mem off len
shown_at mem buf own len = take len buf
shown_at mem buf (outside bytes) len = take len bytes

abbrev pub shown : Bytes → Value → Bytes
shown mem v = shown_at mem v.buf v.ptr v.len

-- Every byte up to the length exists.
abbrev pub IsReadable : Bytes → Value → Type 0
IsReadable mem v = length (shown mem v) ≡ v.len

-- The value's own block is as long as it believes.
abbrev pub IsOwner : Value → Type 0
IsOwner v = length v.buf ≡ v.buf_len

ensure_room-fits :
    (v : Value) (n : ℕ) → IsOwner v → (n ≤ length (ensure_room v n).buf) × IsOwner (ensure_room v n)
unfolding ensure_room
ensure_room-fits v n h = ground (arith, length-replicate {A = ℕ} n 0)

-- After `cpy` the value shows the bytes that it was given, whatever it showed before.
pub shown-cpy :
    (mem : Bytes) (v : Value) (src : Bytes) (e : Endian)
    → IsOwner v
    → (shown mem (cpy v src e) ≡ src) × IsReadable mem (cpy v src e) × IsOwner (cpy v src e)
unfolding cpy
shown-cpy mem v src e h =
    let (fits, owner) = ensure_room-fits v (length src) h in
    let same = take-append src (drop (length src) (ensure_room v (length src)).buf) in
    (same, ap length same, length-memcpy (ensure_room v (length src)).buf src fits ∙ owner)

-- After `set` it shows the slice of the packet, and all of it if that lies inside the packet.
pub IsReadable-set :
    (mem : Bytes) (v : Value) (off len : ℕ) (e : Endian)
    → off + len ≤ length mem
    → (shown mem (set v off len e) ≡ slice mem off len) × IsReadable mem (set v off len e)
unfolding set
IsReadable-set mem v off len e h = (refl, length-slice mem off len h)

get_elem?-slice :
    (mem : Bytes) (off len i : ℕ)
    → i < len
    → get_elem? (slice mem off len) i ≡ get_elem? mem (off + i)
get_elem?-slice mem off len i h = get_elem?-take (drop off mem) len i h ∙ get_elem?-drop mem off i

deref_at-shown :
    (mem buf : Bytes) (p : Ptr) (len i : ℕ)
    → length (shown_at mem buf p len) ≡ len
    → i < len
    → deref_at mem buf p i ≡ ok (get_or (shown_at mem buf p len) i 0)
unfolding deref_at
deref_at-shown mem buf null len i r h = absurd (omega arith)
deref_at-shown mem buf (packet off) len i r h =
    rw
      (← get_elem?-slice mem off len i h, get_elem?-eq-get_or (slice mem off len) i 0 (omega arith))
deref_at-shown mem buf own len i r h =
    rw (← get_elem?-take buf len i h, get_elem?-eq-get_or (take len buf) i 0 (omega arith))
deref_at-shown mem buf (outside bytes) len i r h =
    rw (← get_elem?-take bytes len i h, get_elem?-eq-get_or (take len bytes) i 0 (omega arith))

-- A readable value is read without a fault, and gives the bytes that it shows.
pub deref-shown :
    (mem : Bytes) (v : Value) (i : ℕ)
    → IsReadable mem v
    → i < v.len
    → deref mem v i ≡ ok (get_or (shown mem v) i 0)
unfolding deref
deref-shown mem v i r h = deref_at-shown mem v.buf v.ptr v.len i r h
