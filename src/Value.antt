-- ===== src/Value.antt =====
-- class Value of src/packetmachine/value.hpp and src/value.cc: a view of some bytes of a packet,
-- or of bytes that the value keeps itself.
pub mod Numbers
pub mod RoundTrip
pub mod Text
pub mod Arrays
pub mod Maps
pub mod View
use packetmachine.Base.{
  ℕ, ◌+◌, Bool, true, false, ◌&&◌, ◌||◌, Option, none, some, List, [], ◌==◌, ltb, if◌then◌else◌,
  get_elem?, length, replicate, Outcome, ok, fault, or_fault, Bytes, memcpy,
}

pub data Endian : Type 0 where
  little big : Endian

-- `const byte_t* ptr_`: null, into the packet's buffer at an offset, at the value's own `buf_`, or
-- into memory of another owner (a buffer of TCP), with the bytes that stand there.
pub data Ptr : Type 0 where
  null : Ptr
  packet : ℕ → Ptr
  own : Ptr
  outside : Bytes → Ptr

-- `buf` is empty for a null `buf_`.
pub record Value : Type 0 where
  pub active : Bool
  pub ptr : Ptr
  pub len : ℕ
  pub buf : Bytes
  pub buf_len : ℕ
  pub endian : Endian

-- The constructor leaves `endian_` as the memory had it.
unfoldable pub construct : Endian → Value
construct endian = record {
  active = false;
  ptr = null;
  len = 0;
  buf = [];
  buf_len = 0;
  endian = endian;
}

-- `set`, with the pointer into the packet.
unfoldable pub set : Value → ℕ → ℕ → Endian → Value
set v off len e = record v { active = true; endian = e; ptr = packet off; len = len }

-- `set` with a pointer that may be null.
unfoldable pub set_ptr : Value → Ptr → ℕ → Endian → Value
set_ptr v p len e = record v { active = true; endian = e; ptr = p; len = len }

-- `::realloc` to a larger size, which is taken to succeed. The bytes that it adds are
-- indeterminate, and `cpy` overwrites the whole block.
unfoldable pub ensure_room : Value → ℕ → Value
ensure_room v len =
    if ltb v.buf_len len then record v { buf = replicate len 0; buf_len = len } else v

unfoldable pub cpy : Value → Bytes → Endian → Value
unfolding ensure_room
cpy v src e =
    let w = ensure_room v (length src) in
    record w { active = true; endian = e; buf = memcpy w.buf src; ptr = own; len = length src }

unfoldable pub clear : Value → Value
clear v = record v { active = false }

abbrev pub is_ip4 : Value → Bool
is_ip4 v = v.active && v.len == 4

abbrev pub is_ip6 : Value → Bool
is_ip6 v = v.active && v.len == 16

abbrev pub is_mac : Value → Bool
is_mac v = v.active && v.len == 6

abbrev pub is_uint : Value → Bool
is_uint v = v.active && (v.len == 1 || v.len == 2 || v.len == 4 || v.len == 8)

-- `this->ptr_[i]`, where `mem` is the packet's buffer. A read outside of the block is a fault.
unfoldable pub deref_at : Bytes → Bytes → Ptr → ℕ → Outcome ℕ
deref_at mem buf null i = fault
deref_at mem buf (packet off) i = or_fault (get_elem? mem (off + i))
deref_at mem buf own i = or_fault (get_elem? buf i)
deref_at mem buf (outside bytes) i = or_fault (get_elem? bytes i)

unfoldable pub deref : Bytes → Value → ℕ → Outcome ℕ
unfolding deref_at
deref mem v i = deref_at mem v.buf v.ptr i

-- `raw`: the pointer and the length, or a null pointer where nothing is set.
unfoldable pub raw : Value → Ptr × Option ℕ
raw v = if v.active then (v.ptr, some v.len) else (null, none)
