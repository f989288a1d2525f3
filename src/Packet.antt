-- ===== src/Packet.antt =====
-- src/packet.hpp and src/packet.cc: a captured packet and the buffer that it reuses.
pub mod Store
use packetmachine.Base.{
  ℕ, ◌≡◌, Bool, true, false, Option, none, some, List, ltb, if◌then◌else◌, length, Bytes, memcpy,
}

-- `struct timeval`
pub record Timeval : Type 0 where
  pub tv_sec : ℕ
  pub tv_usec : ℕ

-- `buf` is the allocated block, or none for a null pointer.
pub record Packet : Type 0 where
  pub len : ℕ
  pub cap_len : ℕ
  pub buf_len : ℕ
  pub buf : Option Bytes
  pub tv : Timeval

-- The constructor sets `buf_len_` and `buf_` only: the other fields are what the memory held.
pub construct : ℕ → ℕ → Timeval → Packet
construct len cap_len tv = record { len = len; cap_len = cap_len; buf_len = 0; buf = none; tv = tv }

-- `::memcpy(this->buf_, data, len); this->len_ = len; return true;`
unfoldable pub copy_in : Packet → Bytes → Bytes → Packet × Bool
copy_in p block src = (record p { buf = some (memcpy block src); len = length src }, true)

-- The branch that allocates. On a null result `buf_` is null and `buf_len_` as before.
unfoldable pub store_fresh : Packet → Option Bytes → Bytes → Packet × Bool
unfolding copy_in
store_fresh p none src = (record p { buf = none }, false)
store_fresh p (some block) src = copy_in (record p { buf_len = length src }) block src

-- `data` and `len` are one list. `realloc` is what `::realloc(this->buf_, len)` returns: null, or
-- a block.
unfoldable pub store_into : Packet → Option Bytes → Option Bytes → Bytes → Packet × Bool
unfolding store_fresh
store_into p none realloc src = store_fresh p realloc src
store_into p (some block) realloc src =
    if ltb p.buf_len (length src) then store_fresh p realloc src else copy_in p block src

unfoldable pub store : Packet → Option Bytes → Bytes → Packet × Bool
unfolding store_into
store p realloc src = store_into p p.buf realloc src

unfoldable pub set_cap_len : Packet → ℕ → Packet
set_cap_len p cap_len = record p { cap_len = cap_len }

unfoldable pub set_tv : Packet → Timeval → Packet
set_tv p tv = record p { tv = record { tv_sec = tv.tv_sec; tv_usec = tv.tv_usec } }
