-- ===== src/Tcp/Stream.antt =====
-- TCP::Session::Stream of src/modules/tcp.cc: one direction of a session. Sequence numbers are
-- relative to the first, and all are modulo 2^32.
use packetmachine.Base.{
  ℕ, ◌+◌, ◌-◌, ◌%◌, Bool, true, false, ◌&&◌, ◌==◌, if◌then◌else◌, Bytes, length, [], ◌∷◌,
}

-- 2^32
abbrev pub u32 : ℕ
u32 = 4294967296

-- `ack_` and `win_size_` start as the memory had them; only debug output reads them.
pub record Stream : Type 0 where
  pub has_base_seq : Bool
  pub base_seq : ℕ
  pub next_seq : ℕ
  pub ack : ℕ
  pub win_size : ℕ
  pub addr : Bytes
  pub port : ℕ
  pub tx_size : ℕ

unfoldable pub construct : Bytes → ℕ → Stream
construct addr port = record {
  has_base_seq = false;
  base_seq = 0;
  next_seq = 0;
  ack = 0;
  win_size = 0;
  addr = addr;
  port = port;
  tx_size = 0;
}

unfoldable pub to_rel_seq : Stream → ℕ → ℕ
to_rel_seq s seq = (seq + u32 - s.base_seq) % u32

unfoldable pub set_base_seq : Stream → ℕ → ℕ → Stream
set_base_seq s seq seg_len = record s {
  has_base_seq = true;
  base_seq = seq;
  next_seq = (1 + seg_len) % u32;
}

-- With its default step.
unfoldable pub inc_seq : Stream → Stream
inc_seq s = record s { next_seq = (s.next_seq + 1) % u32 }

-- `memcmp(a, b, n) == 0` over blocks of one length.
unfoldable pub same_bytes : Bytes → Bytes → Bool
same_bytes [] [] = true
same_bytes (a ∷ xs) (b ∷ ys) = a == b && same_bytes xs ys
same_bytes _ _ = false

unfoldable pub match_addr : Stream → Bytes → ℕ → Bool
unfolding same_bytes
match_addr s addr port = length s.addr == length addr && s.port == port && same_bytes addr s.addr

-- Without its arguments for debug output.
unfoldable pub send : Stream → ℕ → ℕ → Bool × Stream
unfolding to_rel_seq
send s seq data_len =
    if s.has_base_seq
    then if s.next_seq == to_rel_seq s seq
      then (true, record s { next_seq = (s.next_seq + data_len) % u32 })
      else (false, s)
    else (true, s)

unfoldable pub recv : Stream → ℕ → ℕ → Stream
recv s ack win_size = record s { ack = ack; win_size = win_size }

-- Any sequence number, since the window scale is not read.
unfoldable pub in_window : Stream → ℕ → Bool
in_window s seq = true
