-- ===== src/Channel/Ring.antt =====
-- RingBuffer of src/channel.hpp, the channel for packets from the capture thread to the decoding
-- thread, by its atomic parts. The loops of `retain` and `pull` wait for the other thread, so they
-- stand in Ring/Threads as steps, made of the functions here.
pub mod Threads
pub mod Safety
pub mod Close
use packetmachine.Base.{ℕ, ◌+◌, ◌%◌, ◌^◌, Bool, true, false, ◌==◌, if◌then◌else◌}

-- `ring_size_(0xfff)`
abbrev pub ring_size : ℕ
ring_size = 0xfff

-- `slots` is `ring_`, a vector of pointers by index; a pointer is the number of an object.
pub record Ring : Type 0 where
  pub push_idx : ℕ
  pub pull_idx : ℕ
  pub slots : ℕ → ℕ
  pub push_wait : ℕ
  pub pull_wait : ℕ
  pub eos : Bool

-- The constructor makes an object for each slot: slot `i` points to object `i`.
unfoldable pub construct : Ring
construct = record {
  push_idx = 0;
  pull_idx = 0;
  slots = λ i. i;
  push_wait = 0;
  pull_wait = 0;
  eos = false;
}

-- Its assertion, `idx <= ring_size_`, is implied by the bounds of Ring/Safety.
abbrev pub next : ℕ → ℕ
next idx = (idx + 1) % ring_size

-- A write to a slot or to an object.
abbrev pub update {ℓ} : {A : Type ℓ} → (ℕ → A) → ℕ → A → ℕ → A
update f i a j = if j == i then a else f j

-- `retain`: the test of its loop, a round of it, and the pointer that it returns.
unfoldable pub is_full : Ring → Bool
is_full r = next r.push_idx == r.pull_idx

unfoldable pub wait_for_room : Ring → Ring
wait_for_room r = record r { push_wait = (r.push_wait + 1) % 2 ^ 64 }

unfoldable pub retained : Ring → ℕ
retained r = r.slots (next r.push_idx)

unfoldable pub push : Ring → ℕ → Ring
push r p = let n = next r.push_idx in record r { slots = update r.slots n p; push_idx = n }

-- `pull`: the test of its loop, a round of it, and what it returns and stores behind the loop.
unfoldable pub is_empty : Ring → Bool
is_empty r = next r.pull_idx == next r.push_idx

unfoldable pub wait_for_packet : Ring → Ring
wait_for_packet r = record r { pull_wait = (r.pull_wait + 1) % 2 ^ 64 }

unfoldable pub pulled : Ring → ℕ
pulled r = r.slots (next r.pull_idx)

unfoldable pub advance : Ring → Ring
advance r = record r { pull_idx = next r.pull_idx }

unfoldable pub close : Ring → Ring
close r = record r { eos = true }

unfoldable pub closed : Ring → Bool
closed r = r.eos
