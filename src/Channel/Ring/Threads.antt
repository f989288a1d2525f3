-- ===== src/Channel/Ring/Threads.antt =====
-- The capture thread (`Input::thread_main` of src/packetmachine.cc) and the decoding thread
-- (`Kernel::thread_main` of src/kernel.cc) over one RingBuffer, as interleaved steps. A step is one
-- access to what the threads share; accesses are taken to be sequentially consistent, those to
-- `eos_` too, which is a plain bool in the source.
use packetmachine.Base.{ℕ, ◌+◌, ◌≡◌, true, false}
use packetmachine.Channel.Ring.{
  Ring, construct, is_full, wait_for_room, retained, push, is_empty, wait_for_packet, pulled,
  advance, close, closed, update,
}

-- Where the capture thread stands: at the loop of `retain`, with the pointer that it retained, or
-- past `close`.
pub data Producer : Type 0 where
  retaining : Producer
  writing : ℕ → Producer
  ended : Producer

-- Where the decoding thread stands: at the test of the loop of `pull`, in the loop before the test
-- of `closed()`, behind the loop, with the packet that it pulled, or past its own loop.
pub data Consumer : Type 0 where
  testing checking taking : Consumer
  using : ℕ → Consumer
  stopped : Consumer

-- `sent`, `got` and `history` are not in the program: how many packets were pushed and pulled,
-- and what the packets numbered from 1 held when they were pushed.
pub record State (A : Type 0) : Type 0 where
  pub ring : Ring
  pub heap : ℕ → A
  pub producer : Producer
  pub consumer : Consumer
  pub sent : ℕ
  pub got : ℕ
  pub history : ℕ → A

module _ {A : Type 0} where
  unfoldable pub initial : (ℕ → A) → State A
  unfolding construct
  initial heap = record {
    ring = construct;
    heap = heap;
    producer = retaining;
    consumer = testing;
    sent = 0;
    got = 0;
    history = heap;
  }

  pub data Step (s : State A) : State A → Type 0 where
    -- while (n == this->pull_idx_) { this->push_wait_ += 1; ... }
    wait_room :
        s.producer ≡ retaining
        → is_full s.ring ≡ true
        → Step s (record s { ring = wait_for_room s.ring })
    -- return this->ring_[n];
    retain :
        s.producer ≡ retaining
        → is_full s.ring ≡ false
        → Step s (record s { producer = writing (retained s.ring) })
    -- `this->cap_->read(pkt)` writes to the packet.
    write :
        (p : ℕ) (a : A) → s.producer ≡ writing p → Step s (record s { heap = update s.heap p a })
    -- if (rc == Capture::OK) this->channel_->push(pkt);
    send :
        (p : ℕ)
        → s.producer ≡ writing p
        → Step s (record s {
          ring = push s.ring p;
          producer = retaining;
          sent = s.sent + 1;
          history = update s.history (s.sent + 1) (s.heap p);
        })
    -- else { this->channel_->close(); ... break; }
    finish :
        (p : ℕ)
        → s.producer ≡ writing p
        → Step s (record s { ring = close s.ring; producer = ended })
    -- while (n == this->next(this->push_idx_)) {
    find_empty :
        s.consumer ≡ testing → is_empty s.ring ≡ true → Step s (record s { consumer = checking })
    find_packet :
        s.consumer ≡ testing → is_empty s.ring ≡ false → Step s (record s { consumer = taking })
    -- if (this->closed()) return nullptr;
    stop : s.consumer ≡ checking → closed s.ring ≡ true → Step s (record s { consumer = stopped })
    -- this->pull_wait_ += 1; ... }
    wait_packet :
        s.consumer ≡ checking
        → closed s.ring ≡ false
        → Step s (record s { ring = wait_for_packet s.ring; consumer = testing })
    -- T* pkt = this->ring_[n]; this->pull_idx_ = n; return pkt;
    take :
        s.consumer ≡ taking
        → Step s
            (record s { ring = advance s.ring; consumer = using (pulled s.ring); got = s.got + 1 })
    -- the body of the decoding thread's loop ends
    drop : (p : ℕ) → s.consumer ≡ using p → Step s (record s { consumer = testing })

  pub data Reach (s : State A) : State A → Type 0 where
    here : Reach s s
    next : {t u : State A} → Reach s t → Step t u → Reach s u
