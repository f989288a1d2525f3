-- ===== src/Tests/Rings.antt =====
-- The two channels: a run of the ring's two threads, and of the queue.
use packetmachine.Base.{
  ℕ, ◌≡◌, ◌≢◌, ◌+◌, ◌≤◌, ◌<◌, refl, true, false, none, some, [], ◌∷◌, List, ok, throw,
  runtime_error,
}
use packetmachine.Channel.Ring.{
  ring_size, construct, push, is_full, is_empty, close, advance, closed, retained, pulled, update,
}
use packetmachine.Channel.Ring.Threads.{
  State, Reach, here, initial, Producer, retaining, writing, ended, Consumer, testing, checking,
  taking, using, stopped, retain, write, send, finish, find_empty, find_packet, stop, wait_packet,
  take, drop,
}
use packetmachine.Channel.Ring.Threads
use packetmachine.Channel.Ring.Safety.{Reach-in_range, Reach-no_race, Reach-fifo}
use packetmachine.Channel.Ring.Close.{close_loses, close_drains}
use packetmachine.Channel.Queue.{MsgQueue, Op, receive, run, pull}
use packetmachine.Channel.Queue
use packetmachine.Channel.Queue.Fifo.{IsValid, received, run_refines, pull_empty_blocks}

abbrev zeros : ℕ → ℕ
zeros i = 0

-- The capture thread holds its first packet, into which it has written 7, and the decoding thread
-- has found the ring empty.
abbrev near : State ℕ
near = record {
  ring = record {
    push_idx = 0;
    pull_idx = 0;
    slots = λ i. i;
    push_wait = 0;
    pull_wait = 0;
    eos = false;
  };
  heap = update zeros 1 7;
  producer = writing 1;
  consumer = checking;
  sent = 0;
  got = 0;
  history = zeros;
}

near-Reach : Reach (initial zeros) near
unfolding initial is_full construct is_empty retained
near-Reach =
    Threads.Reach.next
      (Threads.Reach.next (Threads.Reach.next here (retain refl refl)) (write 1 7 refl))
      (find_empty refl refl)

-- The first packet is pulled, and the capture thread writes 9 into the second.
abbrev busy : State ℕ
busy = record {
  ring = record {
    push_idx = 1;
    pull_idx = 1;
    slots = update (λ i. i) 1 1;
    push_wait = 0;
    pull_wait = 0;
    eos = false;
  };
  heap = update (update zeros 1 7) 2 9;
  producer = writing 2;
  consumer = using 1;
  sent = 1;
  got = 1;
  history = update zeros 1 7;
}

busy-Reach : Reach (initial zeros) busy
unfolding initial is_full construct is_empty retained push pulled advance
busy-Reach =
    Threads.Reach.next
      (Threads.Reach.next
        (Threads.Reach.next
          (Threads.Reach.next
            (Threads.Reach.next
              (Threads.Reach.next (Threads.Reach.next here (retain refl refl)) (write 1 7 refl))
              (send 1 refl))
            (find_packet refl refl))
          (take refl))
        (retain refl refl))
      (write 2 9 refl)

-- The ring is closed with one packet in it; and the end of the run from there.
abbrev closing : State ℕ
closing = record {
  ring = record {
    push_idx = 1;
    pull_idx = 0;
    slots = update (λ i. i) 1 1;
    push_wait = 0;
    pull_wait = 0;
    eos = true;
  };
  heap = update zeros 1 7;
  producer = ended;
  consumer = testing;
  sent = 1;
  got = 0;
  history = update zeros 1 7;
}

abbrev done : State ℕ
done = record {
  ring = record {
    push_idx = 1;
    pull_idx = 1;
    slots = update (λ i. i) 1 1;
    push_wait = 0;
    pull_wait = 0;
    eos = true;
  };
  heap = update zeros 1 7;
  producer = ended;
  consumer = stopped;
  sent = 1;
  got = 1;
  history = update zeros 1 7;
}

closing-Reach : Reach (initial zeros) closing
unfolding initial is_full construct retained push close
closing-Reach =
    Threads.Reach.next
      (Threads.Reach.next
        (Threads.Reach.next
          (Threads.Reach.next (Threads.Reach.next here (retain refl refl)) (write 1 7 refl))
          (send 1 refl))
        (retain refl refl))
      (finish 2 refl)

done-Reach : Reach closing done
unfolding is_empty pulled advance closed
done-Reach =
    Threads.Reach.next
      (Threads.Reach.next
        (Threads.Reach.next
          (Threads.Reach.next (Threads.Reach.next here (find_packet refl refl)) (take refl))
          (drop 1 refl))
        (find_empty refl refl))
      (stop refl refl)

testing_not_checking : testing ≢ checking
testing_not_checking = cc

testing_not_stopped : testing ≢ stopped
testing_not_stopped = cc

Reach-in_range_example : (1 < ring_size) × (1 < ring_size) × (1 ≤ 1) × (1 < 1 + ring_size)
Reach-in_range_example = Reach-in_range zeros busy-Reach

Reach-no_race_example : ◌≢◌ {A = ℕ} 2 1
Reach-no_race_example = Reach-no_race zeros 2 1 busy-Reach refl refl

Reach-fifo_example : (0 < 1) × (1 ≤ 1) × (busy.heap 1 ≡ busy.history 1)
Reach-fifo_example = Reach-fifo zeros 1 busy-Reach refl

close_loses_example :
    (t : State ℕ) × Reach near t
    × (t.sent ≡ 1)
    × (t.history t.sent ≡ 7)
    × (closed t.ring ≡ true)
    × (t.consumer ≡ stopped)
    × (t.got ≡ 0)
close_loses_example = close_loses zeros near 1 near-Reach refl refl refl

close_drains_example : done.got ≡ done.sent
close_drains_example =
    close_drains zeros closing-Reach refl testing_not_checking testing_not_stopped done-Reach refl

abbrev two : MsgQueue ℕ
two = record { has_msg = true; locked = false; queue = 4 ∷ 5 ∷ [] }

two-IsValid : IsValid two
two-IsValid = record { free = refl; flag = refl }

abbrev nothing : MsgQueue ℕ
nothing = record { has_msg = false; locked = false; queue = [] }

abbrev ops : List (Op ℕ)
ops = receive ∷ Op.send 6 ∷ receive ∷ receive ∷ receive ∷ []

received_in_order : received (4 ∷ 5 ∷ []) ops ≡ 4 ∷ 5 ∷ 6 ∷ []
received_in_order = refl

run_refines_example : run two ops ≡ some (ok (received (4 ∷ 5 ∷ []) ops))
run_refines_example = run_refines two ops two-IsValid

pull_empty_blocks_example :
    (q : MsgQueue ℕ) × (pull true true nothing ≡ some (q, throw runtime_error))
    × (Queue.push true true q 3 ≡ none)
    × (pull true true q ≡ none)
pull_empty_blocks_example = pull_empty_blocks nothing true true true 3 refl refl
