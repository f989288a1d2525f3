-- ===== src/Channel/Ring/Close.antt =====
-- The end of the stream: what `close` and the test of `closed()` in `pull` do to the last packets.
use packetmachine.Base.{ℕ, ◌+◌, ◌≡◌, ◌≢◌, refl, true, false, arith}
use packetmachine.Channel.Ring.{is_full, push, is_empty, close, closed, update}
use packetmachine.Channel.Ring.Threads.{
  Producer, retaining, writing, ended, Consumer, testing, checking, taking, using, stopped, State,
  initial, Step, wait_room, retain, write, send, finish, find_empty, find_packet, stop, wait_packet,
  take, drop, Reach, here,
}
use packetmachine.Channel.Ring.Threads
use packetmachine.Channel.Ring.Safety.{Inv, initial-Inv, step-Inv, Reach-Inv}

module _ {A : Type 0} where
  -- The state in which the capture thread pushes its packet and closes the ring while the decoding
  -- thread stands between its two tests.
  lost : State A → ℕ → State A
  lost s p = record s {
    ring = close (push s.ring p);
    producer = ended;
    consumer = stopped;
    sent = s.sent + 1;
    history = update s.history (s.sent + 1) (s.heap p);
  }

  is_full-push : (s : State A) (p : ℕ) → Inv s → s.sent ≡ s.got → is_full (push s.ring p) ≡ false
  unfolding is_full push
  is_full-push s p v e = ground (arith, v.pushed_at, v.pulled_at)

  Reach-lost :
      (s : State A) (p : ℕ)
      → Inv s
      → s.sent ≡ s.got
      → s.producer ≡ writing p
      → s.consumer ≡ checking
      → Reach s (lost s p)
  unfolding lost closed close
  Reach-lost s p v e hp hc =
      Threads.Reach.next
        (Threads.Reach.next
          (Threads.Reach.next (Threads.Reach.next here (send p hp))
            (retain refl (is_full-push s p v e)))
          (finish _ refl))
        (stop hc refl)

  -- The race at the end of the stream. From every reachable state in which all packets pushed so
  -- far have been pulled, the decoding thread has found the ring empty and not yet tested
  -- `closed()`, and the capture thread holds a packet, there is a run in which that packet is
  -- pushed, the ring is closed, and the decoding thread has stopped without pulling it.
  pub close_loses :
      (heap : ℕ → A) (s : State A) (p : ℕ)
      → Reach (initial heap) s
      → s.sent ≡ s.got
      → s.producer ≡ writing p
      → s.consumer ≡ checking
      → (t : State A) × Reach s t
        × (t.sent ≡ s.sent + 1)
        × (t.history t.sent ≡ s.heap p)
        × (closed t.ring ≡ true)
        × (t.consumer ≡ stopped)
        × (t.got ≡ s.got)
  unfolding lost closed close
  close_loses heap s p r e hp hc = (
    lost s p,
    Reach-lost s p (Reach-Inv (initial-Inv heap) r) e hp hc,
    refl,
    ground arith,
    refl,
    refl,
    refl,
  )

  -- What holds once the ring is closed with the decoding thread at neither later test.
  record IsDraining (s : State A) : Type 0 where
    inv : Inv s
    no_more : s.producer ≡ ended
    checks : s.consumer ≡ checking → s.got ≡ s.sent
    stops : s.consumer ≡ stopped → s.got ≡ s.sent

  empty_all : (s : State A) → Inv s → is_empty s.ring ≡ true → s.got ≡ s.sent
  unfolding is_empty
  empty_all s v f = ground (arith, v.pushed_at, v.pulled_at, v.order, v.room)

  Step-IsDraining : {s t : State A} → Step s t → IsDraining s → IsDraining t
  Step-IsDraining {s} st d = record {
    inv = step-Inv d.inv st;
    no_more = ended_stays st d.no_more;
    checks = checks_stay st d;
    stops = stops_stay st d;
  }
    where
      ended_stays : {s t : State A} → Step s t → s.producer ≡ ended → t.producer ≡ ended
      ended_stays (retain e f) h = cc
      ended_stays (send p e) h = cc
      ended_stays (finish p e) h = refl
      ended_stays _ h = h

      checks_stay :
          {s t : State A} → Step s t → IsDraining s → t.consumer ≡ checking → t.got ≡ t.sent
      checks_stay {s} (find_empty e f) d h = empty_all s d.inv f
      checks_stay (send p e) d h = cc (d.no_more)
      checks_stay (find_packet e f) d h = cc
      checks_stay (stop e f) d h = cc
      checks_stay (wait_packet e f) d h = cc
      checks_stay (take e) d h = cc
      checks_stay (drop p e) d h = cc
      checks_stay _ d h = d.checks h

      stops_stay : {s t : State A} → Step s t → IsDraining s → t.consumer ≡ stopped → t.got ≡ t.sent
      stops_stay (stop e f) d h = d.checks e
      stops_stay (send p e) d h = cc (d.no_more)
      stops_stay (find_empty e f) d h = cc
      stops_stay (find_packet e f) d h = cc
      stops_stay (wait_packet e f) d h = cc
      stops_stay (take e) d h = cc
      stops_stay (drop p e) d h = cc
      stops_stay _ d h = d.stops h

  Reach-IsDraining : {s t : State A} → IsDraining s → Reach s t → IsDraining t
  Reach-IsDraining d here = d
  Reach-IsDraining d (Threads.Reach.next r st) = Step-IsDraining st (Reach-IsDraining d r)

  -- A packet is lost in no other way: from every reachable state in which the ring is closed and
  -- the decoding thread is at neither test of `closed()` nor past it, it stops only when it has
  -- pulled all packets that were pushed.
  pub close_drains :
      (heap : ℕ → A) {s t : State A}
      → Reach (initial heap) s
      → s.producer ≡ ended
      → s.consumer ≢ checking
      → s.consumer ≢ stopped
      → Reach s t
      → t.consumer ≡ stopped
      → t.got ≡ t.sent
  close_drains heap {s} r e nc ns r' h =
      (Reach-IsDraining
          (record {
            inv = Reach-Inv (initial-Inv heap) r;
            no_more = e;
            checks = λ c. absurd (nc c);
            stops = λ c. absurd (ns c);
          })
          r').stops
        h
