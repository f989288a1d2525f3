-- ===== src/Channel/Ring/Safety.antt =====
-- What holds in every state that the two threads can reach: the indices stay in range, each packet
-- is pulled once and in order, and no packet is written while the other thread may read it.
use packetmachine.Base.{
  ℕ, ◌+◌, ◌%◌, ◌≤◌, ◌<◌, ◌≡◌, ◌∙◌, ◌≢◌, refl, ap, subst, false, arith, ◌==◌, Bool-cases, inl, inr,
}
use packetmachine.Channel.Ring.{
  Ring, ring_size, next, construct, is_full, wait_for_room, retained, push, is_empty,
  wait_for_packet, pulled, advance, close, update,
}
use packetmachine.Channel.Ring.Threads.{
  Producer, retaining, writing, ended, Consumer, testing, checking, taking, using, stopped, State,
  initial, Step, wait_room, retain, write, send, finish, find_empty, find_packet, stop, wait_packet,
  take, drop, Reach, here,
}
use packetmachine.Channel.Ring.Threads

-- What the capture thread knows: the pointer it holds is of the slot for the next packet, which
-- the decoding thread has left.
abbrev pub ProducerInv : Producer → ℕ → ℕ → Type 0
ProducerInv (writing p) sent got = (p ≡ (sent + 1) % ring_size) × (sent + 1 < got + ring_size)
ProducerInv _ sent got = Unit {0}

-- What the decoding thread knows: there is a packet to take; or it holds the one it took last.
abbrev pub ConsumerInv : Consumer → ℕ → ℕ → Type 0
ConsumerInv taking sent got = got < sent
ConsumerInv (using p) sent got = (p ≡ got % ring_size) × (0 < got)
ConsumerInv _ sent got = Unit {0}

module _ {A : Type 0} where
  pub record Inv (s : State A) : Type 0 where
    pub pushed_at : s.ring.push_idx ≡ s.sent % ring_size
    pub pulled_at : s.ring.pull_idx ≡ s.got % ring_size
    pub order : s.got ≤ s.sent
    pub room : s.sent < s.got + ring_size
    pub own_slots : (i : ℕ) → i < ring_size → s.ring.slots i ≡ i
    pub held : (k : ℕ) → s.got ≤ k → k ≤ s.sent → 0 < k → s.heap (k % ring_size) ≡ s.history k
    pub producer : ProducerInv s.producer s.sent s.got
    pub consumer : ConsumerInv s.consumer s.sent s.got

  pub initial-Inv : (heap : ℕ → A) → Inv (initial heap)
  unfolding initial construct
  initial-Inv heap = record {
    pushed_at = refl;
    pulled_at = refl;
    order = omega arith;
    room = omega arith;
    own_slots = λ i h. refl;
    held = λ k h h' h''. absurd (omega arith);
    producer = tt;
    consumer = tt;
  }

ProducerInv-got :
    (p : Producer) (sent got : ℕ) → ProducerInv p sent got → ProducerInv p sent (got + 1)
ProducerInv-got (writing p) sent got h = omega arith
ProducerInv-got _ sent got h = tt

ConsumerInv-sent :
    (c : Consumer) (sent got : ℕ) → ConsumerInv c sent got → ConsumerInv c (sent + 1) got
ConsumerInv-sent taking sent got h = omega arith
ConsumerInv-sent (using p) sent got h = h
ConsumerInv-sent _ sent got h = tt

update_ne {ℓ} : {A : Type ℓ} (f : ℕ → A) (i j : ℕ) (a : A) → j ≢ i → update f i a j ≡ f j
update_ne f i j a h = ground arith

update_self {ℓ} : {A : Type ℓ} (f : ℕ → A) (i : ℕ) (a : A) → update f i a i ≡ a
update_self f i a = ground arith

module _ {A : Type 0} (s : State A) (v : Inv s) where
  held_pointer : (p : ℕ) → s.producer ≡ writing p → ProducerInv (writing p) s.sent s.got
  held_pointer p e = subst (λ x. ProducerInv x s.sent s.got) e v.producer

  may_take : s.consumer ≡ taking → s.got + 1 ≤ s.sent
  may_take e = omega (arith, subst (λ x. ConsumerInv x s.sent s.got) e v.consumer)

  next_push : next s.ring.push_idx ≡ (s.sent + 1) % ring_size
  next_push = omega (arith, v.pushed_at)

  next_pull : next s.ring.pull_idx ≡ (s.got + 1) % ring_size
  next_pull = omega (arith, v.pulled_at)

  retain-Inv : is_full s.ring ≡ false → Inv (record s { producer = writing (retained s.ring) })
  unfolding is_full retained
  retain-Inv f = record {
    pushed_at = v.pushed_at;
    pulled_at = v.pulled_at;
    order = v.order;
    room = v.room;
    own_slots = v.own_slots;
    held = v.held;
    producer = (
      v.own_slots _ (omega arith) ∙ next_push,
      ground (arith, v.pushed_at, v.pulled_at, v.order, v.room),
    );
    consumer = v.consumer;
  }

  write-Inv : (p : ℕ) (a : A) → s.producer ≡ writing p → Inv (record s { heap = update s.heap p a })
  write-Inv p a e = record {
    pushed_at = v.pushed_at;
    pulled_at = v.pulled_at;
    order = v.order;
    room = v.room;
    own_slots = v.own_slots;
    held = λ k h h' h''.
        update_ne s.heap p _ a (λ same. absurd (omega (arith, held_pointer p e, v.order)))
        ∙ v.held k h h' h'';
    producer = v.producer;
    consumer = v.consumer;
  }

  send-Inv :
      (p : ℕ)
      → s.producer ≡ writing p
      → Inv (record s {
        ring = push s.ring p;
        producer = retaining;
        sent = s.sent + 1;
        history = update s.history (s.sent + 1) (s.heap p);
      })
  unfolding push
  send-Inv p e = record {
    pushed_at = next_push;
    pulled_at = v.pulled_at;
    order = omega (arith, v.order);
    room = omega (arith, held_pointer p e);
    own_slots = λ i h. ground (arith, v.own_slots i h, next_push, held_pointer p e);
    held = λ k h h' h''. elim (Bool-cases (k == s.sent + 1)) [
      | inl last ↦ rw last (ap s.heap (ground (arith, held_pointer p e)))
      | inr old ↦ rw old (v.held k h (ground arith) h'')
    ];
    producer = tt;
    consumer = ConsumerInv-sent s.consumer s.sent s.got v.consumer;
  }

  take-Inv :
      s.consumer ≡ taking
      → Inv (record s { ring = advance s.ring; consumer = using (pulled s.ring); got = s.got + 1 })
  unfolding advance pulled
  take-Inv e = record {
    pushed_at = v.pushed_at;
    pulled_at = next_pull;
    order = may_take e;
    room = omega (arith, v.room);
    own_slots = v.own_slots;
    held = λ k h h' h''. v.held k (omega arith) h' h'';
    producer = ProducerInv-got s.producer s.sent s.got v.producer;
    consumer = (v.own_slots _ (omega arith) ∙ next_pull, omega arith);
  }

  -- The steps that touch neither an index nor a packet.
  same-Inv :
      (r : Ring) (p : Producer) (c : Consumer)
      → r.push_idx ≡ s.ring.push_idx
      → r.pull_idx ≡ s.ring.pull_idx
      → r.slots ≡ s.ring.slots
      → ProducerInv p s.sent s.got
      → ConsumerInv c s.sent s.got
      → Inv (record s { ring = r; producer = p; consumer = c })
  same-Inv r p c e f g hp hc = record {
    pushed_at = e ∙ v.pushed_at;
    pulled_at = f ∙ v.pulled_at;
    order = v.order;
    room = v.room;
    own_slots = λ i h. rw g (v.own_slots i h);
    held = v.held;
    producer = hp;
    consumer = hc;
  }

  pub find_packet-Inv : is_empty s.ring ≡ false → s.got < s.sent
  unfolding is_empty
  find_packet-Inv f = ground (arith, v.pushed_at, v.pulled_at, v.order, v.room)

module _ {A : Type 0} where
  pub step-Inv : {s t : State A} → Inv s → Step s t → Inv t
  unfolding wait_for_room close wait_for_packet
  step-Inv {s} v (wait_room e f) =
      same-Inv s v (wait_for_room s.ring) s.producer s.consumer refl refl refl v.producer v.consumer
  step-Inv {s} v (retain e f) = retain-Inv s v f
  step-Inv {s} v (write p a e) = write-Inv s v p a e
  step-Inv {s} v (send p e) = send-Inv s v p e
  step-Inv {s} v (finish p e) =
      same-Inv s v (close s.ring) ended s.consumer refl refl refl tt v.consumer
  step-Inv {s} v (find_empty e f) =
      same-Inv s v s.ring s.producer checking refl refl refl v.producer tt
  step-Inv {s} v (find_packet e f) =
      same-Inv s v s.ring s.producer taking refl refl refl v.producer (find_packet-Inv s v f)
  step-Inv {s} v (stop e f) = same-Inv s v s.ring s.producer stopped refl refl refl v.producer tt
  step-Inv {s} v (wait_packet e f) =
      same-Inv s v (wait_for_packet s.ring) s.producer testing refl refl refl v.producer tt
  step-Inv {s} v (take e) = take-Inv s v e
  step-Inv {s} v (drop p e) = same-Inv s v s.ring s.producer testing refl refl refl v.producer tt

  pub Reach-Inv : {s t : State A} → Inv s → Reach s t → Inv t
  Reach-Inv v here = v
  Reach-Inv v (Threads.Reach.next r st) = step-Inv (Reach-Inv v r) st

  -- In every state that the threads can reach from the start: the indices are within the ring, no
  -- more packets have been pulled than pushed, and fewer than `ring_size` are in flight.
  pub Reach-in_range :
      (heap : ℕ → A) {s : State A}
      → Reach (initial heap) s
      → (s.ring.push_idx < ring_size)
        × (s.ring.pull_idx < ring_size)
        × (s.got ≤ s.sent)
        × (s.sent < s.got + ring_size)
  Reach-in_range heap r = let v = Reach-Inv (initial-Inv heap) r in omega (arith, v)

  -- The capture thread never writes to a packet that the decoding thread has pulled and not yet
  -- left: in every reachable state their pointers differ.
  pub Reach-no_race :
      (heap : ℕ → A) {s : State A} (p q : ℕ)
      → Reach (initial heap) s
      → s.producer ≡ writing p
      → s.consumer ≡ using q
      → p ≢ q
  Reach-no_race heap {s} p q r e f same =
      let v = Reach-Inv (initial-Inv heap) r in
      omega (
        arith,
        subst (λ x. ProducerInv x s.sent s.got) e v.producer,
        subst (λ x. ConsumerInv x s.sent s.got) f v.consumer,
        v.order,
      )

  -- In every reachable state the packet that the decoding thread works on is the one with the
  -- number of pulls so far, and it holds what it held when it was pushed under that number: packets
  -- are pulled in the order of the pushes, none twice and none left out, and stay as they were
  -- pushed while they are worked on.
  pub Reach-fifo :
      (heap : ℕ → A) {s : State A} (q : ℕ)
      → Reach (initial heap) s
      → s.consumer ≡ using q
      → (0 < s.got) × (s.got ≤ s.sent) × (s.heap q ≡ s.history s.got)
  Reach-fifo heap {s} q r f =
      let v = Reach-Inv (initial-Inv heap) r in
      let (at, some_got) = subst (λ x. ConsumerInv x s.sent s.got) f v.consumer in
      (some_got, v.order, ap s.heap at ∙ v.held s.got (omega arith) v.order some_got)
