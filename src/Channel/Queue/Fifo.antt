-- ===== src/Channel/Queue/Fifo.antt =====
-- MsgQueue is a first-in, first-out queue while its mutex works and `has_msg` is asked first.
use packetmachine.Base.{
  ◌≡◌, ◌∙◌, refl, ap, Bool, true, false, none, some, List, [], ◌∷◌, ◌++◌, arith, ok, throw,
  runtime_error,
}
use packetmachine.Channel.Queue.{MsgQueue, push, pull, pull_locked, Op, send, receive, run}

module _ {ℓ} {A : Type ℓ} where
  abbrev pub non_empty : List A → Bool
  non_empty [] = false
  non_empty (a ∷ rest) = true

  -- No thread holds the mutex, and the flag tells whether there is a message.
  pub record IsValid (q : MsgQueue A) : Type 0 where
    pub free : q.locked ≡ false
    pub flag : q.has_msg ≡ non_empty q.queue

  -- A valid queue that holds these messages.
  abbrev valid : List A → MsgQueue A
  valid xs = record { has_msg = non_empty xs; locked = false; queue = xs }

  valid_eq : (q : MsgQueue A) → IsValid q → q ≡ valid q.queue
  valid_eq q v = ground arith

  push-valid :
      (xs : List A) (a : A) → push true true (valid xs) a ≡ some (valid (xs ++ (a ∷ [])), ok tt)
  unfolding push
  push-valid [] a = refl
  push-valid (x ∷ xs) a = refl

  pull-valid : (x : A) (xs : List A) → pull true true (valid (x ∷ xs)) ≡ some (valid xs, ok x)
  unfolding pull
  pull-valid x [] = refl
  pull-valid x (y ∷ xs) = refl

  -- The messages that a plain list queue gives.
  abbrev pub received : List A → List (Op A) → List A
  received xs [] = []
  received xs (send a ∷ ops) = received (xs ++ (a ∷ [])) ops
  received [] (receive ∷ ops) = received [] ops
  received (x ∷ xs) (receive ∷ ops) = x ∷ received xs ops

  run-valid : (xs : List A) (ops : List (Op A)) → run (valid xs) ops ≡ some (ok (received xs ops))
  unfolding run
  run-valid [] [] = refl
  run-valid (x ∷ xs) [] = refl
  run-valid xs (send a ∷ ops) = rw (push-valid xs a, run) (run-valid (xs ++ (a ∷ [])) ops)
  run-valid [] (receive ∷ ops) = run-valid [] ops
  run-valid (x ∷ xs) (receive ∷ ops) = rw (pull-valid x xs, run, run-valid xs ops)

  -- While every call that locks or unlocks the mutex succeeds: pushes, and pulls behind `has_msg`,
  -- on a valid queue never throw, fault or wait for ever, and the messages come out in the order in
  -- which they went in, each once.
  pub run_refines :
      (q : MsgQueue A) (ops : List (Op A))
      → IsValid q
      → run q ops ≡ some (ok (received q.queue ops))
  run_refines q ops v = ap (λ k. run k ops) (valid_eq q v) ∙ run-valid q.queue ops

  -- A pull from an empty queue whose mutex is free throws with the mutex held, so that every later
  -- push and pull waits for ever.
  pub pull_empty_blocks :
      (q : MsgQueue A) (unlock l u : Bool) (a : A)
      → q.locked ≡ false
      → q.queue ≡ []
      → (q' : MsgQueue A) × (pull true unlock q ≡ some (q', throw runtime_error))
        × (push l u q' a ≡ none)
        × (pull l u q' ≡ none)
  unfolding pull push
  pull_empty_blocks q unlock l u a f e =
      (record q { locked = true }, ground (arith, ap (pull_locked unlock q) e), refl, refl)
