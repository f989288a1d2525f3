-- ===== src/Channel/Queue.antt =====
-- MsgQueue of src/channel.hpp, the channel for change requests to the decoding thread. A call holds
-- the mutex from its first statement to its last, so it is one step. `lock` and `unlock` say
-- whether `pthread_mutex_lock` and `pthread_mutex_unlock` return 0.
pub mod Fifo
use mathlib.Core.Option
use packetmachine.Base.{
  Bool, true, false, Option, none, some, List, [], ◌∷◌, ◌++◌, if◌then◌else◌, Outcome, ok, throw,
  fault, ◌>>=◌, runtime_error,
}

pub record MsgQueue {ℓ} (A : Type ℓ) : Type ℓ where
  pub has_msg : Bool
  pub locked : Bool
  pub queue : List A

-- What the two threads do with the queue: one pushes, the other pulls when `has_msg()` is true.
pub data Op {ℓ} (A : Type ℓ) : Type ℓ where
  send : A → Op A
  receive : Op A

module _ {ℓ} {A : Type ℓ} where
  pub construct : MsgQueue A
  construct = record { has_msg = false; locked = false; queue = [] }

  -- The last `if` of both methods, around a result.
  unfoldable pub leave {κ} : {B : Type κ} → Bool → MsgQueue A → B → MsgQueue A × Outcome B
  leave unlock q b =
      if unlock then (record q { locked = false }, ok b) else (q, throw runtime_error)

  -- none: the mutex is held, and the call waits for it.
  unfoldable pub push : Bool → Bool → MsgQueue A → A → Option (MsgQueue A × Outcome (Unit {0}))
  unfolding leave
  push lock unlock q a =
      if q.locked
      then none
      else if lock
      then some
          (leave unlock (record { has_msg = true; locked = true; queue = q.queue ++ (a ∷ []) }) tt)
      else some (q, throw runtime_error)

  -- `if (this->queue_.empty()) this->has_msg_ = false;`
  unfoldable pub flag_after : Bool → List A → Bool
  flag_after flag [] = false
  flag_after flag (a ∷ rest) = flag

  -- `pull` with the mutex held: on an empty queue it throws, and the mutex stays held.
  unfoldable pub pull_locked : Bool → MsgQueue A → List A → MsgQueue A × Outcome A
  unfolding leave flag_after
  pull_locked unlock q [] = (record q { locked = true }, throw runtime_error)
  pull_locked unlock q (a ∷ rest) =
      leave unlock (record { has_msg = flag_after q.has_msg rest; locked = true; queue = rest }) a

  unfoldable pub pull : Bool → Bool → MsgQueue A → Option (MsgQueue A × Outcome A)
  unfolding pull_locked
  pull lock unlock q =
      if q.locked
      then none
      else if lock
      then some (pull_locked unlock q q.queue)
      else some (q, throw runtime_error)

  -- The two threads while `pthread_mutex_lock` and `pthread_mutex_unlock` return 0. none: a thread
  -- waits for the mutex for ever. Otherwise the messages received.
  unfoldable pub run : MsgQueue A → List (Op A) → Option (Outcome (List A))
  run q [] = some (ok [])
  run q (send a ∷ ops) = elim (push true true q a) [
    | none ↦ none
    | some (q', ok u) ↦ run q' ops
    | some (q', throw e) ↦ some (throw e)
    | some (q', fault) ↦ some fault
  ]
  run q (receive ∷ ops) = elim q.has_msg [
    | false ↦ run q ops
    | true ↦ elim (pull true true q) [
      | none ↦ none
      | some (q', ok a) ↦ Option.map (λ r. r >>= λ l. ok (a ∷ l)) (run q' ops)
      | some (q', throw e) ↦ some (throw e)
      | some (q', fault) ↦ some fault
    ]
  ]
