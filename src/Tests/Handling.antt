-- ===== src/Tests/Handling.antt =====
-- A kernel with one event and two handlers of it.
use packetmachine.Base.{
  ℕ, ◌≡◌, refl, true, false, none, some, [], ◌∷◌, arith, ok, Outcome, ◌>>=◌, Satisfies, List, Bool,
}
use packetmachine.Kernel.{Kernel, delete_handler}
use packetmachine.Kernel.Handlers.{Entity, activates, deactivates, destroy, calls, destroy-calls}
use packetmachine.Kernel.Dispatch.{IsWired, IsDeleted, dispatch, delete_handler-IsDeleted}

abbrev entity : ℕ → Entity
entity n = record { cb = n; ev_id = 0; id = n; active = true; destroyed = false }

abbrev kernel : Kernel
kernel = record {
  entities = entity 1 ∷ entity 2 ∷ [];
  handlers = (some 0 ∷ none ∷ some 1 ∷ []) ∷ [];
  handler_map = (1, 0) ∷ (2, 1) ∷ [];
  global_hdlr_id = 2;
  running = false;
  requests = [];
}

kernel-IsWired : IsWired kernel
kernel-IsWired = record {
  pointers = omega arith;
  entries = ((omega arith, refl), ((omega arith, refl), tt));
}

both_called : dispatch kernel (0 ∷ []) ≡ ok (0 ∷ 1 ∷ [])
unfolding dispatch
both_called = refl

abbrev later : Bool × Kernel → Outcome (List ℕ)
later (done, k) = dispatch k (0 ∷ [])

one_called : (delete_handler kernel 0 >>= later) ≡ ok (1 ∷ [])
unfolding dispatch delete_handler packetmachine.Kernel.erase_ptr
one_called = refl

delete_handler-IsDeleted_example :
    Satisfies (IsDeleted kernel 0 (0 ∷ 0 ∷ [])) (delete_handler kernel 0)
delete_handler-IsDeleted_example =
    delete_handler-IsDeleted kernel 0 (0 ∷ 0 ∷ []) kernel-IsWired (omega arith) (omega arith)

destroy-calls_example :
    (calls (destroy (entity 1)).1 (activates ∷ deactivates ∷ []) ≡ (destroy (entity 1)).1)
    × ((destroy (entity 1)).1.destroyed ≡ true)
    × ((destroy (entity 1)).1.active ≡ false)
destroy-calls_example = destroy-calls (entity 1) (activates ∷ deactivates ∷ []) refl
