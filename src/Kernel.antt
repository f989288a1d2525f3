-- ===== src/Kernel.antt =====
-- src/kernel.hpp and src/kernel.cc: the handlers of events, and the changes to them that go to the
-- decoding thread. A `HandlerPtr` is the place of its entity in the order of creation; a callback
-- is a number.
pub mod Handlers
pub mod Dispatch
use Handlers.{Entity, destroy}
use packetmachine.Base.{
  ℕ, ◌+◌, ◌%◌, ◌^◌, Bool, true, false, ◌&&◌, Option, none, some, List, [], ◌∷◌, ◌++◌, ◌==◌,
  if◌then◌else◌, get_elem?, get_or, set, length, Outcome, ok, throw, fault, or_fault, ◌>>=◌,
  runtime_error,
}

-- `ChangeRequest`: its two classes.
pub data Request : Type 0 where
  add_request delete_request : ℕ → Request

-- `requests` is what the message channel holds, `entities` what the pointers lead to.
pub record Kernel : Type 0 where
  pub entities : List Entity
  pub handlers : List (List (Option ℕ))
  pub handler_map : List (ℕ × ℕ)
  pub global_hdlr_id : ℕ
  pub running : Bool
  pub requests : List Request

-- `std::map::find`, with `insert`, which keeps an entry that is there, and `erase`.
unfoldable pub find : List (ℕ × ℕ) → ℕ → Option ℕ
find [] id = none
find ((k, p) ∷ rest) id = if k == id then some p else find rest id

unfoldable pub insert : List (ℕ × ℕ) → ℕ → ℕ → List (ℕ × ℕ)
unfolding find
insert map id p = elim (find map id) [ none ↦ map ++ ((id, p) ∷ []) | some q ↦ map ]

unfoldable pub erase : List (ℕ × ℕ) → ℕ → List (ℕ × ℕ)
erase [] id = []
erase ((k, p) ∷ rest) id = if k == id then rest else (k, p) ∷ erase rest id

unfoldable pub add_handler : Kernel → ℕ → Outcome (Bool × Kernel)
add_handler k ptr = do
  entry ← or_fault (get_elem? k.entities ptr)
  arr ← or_fault (get_elem? k.handlers entry.ev_id)
  ok (
    true,
    record k {
      handler_map = insert k.handler_map entry.id ptr;
      handlers = set k.handlers entry.ev_id (arr ++ (some ptr ∷ []));
    },
  )

abbrev pub is_ptr : Option ℕ → ℕ → Bool
is_ptr none ptr = false
is_ptr (some q) ptr = q == ptr

-- `std::find` and `arr.erase`: the list without the pointer, or none where it is not there.
unfoldable pub erase_ptr : List (Option ℕ) → ℕ → Option (List (Option ℕ))
erase_ptr [] ptr = none
erase_ptr (e ∷ rest) ptr =
    let more = erase_ptr rest ptr in
    if is_ptr e ptr then some rest else elim more [ none ↦ none | some l ↦ some (e ∷ l) ]

-- The end of `delete_handler`: the list of the event without the pointer, if it was there.
unfoldable pub delete_found : Kernel → ℕ → Entity → Option (List (Option ℕ)) → Bool × Kernel
delete_found k ptr entry none = (false, k)
delete_found k ptr entry (some arr) = (
  true,
  record k {
    entities = set k.entities ptr (destroy entry).1;
    handlers = set k.handlers entry.ev_id arr;
  },
)

unfoldable pub delete_handler : Kernel → ℕ → Outcome (Bool × Kernel)
unfolding delete_found
delete_handler k ptr = do
  entry ← or_fault (get_elem? k.entities ptr)
  arr ← or_fault (get_elem? k.handlers entry.ev_id)
  ok (delete_found k ptr entry (erase_ptr arr ptr))

-- `on`, with the result of `lookup_event_id`.
unfoldable pub on : Kernel → Option ℕ → ℕ → Outcome (ℕ × Kernel)
on k none cb = throw runtime_error
on k (some eid) cb =
    let hid = (k.global_hdlr_id + 1) % 2 ^ 64 in
    let ptr = length k.entities in
    let entry : Entity = record {
      cb = cb;
      ev_id = eid;
      id = hid;
      active = true;
      destroyed = false;
    } in
    let k' = record k { global_hdlr_id = hid; entities = k.entities ++ (entry ∷ []) } in
    if k.running
    then ok (ptr, record k' { requests = k'.requests ++ (add_request ptr ∷ []) })
    else (add_handler k' ptr >>= λ r. ok (ptr, r.1))

-- `clear(HandlerPtr)`
unfoldable pub clear : Kernel → ℕ → Outcome (Bool × Kernel)
clear k ptr =
    if k.running
    then ok (true, record k { requests = k.requests ++ (delete_request ptr ∷ []) })
    else delete_handler k ptr

-- The loop of `clear(hdlr_id)`: the first pointer to an entity of this id becomes null.
unfoldable pub null_out : List Entity → ℕ → List (Option ℕ) → Outcome (List (Option ℕ))
null_out entities id [] = ok []
null_out entities id (none ∷ rest) = null_out entities id rest >>= λ l. ok (none ∷ l)
null_out entities id (some p ∷ rest) = do
  entry ← or_fault (get_elem? entities p)
  if entry.id == id then ok (none ∷ rest) else (null_out entities id rest >>= λ l. ok (some p ∷ l))

unfoldable pub clear_found : Kernel → ℕ → ℕ → Outcome (Bool × Kernel)
clear_found k hid ptr = do
  entry ← or_fault (get_elem? k.entities ptr)
  arr ← or_fault (get_elem? k.handlers entry.ev_id)
  arr' ← null_out k.entities entry.id arr
  ok (
    true,
    record k { handler_map = erase k.handler_map hid; handlers = set k.handlers entry.ev_id arr' },
  )

unfoldable pub clear_id : Kernel → ℕ → Outcome (Bool × Kernel)
unfolding find
clear_id k hid = elim (find k.handler_map hid) [
  | none ↦ ok (false, k)
  | some ptr ↦ clear_found k hid ptr
]

-- `req->change(this)`, and the loop over the requests.
unfoldable pub change : Kernel → Request → Outcome (Bool × Kernel)
change k (add_request ptr) = add_handler k ptr
change k (delete_request ptr) = delete_handler k ptr

unfoldable pub changes : Kernel → List Request → Outcome Kernel
changes k [] = ok k
changes k (req ∷ reqs) = change k req >>= λ r. changes r.1 reqs

unfoldable pub handle_requests : Kernel → Outcome Kernel
unfolding changes
handle_requests k = changes (record k { requests = [] }) k.requests
