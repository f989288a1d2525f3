-- ===== src/Kernel/Dispatch.antt =====
-- The event handlers' part of `Kernel::thread_main` of src/kernel.cc.
use packetmachine.Base.{
  ℕ, suc, zero, ◌<◌, ◌≡◌, ◌≢◌, ◌∙◌, refl, sym, ap, inl, inr, Bool, true, false, ◌&&◌, Option, none,
  some, List, [], ◌∷◌, ◌++◌, arith, if◌then◌else◌, get_elem?, get_or, set, length, length-set,
  get_or-set_self, All, Bool-cases, get_elem?-eq-get_or, Outcome, ok, throw, fault, or_fault, ◌>>=◌,
  Satisfies, Satisfies->>=,
}
use packetmachine.Kernel.Handlers.{Entity, destroy, destroy_lem}
use packetmachine.Kernel.{Kernel, delete_handler, delete_found, erase_ptr, is_ptr}

-- The pointers whose callbacks one event's loop calls, in order. A callback is taken not to change
-- the kernel: `on` and `clear` in it send requests, as the kernel is running.
unfoldable pub call_entries : List Entity → List (Option ℕ) → Outcome (List ℕ)
call_entries entities [] = ok []
call_entries entities (none ∷ rest) = call_entries entities rest
call_entries entities (some ptr ∷ rest) = do
  entry ← or_fault (get_elem? entities ptr)
  called ← call_entries entities rest
  ok (if entry.active then ptr ∷ called else called)

-- The loop over the events of a packet.
unfoldable pub dispatch : Kernel → List ℕ → Outcome (List ℕ)
unfolding call_entries
dispatch k [] = ok []
dispatch k (eid ∷ eids) = do
  entries ← or_fault (get_elem? k.handlers eid)
  called ← call_entries k.entities entries
  rest ← dispatch k eids
  ok (called ++ rest)

-- Every pointer leads to an entity, and every entity has an event of the decoder and is not active
-- once it is destroyed.
abbrev pub IsPtr : ℕ → Option ℕ → Type 0
IsPtr n none = Unit {0}
IsPtr n (some p) = p < n

pub record IsWired (k : Kernel) : Type 0 where
  pub pointers : All (All (IsPtr (length k.entities))) k.handlers
  pub entries :
      All
        (λ (e : Entity). (e.ev_id < length k.handlers) × ((e.destroyed && e.active) ≡ false))
        k.entities

module _ {ℓ} {A : Type ℓ} (P : A → Type 0) where
  All-set : (xs : List A) (i : ℕ) (v : A) → All P xs → P v → All P (set xs i v)
  All-set [] i v a h = tt
  All-set (x ∷ xs) zero v a h = (h, a.1)
  All-set (x ∷ xs) (suc i) v a h = (a.0, All-set xs i v a.1 h)

  All-get_or : (xs : List A) (i : ℕ) (d : A) → All P xs → i < length xs → P (get_or xs i d)
  All-get_or [] i d a h = absurd (omega arith)
  All-get_or (x ∷ xs) zero d a h = a.0
  All-get_or (x ∷ xs) (suc i) d a h = All-get_or xs i d a.1 (omega arith)

  All-append : (xs ys : List A) → All P xs → All P ys → All P (xs ++ ys)
  All-append [] ys a b = b
  All-append (x ∷ xs) ys a b = (a.0, All-append xs ys a.1 b)

-- What the loop calls is active.
abbrev nobody : Entity
nobody = record { cb = 0; ev_id = 0; id = 0; active = false; destroyed = false }

abbrev IsActive : List Entity → ℕ → Type 0
IsActive entities p = (get_or entities p nobody).active ≡ true

call_entries-IsActive :
    (entities : List Entity) (entries : List (Option ℕ))
    → All (IsPtr (length entities)) entries
    → Satisfies (All (IsActive entities)) (call_entries entities entries)
unfolding call_entries
call_entries-IsActive entities [] a = tt
call_entries-IsActive entities (none ∷ rest) a = call_entries-IsActive entities rest a.1
call_entries-IsActive entities (some p ∷ rest) a = rw (get_elem?-eq-get_or entities p nobody a.0) (
    Satisfies->>= (All (IsActive entities)) (All (IsActive entities)) (call_entries entities rest) _
      (call_entries-IsActive entities rest a.1)
      (λ called h. elim (Bool-cases (get_or entities p nobody).active) [
        | inl e ↦ rw e (e, h)
        | inr e ↦ rw e h
      ]))

dispatch-IsActive :
    (k : Kernel) (eids : List ℕ)
    → All (All (IsPtr (length k.entities))) k.handlers
    → All (λ i. i < length k.handlers) eids
    → Satisfies (All (IsActive k.entities)) (dispatch k eids)
unfolding dispatch
dispatch-IsActive k [] w a = tt
dispatch-IsActive k (eid ∷ eids) w a = rw (get_elem?-eq-get_or k.handlers eid [] a.0) (
    Satisfies->>= (All (IsActive k.entities)) (All (IsActive k.entities))
      (call_entries k.entities (get_or k.handlers eid [])) _
      (call_entries-IsActive k.entities (get_or k.handlers eid [])
        (All-get_or (All (IsPtr (length k.entities))) k.handlers eid [] w a.0))
      (λ called h.
        Satisfies->>= (All (IsActive k.entities)) (All (IsActive k.entities)) (dispatch k eids) _
          (dispatch-IsActive k eids w a.1)
          (λ rest g. All-append (IsActive k.entities) called rest h g)))

-- A property of the list that `erase_ptr` leaves.
abbrev OnSome {ℓ} : {A : Type ℓ} → (A → Type 0) → Option A → Type 0
OnSome P none = Unit {0}
OnSome P (some a) = P a

erase_ptr-All :
    (n : ℕ) (l : List (Option ℕ)) (ptr : ℕ)
    → All (IsPtr n) l
    → OnSome (All (IsPtr n)) (erase_ptr l ptr)
unfolding erase_ptr
erase_ptr-All n [] ptr a = tt
erase_ptr-All n (e ∷ rest) ptr a = elim (Bool-cases (is_ptr e ptr)) [
  | inl t ↦ rw t a.1
  | inr t ↦ rw t (keep (erase_ptr rest ptr) (erase_ptr-All n rest ptr a.1))
]
  where
    keep :
        (m : Option (List (Option ℕ)))
        → OnSome (All (IsPtr n)) m
        → OnSome (All (IsPtr n)) (elim m [ none ↦ none | some l ↦ some (e ∷ l) ])
    keep none h = tt
    keep (some l) h = (a.0, h)

All-inactive :
    (entities : List Entity) (ptr : ℕ) (called : List ℕ)
    → (get_or entities ptr nobody).active ≡ false
    → All (IsActive entities) called
    → All (λ p. p ≢ ptr) called
All-inactive entities ptr [] h a = tt
All-inactive entities ptr (p ∷ ps) h a = (
  λ e. absurd_active (sym a.0 ∙ ap (λ q. (get_or entities q nobody).active) e ∙ h),
  All-inactive entities ptr ps h a.1,
)
  where
    absurd_active : true ≡ false → ⊥
    absurd_active = cc

-- What `delete_handler` has done, by its result.
abbrev pub IsDeleted : Kernel → ℕ → List ℕ → Bool × Kernel → Type 0
IsDeleted k ptr eids (true, k') = Satisfies (All (λ p. p ≢ ptr)) (dispatch k' eids)
IsDeleted k ptr eids (false, k') = k' ≡ k

Satisfies-map :
    (P Q : List ℕ → Type 0) (m : Outcome (List ℕ))
    → ((l : List ℕ) → P l → Q l)
    → Satisfies P m
    → Satisfies Q m
Satisfies-map P Q (ok l) f h = f l h
Satisfies-map P Q (throw e) f h = h
Satisfies-map P Q fault f h = h

delete_found-IsDeleted :
    (k : Kernel) (ptr : ℕ) (eids : List ℕ) (entry : Entity) (m : Option (List (Option ℕ)))
    → IsWired k
    → ptr < length k.entities
    → (entry.destroyed && entry.active) ≡ false
    → All (λ i. i < length k.handlers) eids
    → OnSome (All (IsPtr (length k.entities))) m
    → IsDeleted k ptr eids (delete_found k ptr entry m)
unfolding delete_found
delete_found-IsDeleted k ptr eids entry none w h d a g = refl
delete_found-IsDeleted k ptr eids entry (some arr) w h d a g =
    Satisfies-map (All (IsActive entities')) (All (λ p. p ≢ ptr)) (dispatch k' eids)
      (λ l. All-inactive entities' ptr l inactive)
      (dispatch-IsActive k' eids
        (rw (length-set k.entities ptr (destroy entry).1)
          (All-set (All (IsPtr (length k.entities))) k.handlers entry.ev_id arr w.pointers g))
        (rw (length-set k.handlers entry.ev_id arr) a))
  where
    entities' : List Entity
    entities' = set k.entities ptr (destroy entry).1

    k' : Kernel
    k' = record k { entities = entities'; handlers = set k.handlers entry.ev_id arr }

    inactive : (get_or entities' ptr nobody).active ≡ false
    inactive =
        ap Entity.active (get_or-set_self k.entities ptr (destroy entry).1 nobody h)
        ∙ (destroy_lem entry d).1

-- In a kernel whose pointers are sound, `delete_handler` of a handler never faults. It returns false
-- and changes nothing, or it returns true; and then, in the kernel that it leaves and for any
-- events of the decoder, the loop over the handlers does not fault and does not call the handler.
pub delete_handler-IsDeleted :
    (k : Kernel) (ptr : ℕ) (eids : List ℕ)
    → IsWired k
    → ptr < length k.entities
    → All (λ i. i < length k.handlers) eids
    → Satisfies (IsDeleted k ptr eids) (delete_handler k ptr)
unfolding delete_handler
delete_handler-IsDeleted k ptr eids w h a =
    let entry = get_or k.entities ptr nobody in
    let (in_range, sane) =
      All-get_or
        (λ (e : Entity). (e.ev_id < length k.handlers) × ((e.destroyed && e.active) ≡ false))
        k.entities ptr nobody w.entries h in
    let arr = get_or k.handlers entry.ev_id [] in
    rw
      (
        get_elem?-eq-get_or k.entities ptr nobody h,
        get_elem?-eq-get_or k.handlers entry.ev_id [] in_range,
      )
      (delete_found-IsDeleted k ptr eids entry (erase_ptr arr ptr) w h sane a (
        erase_ptr-All (length k.entities) arr ptr (
          All-get_or (All (IsPtr (length k.entities))) k.handlers entry.ev_id [] w.pointers
            in_range)))
