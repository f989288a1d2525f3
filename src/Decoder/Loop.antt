-- ===== src/Decoder/Loop.antt =====
-- The loop ends, and keeps what its modules keep, where each module leads to modules of a lower
-- rank only.
use packetmachine.Base.{
  ℕ, zero, suc, ◌<◌, ◌≤◌, ◌≡◌, refl, true, Option, none, some, arith, get_elem?, get_or,
  get_elem?-eq-get_or, length, fault, or_fault, ◌>>=◌, Satisfies, Satisfies->>=,
}
use packetmachine.Payload.{Payload}
use packetmachine.Property.{Property, push_event}
use packetmachine.Property.Objects.{Class}
use packetmachine.Property.Pools.{Inv}
use packetmachine.Modules.Contract.{IsReady, IsGood, push_event-Inv}
use packetmachine.Modules.Header.{Decoded}
use packetmachine.Decoder.{Decode, Decoder, in_range, step, run}

-- The modules that a module of rank `r` may lead to, of `n` modules.
abbrev pub IsBelow : (ℕ → ℕ) → ℕ → ℕ → Option ℕ → Type 0
IsBelow rank n r none = Unit {0}
IsBelow rank n r (some k) = (k < n) × (rank k < r)

-- What the next module asks of the property, if there is one.
abbrev pub Expects : {Buf : Type 0} → (ℕ → Property Buf → Type 0) → Option ℕ → Property Buf → Type 0
Expects Enters none prop = Unit {0}
Expects Enters (some i) prop = Enters i prop

-- On a cursor inside the packet and a well-formed property that has what the module asks for, no
-- module faults; each keeps the cursor and the property, leads to modules of a lower rank only and
-- leaves what they ask for, which no event changes; and each has an event.
pub record IsOrdered {Buf : Type 0} (class : ℕ → Class) (size : ℕ) (rank : ℕ → ℕ)
    (Enters : ℕ → Property Buf → Type 0) (d : Decoder Buf) : Type 0 where
  pub keeps :
      (i : ℕ) (pd : Payload) (prop : Property Buf)
      → i < length d.modules
      → IsReady size pd
      → Inv class prop
      → Enters i prop
      → Satisfies
          (λ out.
            IsGood class size (IsBelow rank (length d.modules) (rank i)) out
            × Expects Enters out.0 out.2)
          (or_fault (get_elem? d.modules i) >>= λ m. m pd prop)
  pub after_event : (i ev : ℕ) (prop : Property Buf) → Enters i prop → Enters i (push_event prop ev)
  pub events : length d.mod_event ≡ length d.modules

abbrev pub IsDone : {Buf : Type 0} → (ℕ → Class) → ℕ → Payload × Property Buf → Type 0
IsDone class size (pd, prop) = IsReady size pd × Inv class prop

in_range-IsBelow :
    (rank : ℕ → ℕ) (n r : ℕ) (next : Option ℕ) → IsBelow rank n r next → in_range next n ≡ true
in_range-IsBelow rank n r none b = refl
in_range-IsBelow rank n r (some k) b = ground (arith, b.0)

module _ {Buf : Type 0} (class : ℕ → Class) (size : ℕ) (rank : ℕ → ℕ)
    (Enters : ℕ → Property Buf → Type 0) (d : Decoder Buf)
    (w : IsOrdered class size rank Enters d) where
  abbrev Result : ℕ → Decoded Buf → Type 0
  Result i out =
      IsGood class size (IsBelow rank (length d.modules) (rank i)) out × Expects Enters out.0 out.2

  step-IsGood :
      (i : ℕ) (pd : Payload) (prop : Property Buf)
      → i < length d.modules
      → IsReady size pd
      → Inv class prop
      → Enters i prop
      → Satisfies (Result i) (step d i pd prop)
  unfolding step
  step-IsGood i pd prop h r v n =
      let nothing : Decode Buf = λ pd' prop'. fault in
      let at = get_elem?-eq-get_or d.modules i nothing h in
      let at_event = get_elem?-eq-get_or d.mod_event i 0 (omega (arith, w.events)) in
      let prop' = push_event prop (get_or d.mod_event i 0) in
      let kept = rw at at (
        w.keeps i pd prop' h r (push_event-Inv prop v (get_or d.mod_event i 0))
          (w.after_event i (get_or d.mod_event i 0) prop n)) in
      rw (at, at_event)
        (Satisfies->>= _ (Result i) (get_or d.modules i nothing pd prop') _ kept (λ out g.
          let t = in_range-IsBelow rank (length d.modules) (rank i) out.0 g.0.next in rw t g))

  -- With more fuel than the rank of the module, the loop never runs out of it.
  pub run-IsDone :
      (fuel : ℕ) (next : Option ℕ) (pd : Payload) (prop : Property Buf)
      → IsBelow rank (length d.modules) fuel next
      → IsReady size pd
      → Inv class prop
      → Expects Enters next prop
      → Satisfies (IsDone class size) (run d fuel next pd prop)
  unfolding run
  run-IsDone fuel none pd prop b r v n = (r, v)
  run-IsDone zero (some i) pd prop b r v n = absurd (omega (arith, b.1))
  run-IsDone (suc fuel) (some i) pd prop b r v n =
      Satisfies->>= (Result i) (IsDone class size) (step d i pd prop) _
        (step-IsGood i pd prop b.0 r v n)
        (λ out g.
          run-IsDone fuel out.0 out.1 out.2 (lower fuel out.0 (omega (arith, b.1)) g.0.next)
            g.0.ready g.0.inv g.1)
    where
      lower :
          (n : ℕ) (next : Option ℕ)
          → rank i ≤ n
          → IsBelow rank (length d.modules) (rank i) next
          → IsBelow rank (length d.modules) n next
      lower n none h g = tt
      lower n (some k) h g = (g.0, omega (arith, g.1))
