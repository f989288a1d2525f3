-- ===== src/Property/Events.antt =====
-- The event log of a Property: a list, kept in a vector that is not cleared between packets.
use mathlib.Core.List.{append_assoc, append-nil}
use native.Mathlib.Numerals.{add-one}
use packetmachine.Base.{
  ℕ, ◌+◌, ◌≤◌, ◌<◌, ◌≡◌, ◌∙◌, sym, ap, inl, inr, false, List, [], ◌∷◌, ◌++◌, arith, ltb, get_elem?,
  take, length, length-set, length-append, take-set, take-append_one, get_elem?-out, length-take,
  ok, Bool-cases, get_elem?-take, get_elem?-eq-get_or,
}
use packetmachine.Property.{Property, init, push_event, event_at}

module _ {Buf : Type 0} where
  -- `assert(this->event_idx_ <= this->event_.size())`
  abbrev pub EventsFit : Property Buf → Type 0
  EventsFit p = p.event_idx ≤ length p.event

  -- The events since the last `init`, oldest first.
  abbrev pub events : Property Buf → List ℕ
  events p = take p.event_idx p.event

  pub push_events : Property Buf → List ℕ → Property Buf
  push_events p [] = p
  push_events p (ev ∷ evs) = push_events (push_event p ev) evs

module _ {Buf : Type 0} (p : Property Buf) where
  push_event-events :
      (ev : ℕ)
      → EventsFit p
      → EventsFit (push_event p ev) × (events (push_event p ev) ≡ events p ++ (ev ∷ []))
  unfolding push_event
  push_event-events ev h = elim (Bool-cases (ltb (length p.event) (p.event_idx + 1))) [
    | inl new ↦
        rw (new, add-one)
          (
            omega (arith, length-append p.event (ev ∷ [])),
            take-append_one p.event p.event_idx ev (ground arith),
          )
    | inr old ↦
        let room : p.event_idx < length p.event = ground arith in
        rw (old, add-one)
          (
            omega (arith, room, length-set p.event p.event_idx ev),
            take-set p.event p.event_idx ev room,
          )
  ]

module _ {Buf : Type 0} where
  push_events-events :
      (p : Property Buf) (evs : List ℕ)
      → EventsFit p
      → EventsFit (push_events p evs) × (events (push_events p evs) ≡ events p ++ evs)
  unfolding push_events
  push_events-events p [] h = (h, sym (append-nil (events p)))
  push_events-events p (ev ∷ evs) h =
      let (h', e) = push_event-events p ev h in
      let (h'', e') = push_events-events (push_event p ev) evs h' in
      (h'', e' ∙ rw e (append_assoc (events p) (ev ∷ []) evs))

  event_at-events :
      (p : Property Buf) (i : ℕ) → EventsFit p → event_at p i ≡ ok (get_elem? (events p) i)
  unfolding event_at
  event_at-events p i h =
      let fits : ltb (length p.event) p.event_idx ≡ false = ground arith in
      elim (Bool-cases (ltb i p.event_idx)) [
        | inl in_range ↦
            let small : i < p.event_idx = ground arith in
            rw (
              fits,
              in_range,
              get_elem?-take p.event p.event_idx i small,
              get_elem?-eq-get_or p.event i 0 (omega arith),
            )
        | inr beyond ↦ rw (
          fits,
          beyond,
          get_elem?-out (events p) i (ground (arith, length-take p.event_idx p.event)),
        )
      ]

  -- After `init` and any pushes, the number of events is that of the pushes, and `event` gives the
  -- events pushed, in their order, and a null pointer past them: nothing of an earlier packet
  -- shows. This for a vector that holds at least the events counted, which `push_event` keeps so.
  pub event-push_events :
      (p : Property Buf) (evs : List ℕ) (i : ℕ)
      → EventsFit p
      → (EventsFit (push_events (init p) evs))
        × ((push_events (init p) evs).event_idx ≡ length evs)
        × (event_at (push_events (init p) evs) i ≡ ok (get_elem? evs i))
  unfolding init
  event-push_events p evs i h =
      let (fits, e) = push_events-events (init p) evs (omega arith) in
      (
        fits,
        omega (
          arith,
          ap length e,
          length-take (push_events (init p) evs).event_idx (push_events (init p) evs).event,
          fits,
        ),
        event_at-events (push_events (init p) evs) i fits ∙ ap (λ l. ok (get_elem? l i)) e,
      )
