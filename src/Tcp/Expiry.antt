-- ===== src/Tcp/Expiry.antt =====
-- The table of the sessions of class TCP in src/modules/tcp.cc: the sessions that have expired are
-- deleted, and one is looked up or made.
use packetmachine.Base.{
  ℕ, zero, suc, ◌+◌, ◌-◌, ◌%◌, ◌<◌, ◌≡◌, ◌≢◌, ◌∙◌, ◌⊎◌, inl, inr, refl, sym, ap, true, false, Bool,
  Option, none, some, [], ◌∷◌, arith, length, get_elem?, get_elem?-set_ne, get_elem?-append_last,
  get_elem?-append_lt, get_elem?-in, ltb, if◌then◌else◌, Bool-cases, Satisfies, Satisfies->>=,
}
use packetmachine.Property.{Property, BufferOps}
use packetmachine.Property.Objects.{Class}
use packetmachine.Property.Pools.{Inv}
use packetmachine.Modules.Contract.{push_event-Inv}
use packetmachine.Tcp.Session.{Session, construct_session}
use packetmachine.Tcp.Decode.{Defs}
use packetmachine.Tcp.Table.{TableOps, State, advance, session_at, expire_one, expire, node_session}

-- What a table leads to: it only leads to what was put in, and not to what it gave back.
pub record IsTable {T Key : Type 0} (ops : TableOps T Key) (LeadsTo : T → ℕ → Type 0) : Type 0 where
  pub get_leads : (t : T) (key : Key) (i : ℕ) → (ops.get t key).0 ≡ some i → LeadsTo t i
  pub get_keeps : (t : T) (key : Key) (i : ℕ) → LeadsTo (ops.get t key).1 i → LeadsTo t i
  pub put_keeps :
      (t : T) (timeout : ℕ) (key : Key) (i j : ℕ)
      → LeadsTo (ops.put t timeout key i) j
      → (j ≡ i) ⊎ LeadsTo t j
  pub step_keeps : (t : T) (ticks i : ℕ) → LeadsTo (ops.step t ticks) i → LeadsTo t i
  pub pop_leads : (t : T) → ops.has_expired t ≡ true → LeadsTo t (ops.pop_expired t).0
  pub pop_keeps :
      (t : T) (i : ℕ)
      → ops.has_expired t ≡ true
      → LeadsTo (ops.pop_expired t).1 i
      → LeadsTo t i × (i ≢ (ops.pop_expired t).0)
  pub pop_pending :
      (t : T) → ops.has_expired t ≡ true → ops.pending (ops.pop_expired t).1 < ops.pending t

module _ {T Key Buf : Type 0} (ops : TableOps T Key) (LeadsTo : T → ℕ → Type 0) where
  -- What the table leads to has not been deleted.
  abbrev pub IsSafe : State T Key Buf → Type 0
  IsSafe st =
      (i : ℕ) → LeadsTo st.ssn_table i → (s : Session Buf) × (get_elem? st.memory i ≡ some (some s))

module _ {T Key Buf : Type 0} (ops : TableOps T Key) (LeadsTo : T → ℕ → Type 0)
    (laws : IsTable ops LeadsTo) where
  pub advance-IsSafe :
      (ts : ℕ) (st : State T Key Buf)
      → IsSafe ops LeadsTo st
      → IsSafe ops LeadsTo (advance ops ts st)
  unfolding advance
  advance-IsSafe ts st h = by_tests (ltb st.curr_ts ts) st.init_ts
    where
      by_tests :
          (b c : Bool)
          → IsSafe ops LeadsTo (
              if b
              then if c
                then record st { curr_ts = ts; ssn_table = ops.step st.ssn_table (ts - st.curr_ts) }
                else record st { curr_ts = ts; init_ts = true }
              else st)
      by_tests true true = λ i at. h i (laws.step_keeps st.ssn_table (ts - st.curr_ts) i at)
      by_tests true false = h
      by_tests false c = h

  expire_one-IsSafe :
      (st : State T Key Buf)
      → ops.has_expired st.ssn_table ≡ true
      → IsSafe ops LeadsTo st
      → Satisfies
          (λ r. IsSafe ops LeadsTo r × (r.ssn_table ≡ (ops.pop_expired st.ssn_table).1))
          (expire_one ops st)
  unfolding expire_one session_at
  expire_one-IsSafe st e h =
      let (ssn, there) = h (ops.pop_expired st.ssn_table).0 (laws.pop_leads st.ssn_table e) in
      rw there (
        λ i at.
            let (old, ne) = laws.pop_keeps st.ssn_table i e at in
            let (s, k) = h i old in (s, get_elem?-set_ne st.memory none (λ c. ne (sym c)) ∙ k),
        refl,
      )

  pub expire-IsSafe :
      (fuel : ℕ) (st : State T Key Buf)
      → ops.pending st.ssn_table < fuel
      → IsSafe ops LeadsTo st
      → Satisfies
          (λ r. IsSafe ops LeadsTo r × (ops.has_expired r.ssn_table ≡ false))
          (expire ops fuel st)
  unfolding expire
  expire-IsSafe zero st lt h = absurd (omega (arith, lt))
  expire-IsSafe (suc fuel) st lt h = elim (Bool-cases (ops.has_expired st.ssn_table)) [
    | inl e ↦ rw e (
        Satisfies->>= _ _ (expire_one ops st) _ (expire_one-IsSafe st e h) (λ r k.
          expire-IsSafe fuel r
            (omega (arith, lt, laws.pop_pending st.ssn_table e, ap ops.pending k.1)) k.0))
    | inr e ↦ rw e (h, e)
  ]

  -- The session found is there, and so is every one that the table leads to.
  abbrev pub IsFound : (ℕ → Class) → ℕ × Property Buf × State T Key Buf → Type 0
  IsFound class (i, p, st) =
      Inv class p
      × IsSafe ops LeadsTo st
      × ((s : Session Buf) × (get_elem? st.memory i ≡ some (some s)))

  pub node_session-IsFound :
      (class : ℕ → Class) (tb : BufferOps Buf) (m : Defs) (ssn_timeout : ℕ) (p : Property Buf)
      (st : State T Key Buf) (node : Option ℕ)
      → Inv class p
      → IsSafe ops LeadsTo st
      → (ops.get st.ssn_table st.key).0 ≡ node
      → IsFound class (node_session ops tb m ssn_timeout p st (ops.get st.ssn_table st.key).1 node)
  unfolding node_session
  node_session-IsFound class tb m ssn_timeout p st (some i) v h e = (
    v,
    λ j at. h j (laws.get_keeps st.ssn_table st.key j at),
    h i (laws.get_leads st.ssn_table st.key i e),
  )
  node_session-IsFound class tb m ssn_timeout p st none v h e = (
    push_event-Inv p v m.ev_new,
    λ j at.
        elim (laws.put_keeps (ops.get st.ssn_table st.key).1 ssn_timeout st.key (length st.memory) j
          at) [
            | inl same ↦ (ssn, ap (get_elem? _) same ∙ get_elem?-append_last st.memory (some ssn))
            | inr old ↦
                let (s, k) = h j (laws.get_keeps st.ssn_table st.key j old) in
                (s, get_elem?-append_lt st.memory (some ssn ∷ []) j (inside j s k) ∙ k)
          ],
    (ssn, get_elem?-append_last st.memory (some ssn)),
  )
    where
      ssn : Session Buf
      ssn = construct_session tb p ((st.ssn_count + 1) % 18446744073709551616)

      inside :
          (j : ℕ) (s : Session Buf) → get_elem? st.memory j ≡ some (some s) → j < length st.memory
      inside j s k = get_elem?-in st.memory j (some s) k
