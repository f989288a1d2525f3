-- ===== src/Tcp/Lifetime.antt =====
-- Which session of class TCP in src/modules/tcp.cc a packet goes to, and that the sessions live as
-- long as the table leads to them.
use native.Mathlib.Decide.{ℕ_discrete}
use packetmachine.Base.{
  ℕ, suc, ◌+◌, ◌%◌, ==_iff, ◌≡◌, ◌≢◌, ◌∙◌, refl, sym, ap, false, Option, none, some, [], ◌∷◌, arith,
  length, get_elem?, set, get_elem?-set_self, get_elem?-set_ne, get_elem?-in, le_bytes, Satisfies,
  Satisfies->>=, Satisfies-weaken, Outcome, ok, throw, fault, ◌>>=◌, ◌++◌,
}
use packetmachine.Value.{big}
use packetmachine.Property.{Property, BufferOps}
use packetmachine.Property.Objects.{Class}
use packetmachine.Property.Pools.{Inv}
use packetmachine.Property.Write.{cpy_value-Inv}
use packetmachine.Tcp.Session.{Timeval, Session, construct_session}
use packetmachine.Tcp.SegMap.{stored}
use packetmachine.Tcp.Decode.{Defs, BufferMake, Arrival, decode}
use packetmachine.Tcp.Key.{KeyOps, make_key, ordered_key}
use packetmachine.Tcp.Termination.{IsDefined, Holds, decode-Holds}
use packetmachine.Tcp.Table.{
  TableOps, State, advance, session_at, expire, search_session, with_session, manage, node_session,
}
use packetmachine.Tcp.Expiry.{
  IsTable, IsSafe, IsFound, advance-IsSafe, expire-IsSafe, node_session-IsFound,
}

module _ {T Key Buf : Type 0} (ops : TableOps T Key) (LeadsTo : T → ℕ → Type 0)
    (laws : IsTable ops LeadsTo) (class : ℕ → Class) (tb : BufferOps Buf) (k : KeyOps Key)
    (mk : BufferMake Buf) (m : Defs) (w : IsDefined class m) (tv : Timeval) where
  -- The session at `i` has become what `decode` makes of it, and no other has changed.
  pub record IsGiven (a : Arrival) (i : ℕ) (before : State T Key Buf)
      (r : Property Buf × State T Key Buf) : Type 0 where
    pub inv : Inv class r.0
    pub safe : IsSafe ops LeadsTo r.1
    pub same_table : r.1.ssn_table ≡ before.ssn_table
    pub same_count : r.1.ssn_count ≡ before.ssn_count
    pub others : (j : ℕ) → j ≢ i → get_elem? r.1.memory j ≡ get_elem? before.memory j
    pub old : Session Buf
    pub was : get_elem? before.memory i ≡ some (some old)
    pub shown : Property Buf
    pub new : Session Buf
    pub decoded : decode tb mk m tv a shown old ≡ ok (r.0, new)
    pub is_new : get_elem? r.1.memory i ≡ some (some new)

  with_session-IsGiven :
      (a : Arrival) (found : ℕ × Property Buf × State T Key Buf)
      → IsFound ops LeadsTo laws class found
      → Satisfies
          (IsGiven a found.0 found.2)
          (with_session ops tb mk m tv a found.0 found.1 found.2)
  unfolding with_session session_at
  with_session-IsGiven a (i, p, st) (v, h, there) = rw there.1 (
      Satisfies->>= (Inv class) (IsGiven a i st) _ _
        (cpy_value-Inv class p m.p_ssn_id (le_bytes 8 there.0.id) big v w.ssn_id_param)
        (λ p1 v1.
          by_result p1 (decode tb mk m tv a p1 there.0) refl
            (decode-Holds class tb mk m w tv a p1 there.0 v1)))
    where
      by_place :
          (s : Session Buf) (j : ℕ)
          → LeadsTo st.ssn_table j
          → Dec (j ≡ i)
          → (r : Session Buf) × (get_elem? (set st.memory i (some s)) j ≡ some (some r))
      by_place s j at (yes e) = (
        s,
        ap (get_elem? (set st.memory i (some s))) e
            ∙ get_elem?-set_self st.memory i (some s)
                (get_elem?-in st.memory i (some there.0) there.1),
      )
      by_place s j at (no ne) =
          let old = h j at in (old.0, get_elem?-set_ne st.memory (some s) (λ c. ne (sym c)) ∙ old.1)

      by_result :
          (p1 : Property Buf) (x : Outcome (Property Buf × Session Buf))
          → decode tb mk m tv a p1 there.0 ≡ x
          → Satisfies (Holds class (stored there.0.seg_map + 1)) x
          → Satisfies
              (IsGiven a i st)
              (x >>= λ q. ok (q.0, record st { memory = set st.memory i (some q.1) }))
      by_result p1 (ok x) e kept = record {
        inv = kept.0;
        safe = λ j at. by_place x.1 j at (ℕ_discrete j i);
        same_table = refl;
        same_count = refl;
        others = λ j ne. get_elem?-set_ne st.memory (some x.1) (λ c. ne (sym c));
        old = there.0;
        was = there.1;
        shown = p1;
        new = x.1;
        decoded = e;
        is_new =
            get_elem?-set_self st.memory i (some x.1)
              (get_elem?-in st.memory i (some there.0) there.1);
      }
      by_result p1 (throw er) e kept = elim kept [ ]
      by_result p1 fault e kept = elim kept [ ]

  -- What becomes of a packet, where `st` are the sessions without the expired ones and the table
  -- gives `node` for the key and is `t` after that: the packet goes to that session, or to a new one
  -- that is put under the key.
  abbrev pub IsManagedBy :
      ℕ → Arrival → Key → State T Key Buf → T → Option ℕ → Property Buf × State T Key Buf → Type 0
  IsManagedBy ssn_timeout a key st t (some i) r =
      IsGiven a i (record st { key = key; ssn_table = t }) r
  IsManagedBy ssn_timeout a key st t none r =
      (ssn : Session Buf) × IsGiven a (length st.memory)
        (record st {
          ssn_count = (st.ssn_count + 1) % 18446744073709551616;
          key = key;
          ssn_table = ops.put t ssn_timeout key (length st.memory);
          memory = st.memory ++ (some ssn ∷ []);
        })
        r

  -- The key of a packet, from its addresses and ports.
  abbrev pub key_for : Property Buf → Key → Key
  key_for p key =
      ordered_key k key (tb.contents p.src_addr) p.src_port (tb.contents p.dst_addr) p.dst_port

  abbrev pub IsManaged :
      ℕ → Arrival → Property Buf → State T Key Buf → Property Buf × State T Key Buf → Type 0
  IsManaged ssn_timeout a p st r =
      (st2 : State T Key Buf) × (expire ops (suc (ops.pending (advance ops tv.tv_sec st).ssn_table))
          (advance ops tv.tv_sec st)
        ≡ ok st2)
      × (ops.has_expired st2.ssn_table ≡ false)
      × IsManagedBy ssn_timeout a (key_for p st2.key) st2
          (ops.get st2.ssn_table (key_for p st2.key)).1
          (ops.get st2.ssn_table (key_for p st2.key)).0 r

  by_node :
      (ssn_timeout : ℕ) (a : Arrival) (p : Property Buf) (st : State T Key Buf) (key : Key)
      (node : Option ℕ)
      → Inv class p
      → IsSafe ops LeadsTo st
      → (ops.get st.ssn_table key).0 ≡ node
      → let found =
          node_session ops tb m ssn_timeout p
            (record st { key = key })
            (ops.get st.ssn_table key).1
            node in
        Satisfies
          (λ r.
            Inv class r.0
            × IsSafe ops LeadsTo r.1
            × IsManagedBy ssn_timeout a key st (ops.get st.ssn_table key).1 node r)
          (with_session ops tb mk m tv a found.0 found.1 found.2)
  unfolding node_session
  by_node ssn_timeout a p st key (some i) v safe e =
      Satisfies-weaken
        (IsGiven a i (record st { key = key; ssn_table = (ops.get st.ssn_table key).1 })) _ _
        (λ r g. (g.inv, g.safe, g))
        (with_session-IsGiven a _ (
          node_session-IsFound ops LeadsTo laws class tb m ssn_timeout p (record st { key = key })
            (some i) v safe e))
  by_node ssn_timeout a p st key none v safe e =
      let t = (ops.get st.ssn_table key).1 in
      let found = node_session ops tb m ssn_timeout p (record st { key = key }) t none in
      let ssn = construct_session tb p ((st.ssn_count + 1) % 18446744073709551616) in
      Satisfies-weaken (IsGiven a found.0 found.2)
        (λ r. Inv class r.0 × IsSafe ops LeadsTo r.1 × IsManagedBy ssn_timeout a key st t none r) _
        (λ r g. (g.inv, g.safe, (ssn, g)))
        (with_session-IsGiven a found (
          node_session-IsFound ops LeadsTo laws class tb m ssn_timeout p (record st { key = key })
            none v safe e))

  pub manage-IsSafe :
      (ssn_timeout : ℕ) (a : Arrival) (p : Property Buf) (st : State T Key Buf)
      → Inv class p
      → length (tb.contents p.src_addr) ≡ length (tb.contents p.dst_addr)
      → IsSafe ops LeadsTo st
      → Satisfies
          (λ r. Inv class r.0 × IsSafe ops LeadsTo r.1 × IsManaged ssn_timeout a p st r)
          (manage ops tb k mk m ssn_timeout tv a p st)
  unfolding manage search_session make_key
  manage-IsSafe ssn_timeout a p st v same h =
      by_expired (expire ops (suc (ops.pending st1.ssn_table)) st1) refl (
        expire-IsSafe ops LeadsTo laws (suc (ops.pending st1.ssn_table)) st1 (omega arith)
          (advance-IsSafe ops LeadsTo laws tv.tv_sec st h))
    where
      st1 : State T Key Buf
      st1 = advance ops tv.tv_sec st

      Q : Property Buf × State T Key Buf → Type 0
      Q r = Inv class r.0 × IsSafe ops LeadsTo r.1 × IsManaged ssn_timeout a p st r

      by_expired :
          (x : Outcome (State T Key Buf))
          → expire ops (suc (ops.pending st1.ssn_table)) st1 ≡ x
          → Satisfies (λ r. IsSafe ops LeadsTo r × (ops.has_expired r.ssn_table ≡ false)) x
          → Satisfies Q (
              x >>= λ st2. make_key k tb p st2.key >>= λ key.
              let found = search_session ops tb m ssn_timeout p (record st2 { key = key }) in
              with_session ops tb mk m tv a found.0 found.1 found.2)
      by_expired (ok st2) e (safe, none_left) = rw ((==_iff _ _).1 same) (
          Satisfies-weaken _ Q _ (λ r g. (g.0, g.1, (st2, e, none_left, g.2)))
            (by_node ssn_timeout a p st2 (key_for p st2.key) _ v safe refl))
      by_expired (throw er) e bad = elim bad [ ]
      by_expired fault e bad = elim bad [ ]
