-- ===== src/Tcp/Table.antt =====
-- The sessions of class TCP in src/modules/tcp.cc: `search_session`, and the part of `decode` that
-- manages them. A `Session*` is an index into the memory of the sessions, where none stands for
-- one that has been deleted; no index is used again.
use packetmachine.Base.{
  ℕ, zero, suc, ◌+◌, ◌-◌, ◌%◌, Bool, true, Option, none, some, List, [], ◌∷◌, ◌++◌, ltb,
  if◌then◌else◌, get_elem?, set, length, le_bytes, Outcome, ok, fault, or_fault, ◌>>=◌,
}
use packetmachine.Value.{big}
use packetmachine.Property.{Property, BufferOps, push_event}
use packetmachine.Property.Write.{cpy_value}
use packetmachine.Tcp.Session.{Timeval, Session, construct_session}
use packetmachine.Tcp.Decode.{Defs, BufferMake, Arrival, decode}
use packetmachine.Tcp.Key.{KeyOps, make_key}

-- `tb::LruHash<Session*>` of the cpp-toolbox library. `pending` is how many nodes have expired and
-- wait for `pop_expired`; the code does not ask for it.
pub record TableOps (T Key : Type 0) : Type 0 where
  pub get : T → Key → Option ℕ × T
  pub put : T → ℕ → Key → ℕ → T
  pub step : T → ℕ → T
  pub has_expired : T → Bool
  pub pop_expired : T → ℕ × T
  pub pending : T → ℕ

-- The fields of TCP that change, its static `key`, and the memory of the sessions.
pub record State (T Key Buf : Type 0) : Type 0 where
  pub ssn_count : ℕ
  pub curr_ts : ℕ
  pub init_ts : Bool
  pub ssn_table : T
  pub key : Key
  pub memory : List (Option (Session Buf))

module _ {T Key Buf : Type 0} (ops : TableOps T Key) where
  -- The clock of the table: the first packet only sets it.
  unfoldable pub advance : ℕ → State T Key Buf → State T Key Buf
  advance ts st =
      if ltb st.curr_ts ts
      then if st.init_ts
        then record st { curr_ts = ts; ssn_table = ops.step st.ssn_table (ts - st.curr_ts) }
        else record st { curr_ts = ts; init_ts = true }
      else st

  -- `*ssn`. What is null or deleted is a fault.
  unfoldable pub session_at : State T Key Buf → ℕ → Outcome (Session Buf)
  session_at st i = or_fault (get_elem? st.memory i) >>= λ o. or_fault o

  -- `pop_expired` with `delete`, and the loop of them. To run out of fuel is a fault, which
  -- Lifetime excludes.
  unfoldable pub expire_one : State T Key Buf → Outcome (State T Key Buf)
  unfolding session_at
  expire_one st =
      let (i, t) = ops.pop_expired st.ssn_table in
      session_at st i >>= λ old_ssn. ok (record st { ssn_table = t; memory = set st.memory i none })

  unfoldable pub expire : ℕ → State T Key Buf → Outcome (State T Key Buf)
  expire zero st = fault
  expire (suc fuel) st =
      let rest = expire_one st >>= λ st1. expire fuel st1 in
      if ops.has_expired st.ssn_table then rest else ok st

  -- The session of a node, or a new one, where the table is `t` after the search.
  unfoldable pub node_session :
      BufferOps Buf
      → Defs
      → ℕ
      → Property Buf
      → State T Key Buf
      → T
      → Option ℕ
      → ℕ × Property Buf × State T Key Buf
  node_session tb m ssn_timeout p st t none =
      let count = (st.ssn_count + 1) % 18446744073709551616 in
      let i = length st.memory in
      (
        i,
        push_event p m.ev_new,
        record st {
          ssn_count = count;
          ssn_table = ops.put t ssn_timeout st.key i;
          memory = st.memory ++ (some (construct_session tb p count) ∷ []);
        },
      )
  node_session tb m ssn_timeout p st t (some i) = (i, p, record st { ssn_table = t })

  unfoldable pub search_session :
      BufferOps Buf → Defs → ℕ → Property Buf → State T Key Buf → ℕ × Property Buf × State T Key Buf
  search_session tb m ssn_timeout p st =
      let (node, t) = ops.get st.ssn_table st.key in node_session tb m ssn_timeout p st t node

  -- What `if (ssn)` guards: no session is null.
  unfoldable pub with_session :
      BufferOps Buf
      → BufferMake Buf
      → Defs
      → Timeval
      → Arrival
      → ℕ
      → Property Buf
      → State T Key Buf
      → Outcome (Property Buf × State T Key Buf)
  unfolding session_at
  with_session tb mk m tv a i p st = do
    ssn ← session_at st i
    p1 ← cpy_value p m.p_ssn_id (le_bytes 8 ssn.id) big
    (p2, ssn1) ← decode tb mk m tv a p1 ssn
    ok (p2, record st { memory = set st.memory i (some ssn1) })

  -- The branch for `enable_ssn_mgmt_`.
  unfoldable pub manage :
      BufferOps Buf
      → KeyOps Key
      → BufferMake Buf
      → Defs
      → ℕ
      → Timeval
      → Arrival
      → Property Buf
      → State T Key Buf
      → Outcome (Property Buf × State T Key Buf)
  manage tb k mk m ssn_timeout tv a p st =
      let st1 = advance tv.tv_sec st in
      expire (suc (ops.pending st1.ssn_table)) st1 >>= λ st2. make_key k tb p st2.key >>= λ key.
      let found = search_session tb m ssn_timeout p (record st2 { key = key }) in
      with_session tb mk m tv a found.0 found.1 found.2
