-- ===== src/Modules/Contract.antt =====
-- What every decode module promises, and the steps that the proofs of it share.
use packetmachine.Base.{
  ℕ, ◌+◌, ◌*◌, ◌≤◌, ◌≡◌, ◌∙◌, Option, none, some, arith, length, get_or, Outcome, ok, fault, ap,
  ◌>>=◌, Bytes, load_slice, load_lem, slice, leb, true, load_be16, Satisfies, Satisfies->>=,
}
use packetmachine.Packet.{Packet}
use packetmachine.Payload.{Payload, retain, retain_from, shrink}
use packetmachine.Payload.Bounds.{IsValid, Retains, retain-Retains, shrink-IsValid}
use packetmachine.Property.{Property}
use packetmachine.Property.Objects.{Class, ParamDef}
use packetmachine.Property.Pools.{Inv}
use packetmachine.Property.Write.{
  write, set_value, set_value_ptr, cpy_value, write-Inv, set_value-Inv, set_value_ptr-Inv,
  cpy_value-Inv,
}
use packetmachine.Property.{
  object, BufferOps, push_event, set_src_addr, set_dst_addr, set_src_port, set_dst_port,
}
use packetmachine.Value.{Endian, Ptr}
use packetmachine.Property.Objects.{Object}
use packetmachine.Modules.Header.{Decoded, or_stop, retain_or_stop}

-- The cursor has been reset to a packet of this size.
pub record IsReady (size : ℕ) (pd : Payload) : Type 0 where
  pub valid : IsValid size pd
  pub current : Packet
  pub has : pd.pkt ≡ some current

-- A parameter has the constructor of its id.
abbrev pub IsParam : (ℕ → Class) → ParamDef → Type 0
IsParam class def = def.class ≡ class def.id

-- The same, and the constructor makes objects of the class `c`.
abbrev pub IsParamOf : (ℕ → Class) → Class → ParamDef → Type 0
IsParamOf class c def = IsParam class def × (def.class ≡ c)

-- The parts of a good result: the next module is a permitted one, the cursor is still inside the
-- packet, and the property is well formed.
pub record IsGood {Buf : Type 0} (class : ℕ → Class) (size : ℕ) (Next : Option ℕ → Type 0)
    (out : Decoded Buf) : Type 0 where
  pub next : Next out.0
  pub ready : IsReady size out.1
  pub inv : Inv class out.2

-- What `retain` gives: nothing, or a pointer with all the bytes asked for behind it.
abbrev pub IsHeader : ℕ → ℕ → Option ℕ × Payload → Type 0
IsHeader size n (none, pd) = IsReady size pd
IsHeader size n (some hdr, pd) = (hdr + n ≤ size) × IsReady size pd

retained-IsHeader :
    (size n : ℕ) (pd : Payload) (pkt : Packet) (r : Option ℕ × Payload)
    → pd.pkt ≡ some pkt
    → IsValid size pd
    → Retains size pd n r
    → IsHeader size n r
retained-IsHeader size n pd pkt (none, q) e v w = record {
  valid = rw w.1 v;
  current = pkt;
  has = rw w.1 e;
}
retained-IsHeader size n pd pkt (some p, q) e v (a, b, c, d, f, g, h) =
    (c, record { valid = h; current = pkt; has = g ∙ e })

retain_has :
    (n : ℕ) (pd : Payload) (pkt : Packet) → pd.pkt ≡ some pkt → retain pd n ≡ ok (retain_from pd n)
unfolding retain
retain_has n pd pkt e = ap (λ p. elim p [ none ↦ fault | some _ ↦ ok (retain_from pd n) ]) e

pub retain-IsHeader :
    (size n : ℕ) (pd : Payload) → IsReady size pd → Satisfies (IsHeader size n) (retain pd n)
retain-IsHeader size n pd r = rw (retain_has n pd r.current r.has) (
    retained-IsHeader size n pd r.current (retain_from pd n) r.has r.valid
      (retain-Retains size pd n r.valid))

-- The same with what `Retains` says of the cursor.
retained-IsReady :
    (size n : ℕ) (pd : Payload) (pkt : Packet) (r : Option ℕ × Payload)
    → pd.pkt ≡ some pkt
    → IsValid size pd
    → Retains size pd n r
    → IsReady size r.1
retained-IsReady size n pd pkt (none, q) e v w = record {
  valid = rw w.1 v;
  current = pkt;
  has = rw w.1 e;
}
retained-IsReady size n pd pkt (some p, q) e v w = record {
  valid = w.6;
  current = pkt;
  has = w.5 ∙ e;
}

pub retain-IsReady :
    (size n : ℕ) (pd : Payload)
    → IsReady size pd
    → Satisfies (λ r. Retains size pd n r × IsReady size r.1) (retain pd n)
retain-IsReady size n pd r = rw (retain_has n pd r.current r.has) (
    let w = retain-Retains size pd n r.valid in
    (w, retained-IsReady size n pd r.current (retain_from pd n) r.has r.valid w))

-- A two-byte number that lies inside the packet.
abbrev pub be16_at : Bytes → ℕ → ℕ
be16_at mem i = get_or mem i 0 * 256 + get_or mem (i + 1) 0

pub load_be16_lem :
    (mem : Bytes) (i : ℕ) → i + 2 ≤ length mem → load_be16 mem i ≡ ok (be16_at mem i)
load_be16_lem mem i h = rw (load_lem mem i (omega arith), load_lem mem (i + 1) (omega arith))

module _ {Buf : Type 0} (class : ℕ → Class) (size : ℕ) (Next : Option ℕ → Type 0) where
  or_stop-IsGood :
      (n : ℕ) (prop : Property Buf) (body : ℕ → Payload → Outcome (Decoded Buf))
      (r : Option ℕ × Payload)
      → Next none
      → Inv class prop
      → ((hdr : ℕ) (pd : Payload)
          → hdr + n ≤ size
          → IsReady size pd
          → Satisfies (IsGood class size Next) (body hdr pd))
      → IsHeader size n r
      → Satisfies (IsGood class size Next) (or_stop prop body r)
  or_stop-IsGood n prop body (none, pd) stop v k h = record { next = stop; ready = h; inv = v }
  or_stop-IsGood n prop body (some hdr, pd) stop v k h = k hdr pd h.0 h.1

  -- A module may go on with a header that is inside the packet, or stop.
  pub retain_or_stop-IsGood :
      (n : ℕ) (pd : Payload) (prop : Property Buf) (body : ℕ → Payload → Outcome (Decoded Buf))
      → Next none
      → IsReady size pd
      → Inv class prop
      → ((hdr : ℕ) (pd : Payload)
          → hdr + n ≤ size
          → IsReady size pd
          → Satisfies (IsGood class size Next) (body hdr pd))
      → Satisfies (IsGood class size Next) (retain_or_stop pd prop n body)
  retain_or_stop-IsGood n pd prop body stop r v k =
      Satisfies->>= (IsHeader size n) (IsGood class size Next) (retain pd n) (or_stop prop body)
        (retain-IsHeader size n pd r) (λ h w. or_stop-IsGood n prop body h stop v k w)

  -- The steps of a module, each before the rest of it.
  pub write_then :
      (p : Property Buf) (def : ParamDef) (change : Object → Object)
      (rest : Property Buf → Outcome (Decoded Buf))
      → ((o : Object) → (change o).class ≡ o.class)
      → Inv class p
      → IsParam class def
      → ((q : Property Buf) → Inv class q → Satisfies (IsGood class size Next) (rest q))
      → Satisfies (IsGood class size Next) (write change p def >>= rest)
  write_then p def change rest keeps v c k =
      Satisfies->>= (Inv class) (IsGood class size Next) (write change p def) rest
        (write-Inv class change p def keeps v c) k

  pub set_value_then :
      (p : Property Buf) (def : ParamDef) (off len : ℕ) (e : Endian)
      (rest : Property Buf → Outcome (Decoded Buf))
      → Inv class p
      → IsParam class def
      → ((q : Property Buf) → Inv class q → Satisfies (IsGood class size Next) (rest q))
      → Satisfies (IsGood class size Next) (set_value p def off len e >>= rest)
  set_value_then p def off len e rest v c k =
      Satisfies->>= (Inv class) (IsGood class size Next) (set_value p def off len e) rest
        (set_value-Inv class p def off len e v c) k

  pub set_value_ptr_then :
      (p : Property Buf) (def : ParamDef) (ptr : Ptr) (len : ℕ) (e : Endian)
      (rest : Property Buf → Outcome (Decoded Buf))
      → Inv class p
      → IsParam class def
      → ((q : Property Buf) → Inv class q → Satisfies (IsGood class size Next) (rest q))
      → Satisfies (IsGood class size Next) (set_value_ptr p def ptr len e >>= rest)
  set_value_ptr_then p def ptr len e rest v c k =
      Satisfies->>= (Inv class) (IsGood class size Next) (set_value_ptr p def ptr len e) rest
        (set_value_ptr-Inv class p def ptr len e v c) k

  pub cpy_value_then :
      (p : Property Buf) (def : ParamDef) (src : Bytes) (e : Endian)
      (rest : Property Buf → Outcome (Decoded Buf))
      → Inv class p
      → IsParam class def
      → ((q : Property Buf) → Inv class q → Satisfies (IsGood class size Next) (rest q))
      → Satisfies (IsGood class size Next) (cpy_value p def src e >>= rest)
  cpy_value_then p def src e rest v c k =
      Satisfies->>= (Inv class) (IsGood class size Next) (cpy_value p def src e) rest
        (cpy_value-Inv class p def src e v c) k

-- Changes that leave the pools alone.
module _ {Buf : Type 0} {class : ℕ → Class} (p : Property Buf) (v : Inv class p) where
  pub push_event-Inv : (ev : ℕ) → Inv class (push_event p ev)
  unfolding push_event object
  push_event-Inv ev = record { same_size = v.same_size; in_pool = v.in_pool; typed = v.typed }

  pub set_src_port-Inv : (port : ℕ) → Inv class (set_src_port p port)
  unfolding set_src_port object
  set_src_port-Inv port = record { same_size = v.same_size; in_pool = v.in_pool; typed = v.typed }

  pub set_dst_port-Inv : (port : ℕ) → Inv class (set_dst_port p port)
  unfolding set_dst_port object
  set_dst_port-Inv port = record { same_size = v.same_size; in_pool = v.in_pool; typed = v.typed }

  pub set_src_addr-Inv : (tb : BufferOps Buf) (addr : Bytes) → Inv class (set_src_addr tb p addr)
  unfolding set_src_addr object
  set_src_addr-Inv tb addr = record {
    same_size = v.same_size;
    in_pool = v.in_pool;
    typed = v.typed;
  }

  pub set_dst_addr-Inv : (tb : BufferOps Buf) (addr : Bytes) → Inv class (set_dst_addr tb p addr)
  unfolding set_dst_addr object
  set_dst_addr-Inv tb addr = record {
    same_size = v.same_size;
    in_pool = v.in_pool;
    typed = v.typed;
  }

pub shrink-IsReady : (size n : ℕ) (pd : Payload) → IsReady size pd → IsReady size (shrink pd n).1
unfolding shrink
shrink-IsReady size n pd r = record {
  valid = (shrink-IsValid size pd n r.valid).4;
  current = r.current;
  has = ground (arith, r.has);
}

pub load_slice_lem :
    (mem : Bytes) (off n : ℕ) → off + n ≤ length mem → load_slice mem off n ≡ ok (slice mem off n)
load_slice_lem mem off n h = let e : leb (off + n) (length mem) ≡ true = ground arith in rw e
