-- ===== src/Property/Write.antt =====
-- The calls `prop->retain_value(PARAM)->set(...)` and `->cpy(...)` of the decode modules, and that
-- they keep a Property well formed.
use native.Mathlib.Decide.{ℕ_discrete}
use mathlib.Core.Option.{some-injective}
use packetmachine.Base.{
  ℕ, zero, suc, ◌+◌, ◌≤◌, ◌<◌, ◌≡◌, ◌∙◌, ◌⊎◌, sym, refl, subst, ap, inl, inr, true, false, some,
  List, [], ◌∷◌, arith, ◌==◌, get_elem?, get_or, set, length, length-set, Bool-cases,
  get_or-set_self, get_or-set_ne, Outcome, ok, or_fault, ◌>>=◌, Bytes, Satisfies,
}
use packetmachine.Value.{Endian, Ptr}
use packetmachine.Value
use packetmachine.Property.Objects.{Class, ParamDef, Object}
use packetmachine.Property.Pools.{Inv, count, pool, Placed, Placed-set, retain_value-Retains}
use packetmachine.Property.{Property, retain_value, retain_from, grow, object, modify}

module _ {Buf : Type 0} where
  -- A new value of a parameter, changed by what the module does to it.
  unfoldable pub write : (Object → Object) → Property Buf → ParamDef → Outcome (Property Buf)
  write change p def =
      let (h, q) = retain_value p def in or_fault (object q h) >>= λ o. ok (modify q h (change o))

  -- prop->retain_value(def)->set(ptr, len, e), with `ptr` into the packet
  unfoldable pub set_value : Property Buf → ParamDef → ℕ → ℕ → Endian → Outcome (Property Buf)
  unfolding write
  set_value p def off len e = write (λ o. record o { view = Value.set o.view off len e }) p def

  -- The same with a pointer that may be null.
  unfoldable pub set_value_ptr : Property Buf → ParamDef → Ptr → ℕ → Endian → Outcome (Property Buf)
  unfolding write
  set_value_ptr p def ptr len e =
      write (λ o. record o { view = Value.set_ptr o.view ptr len e }) p def

  -- prop->retain_value(def)->cpy(src, len, e)
  unfoldable pub cpy_value : Property Buf → ParamDef → Bytes → Endian → Outcome (Property Buf)
  unfolding write
  cpy_value p def src e = write (λ o. record o { view = Value.cpy o.view src e }) p def

get_or-pos : (xs : List ℕ) (i : ℕ) → 0 < get_or xs i 0 → i < length xs
get_or-pos [] i h = omega (arith, h)
get_or-pos (x ∷ xs) zero h = omega arith
get_or-pos (x ∷ xs) (suc i) h = omega (arith, get_or-pos xs i h)

retain_value-addresses :
    {Buf : Type 0} (p : Property Buf) (def : ParamDef)
    → ((retain_value p def).1.src_addr ≡ p.src_addr)
      × ((retain_value p def).1.dst_addr ≡ p.dst_addr)
unfolding retain_value retain_from grow
retain_value-addresses p def = ground arith

module _ {Buf : Type 0} (class : ℕ → Class) where
  pub modify-Inv :
      (q : Property Buf) (pid k : ℕ) (o : Object)
      → Inv class q
      → pid < length q.param
      → k < length (pool q pid)
      → o.class ≡ class pid
      → Inv class (modify q (pid, k) o)
  unfolding modify object
  modify-Inv q pid k o v small in_range c = record {
    same_size = omega (arith, v.same_size, length-set q.param pid (set (pool q pid) k o));
    in_pool = λ i. fits i (Bool-cases (i == pid));
    typed = λ i j a g. class_at i j a g (Bool-cases (i == pid));
  }
    where
      new : List Object
      new = set (pool q pid) k o

      param' : List (List Object)
      param' = set q.param pid new

      w : Placed (pool q pid) k o new
      w = Placed-set (pool q pid) k o in_range

      same : (i : ℕ) → (i == pid) ≡ true → i ≡ pid
      same i e = ground arith

      here_at : (i : ℕ) → (i == pid) ≡ true → get_or param' i [] ≡ new
      here_at i e =
          ap (λ j. get_or param' j []) (same i e) ∙ get_or-set_self q.param pid new [] small

      away : (i : ℕ) → (i == pid) ≡ false → get_or param' i [] ≡ pool q i
      away i ne = get_or-set_ne q.param pid i new [] (ground arith)

      fits :
          (i : ℕ)
          → ((i == pid) ≡ true) ⊎ ((i == pid) ≡ false)
          → count q i ≤ length (get_or param' i [])
      fits i (inl e) = rw (here_at i e) (
          omega (
            arith,
            v.in_pool i,
            length-set (pool q pid) k o,
            ap (λ j. length (pool q j)) (same i e),
          ))
      fits i (inr e) = rw (away i e) (v.in_pool i)

      class_new :
          (j : ℕ) (a : Object) → get_elem? new j ≡ some a → Dec (j ≡ k) → a.class ≡ class pid
      class_new j a g (yes e) =
          ap Object.class (sym (some-injective o a (sym w.there ∙ ap (get_elem? new) (sym e) ∙ g)))
          ∙ c
      class_new j a g (no ne) = v.typed pid j a (sym (w.others j ne) ∙ g)

      class_at :
          (i j : ℕ) (a : Object)
          → get_elem? (get_or param' i []) j ≡ some a
          → ((i == pid) ≡ true) ⊎ ((i == pid) ≡ false)
          → a.class ≡ class i
      class_at i j a g (inl e) =
          class_new j a (sym (ap (λ l. get_elem? l j) (here_at i e)) ∙ g) (ℕ_discrete j k)
          ∙ ap class (sym (same i e))
      class_at i j a g (inr e) = v.typed i j a (sym (ap (λ l. get_elem? l j) (away i e)) ∙ g)

  -- A write finds its object, and keeps the property well formed.
  pub write-Inv :
      (change : Object → Object) (p : Property Buf) (def : ParamDef)
      → ((o : Object) → (change o).class ≡ o.class)
      → Inv class p
      → def.class ≡ class def.id
      → Satisfies (Inv class) (write change p def)
  unfolding write
  write-Inv change p def keeps v c =
      let out = retain_value p def in
      let w = retain_value-Retains class p def v c in
      let (o, at, oc) = w.made in
      let counted : count out.1 def.id ≡ count p def.id + 1 = ground (arith, w.counted def.id) in
      rw at (
        subst (λ h. Inv class (modify out.1 h (change o))) (sym w.handle)
          (modify-Inv out.1 def.id (count p def.id) (change o) w.inv
            (omega
              (arith, w.inv.same_size, get_or-pos out.1.param_idx def.id (omega (arith, counted))))
            (omega (arith, counted, w.inv.in_pool def.id)) (keeps o ∙ oc ∙ c)))

  -- A write leaves the addresses as they are.
  pub write-addresses :
      (change : Object → Object) (p : Property Buf) (def : ParamDef)
      → Inv class p
      → def.class ≡ class def.id
      → Satisfies (λ q. (q.src_addr ≡ p.src_addr) × (q.dst_addr ≡ p.dst_addr)) (write change p def)
  unfolding write modify
  write-addresses change p def v c =
      let w = retain_value-Retains class p def v c in rw w.made.1 (retain_value-addresses p def)

  pub set_value-Inv :
      (p : Property Buf) (def : ParamDef) (off len : ℕ) (e : Endian)
      → Inv class p
      → def.class ≡ class def.id
      → Satisfies (Inv class) (set_value p def off len e)
  unfolding set_value
  set_value-Inv p def off len e v c = write-Inv _ p def (λ o. refl) v c

  pub cpy_value-Inv :
      (p : Property Buf) (def : ParamDef) (src : Bytes) (e : Endian)
      → Inv class p
      → def.class ≡ class def.id
      → Satisfies (Inv class) (cpy_value p def src e)
  unfolding cpy_value
  cpy_value-Inv p def src e v c = write-Inv _ p def (λ o. refl) v c

  pub set_value_ptr-Inv :
      (p : Property Buf) (def : ParamDef) (ptr : Ptr) (len : ℕ) (e : Endian)
      → Inv class p
      → def.class ≡ class def.id
      → Satisfies (Inv class) (set_value_ptr p def ptr len e)
  unfolding set_value_ptr
  set_value_ptr-Inv p def ptr len e v c = write-Inv _ p def (λ o. refl) v c
