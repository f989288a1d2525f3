-- ===== src/Property/Handles.antt =====
-- Several values of a Property at once: a `Value*` that was retained stays good while others are
-- retained and changed.
use packetmachine.Base.{
  ℕ, zero, suc, ◌<◌, ◌≡◌, ◌∙◌, ap, sym, true, false, ==_iff, if◌then◌else◌, fault, ◌&&◌, ◌==◌, some,
  List, [], ◌∷◌, arith, get_or, set, length, length-set, Bool-cases, inl, inr, ◌⊎◌, All,
  get_elem?-in, get_elem?-eq-get_or, get_or-set_self, get_or-set_ne, Outcome, ok, or_fault, ◌>>=◌,
  Satisfies,
}
use packetmachine.Property.Objects.{Class, ParamDef, Object, new_object, class_number}
use packetmachine.Property.Pools.{Inv, count, pool, Retains, retain_value-Retains}
use packetmachine.Property.Write.{modify-Inv}
use packetmachine.Property.{Property, Handle, retain_value, object, modify}

-- A pool that holds something is one of the pools.
pool_in : (pools : List (List Object)) (i k : ℕ) → k < length (get_or pools i []) → i < length pools
pool_in [] i k h = absurd (omega (arith, h))
pool_in (x ∷ pools) zero k h = omega arith
pool_in (x ∷ pools) (suc i) k h = omega (arith, pool_in pools i k h)

module _ {Buf : Type 0} where
  -- A change to the object behind a pointer.
  unfoldable pub alter : (Object → Object) → Handle → Property Buf → Outcome (Property Buf)
  alter change h p = or_fault (object p h) >>= λ o. ok (modify p h (change o))

  -- The same through a `dynamic_cast`, for a class that no other inherits: of another class the
  -- cast gives null, whose use is a fault.
  unfoldable pub alter_as :
      Class → (Object → Object) → Handle → Property Buf → Outcome (Property Buf)
  alter_as c change h p = or_fault (object p h) >>= λ o.
      if class_number o.class == class_number c then ok (modify p h (change o)) else fault

  -- The pointer leads to an object.
  abbrev pub IsLive : Property Buf → Handle → Type 0
  IsLive p h = h.1 < length (pool p h.0)

  -- A well-formed property in which these pointers lead to objects.
  abbrev pub Keeps : (ℕ → Class) → List Handle → Property Buf → Type 0
  Keeps class handles p = Inv class p × All (IsLive p) handles

  All-IsLive :
      (p q : Property Buf) (handles : List Handle)
      → ((g : Handle) → IsLive p g → IsLive q g)
      → All (IsLive p) handles
      → All (IsLive q) handles
  All-IsLive p q [] k a = tt
  All-IsLive p q (h ∷ handles) k a = (k h a.0, All-IsLive p q handles k a.1)

  object-IsLive : (p : Property Buf) (h : Handle) (o : Object) → object p h ≡ some o → IsLive p h
  unfolding object
  object-IsLive p h o e = get_elem?-in (pool p h.0) h.1 o e

  IsLive-object :
      (p : Property Buf) (h : Handle) → IsLive p h → (o : Object) × (object p h ≡ some o)
  unfolding object
  IsLive-object p h l = (_, get_elem?-eq-get_or (pool p h.0) h.1 (new_object Class.value) l)

  IsLive-param : (p : Property Buf) (h : Handle) → IsLive p h → h.0 < length p.param
  IsLive-param p h l = pool_in p.param h.0 h.1 l

module _ {Buf : Type 0} (class : ℕ → Class) where
  pub retain_value-Keeps :
      (handles : List Handle) (p : Property Buf) (def : ParamDef)
      → Keeps class handles p
      → def.class ≡ class def.id
      → let out = retain_value p def in Keeps class (out.0 ∷ handles) out.1
  retain_value-Keeps handles p def k c =
      let w = retain_value-Retains class p def k.0 c in
      let out = retain_value p def in
      (
        w.inv,
        (
          object-IsLive out.1 out.0 w.made.0 w.made.1,
          All-IsLive p out.1 handles
              (λ g l. stays w g l (Bool-cases ((g.0 == def.id) && (g.1 == count p def.id)))) k.1,
        ),
      )
    where
      stays :
          Retains class p def (retain_value p def).0 (retain_value p def).1
          → (g : Handle) → IsLive p g
          → (((g.0 == def.id) && (g.1 == count p def.id)) ≡ true)
            ⊎ (((g.0 == def.id) && (g.1 == count p def.id)) ≡ false)
          → IsLive (retain_value p def).1 g
      stays w g l (inl e) =
          object-IsLive (retain_value p def).1 g w.made.0 (w.kept g.0 g.1 ∙ (rw e w.made.1))
      stays w g l (inr e) =
          let (o, at) = IsLive-object p g l in
          object-IsLive (retain_value p def).1 g o (w.kept g.0 g.1 ∙ (rw e at))

  pub alter-Keeps :
      (handles : List Handle) (p : Property Buf) (change : Object → Object) (h : Handle)
      → ((o : Object) → (change o).class ≡ o.class)
      → IsLive p h
      → Keeps class handles p
      → Satisfies (Keeps class handles) (alter change h p)
  unfolding alter modify
  alter-Keeps handles p change h same l k =
      let (o, at) = IsLive-object p h l in
      rw at (
        modify-Inv class p h.0 h.1 (change o) k.0 (IsLive-param p h l) l
            (same o ∙ k.0.typed h.0 h.1 o at),
        All-IsLive p (modify p h (change o)) handles
            (λ g live. stays o g live (Bool-cases (g.0 == h.0))) k.1,
      )
    where
      stays :
          (o : Object) (g : Handle)
          → IsLive p g
          → ((g.0 == h.0) ≡ true) ⊎ ((g.0 == h.0) ≡ false)
          → IsLive (modify p h (change o)) g
      stays o g live (inl e) =
          let same_pool : g.0 ≡ h.0 = ground (arith, e) in
          let size = length-set (pool p h.0) h.1 (change o) in
          omega (
            arith,
            live,
            size,
            ap (λ i. length (pool p i)) same_pool,
            ap (λ i. length (pool (modify p h (change o)) i)) same_pool,
            ap length (
                get_or-set_self p.param h.0 (set (pool p h.0) h.1 (change o)) []
                  (IsLive-param p h l)),
          )
      stays o g live (inr e) = omega (
        arith,
        live,
        ap length (
            get_or-set_ne p.param h.0 g.0 (set (pool p h.0) h.1 (change o)) [] (ground (arith, e))),
      )

  retained-id : (p : Property Buf) (def : ParamDef) → (retain_value p def).0.0 ≡ def.id
  unfolding retain_value packetmachine.Property.retain_from packetmachine.Property.grow
  retained-id p def = ground arith

  pub retain_value-class :
      (p : Property Buf) (def : ParamDef) (c : Class)
      → def.class ≡ class def.id
      → def.class ≡ c
      → class (retain_value p def).0.0 ≡ c
  retain_value-class p def c e same = ap class (retained-id p def) ∙ (sym e ∙ same)

  pub alter_as-Keeps :
      (handles : List Handle) (p : Property Buf) (c : Class) (change : Object → Object) (h : Handle)
      → ((o : Object) → (change o).class ≡ o.class)
      → class h.0 ≡ c
      → IsLive p h
      → Keeps class handles p
      → Satisfies (Keeps class handles) (alter_as c change h p)
  unfolding alter_as alter
  alter_as-Keeps handles p c change h same typed l k =
      let (o, at) = IsLive-object p h l in
      let is_cast =
        (==_iff (class_number o.class) (class_number c)).1
          (ap class_number (k.0.typed h.0 h.1 o at ∙ typed)) in
      let kept = alter-Keeps handles p change h same l k in rw (at, is_cast) (rw at at kept)
