-- ===== src/Property/Pools.antt =====
-- The pools of a Property: a retained object is of its parameter's class, is shared with no other
-- object retained since `init`, and leaves those as they are.
use packetmachine.Base.{
  ◌⊎◌, ◌&&◌, ℕ, ◌+◌, ◌-◌, ◌≤◌, ◌<◌, ◌≡◌, ◌≢◌, ◌∙◌, sym, refl, subst, ap, inl, inr, true, false,
  Option, some, List, [], ◌∷◌, ◌++◌, arith, ltb, ◌==◌, if◌then◌else◌, get_elem?, get_or, set,
  replicate, length, length-set, length-append, length-replicate, Bool-cases, get_or-pad,
  get_or-set_self, get_or-set_ne, get_elem?-set_self, get_elem?-set_ne, get_elem?-append_last,
  get_elem?-append_lt, get_elem?-eq-get_or, get_elem?-out,
}
use native.Mathlib.Decide.{dec_lt, ℕ_discrete}
use mathlib.Core.Option.{some-injective}
use packetmachine.Property.Objects.{Class, ParamDef, Object, new_object, clear_as, clear_object}
use packetmachine.Property.{Property, Handle, grow, retain_from, retain_value, object}

module _ {Buf : Type 0} where
  -- How many values of a parameter have been retained since `init`, and its pool.
  abbrev pub count : Property Buf → ℕ → ℕ
  count p i = get_or p.param_idx i 0

  abbrev pub pool : Property Buf → ℕ → List Object
  pool p i = get_or p.param i []

  pub record Inv (class : ℕ → Class) (p : Property Buf) : Type 0 where
    pub same_size : length p.param_idx ≡ length p.param
    pub in_pool : (i : ℕ) → count p i ≤ length (pool p i)
    pub typed : (i k : ℕ) (o : Object) → object p (i, k) ≡ some o → o.class ≡ class i

  grow-view :
      (p : Property Buf) (n : ℕ)
      → length p.param_idx ≡ length p.param
      → let q = grow p n in
        ((i : ℕ) → count q i ≡ count p i)
        × ((i : ℕ) → pool q i ≡ pool p i)
        × (n ≤ length q.param)
        × (length q.param_idx ≡ length q.param)
  unfolding grow
  grow-view p n h = elim (Bool-cases (ltb (length p.param) n)) [
    | inl short ↦
        let more : length p.param < n = ground arith in
        rw short (
          λ i. get_or-pad p.param_idx (n - length p.param) i 0,
          λ i. get_or-pad p.param (n - length p.param) i [],
          omega (
            arith,
            more,
            length-append p.param (replicate (n - length p.param) []),
            length-replicate {A = List Object} (n - length p.param) [],
          ),
          omega (
            arith,
            h,
            length-append p.param_idx (replicate (n - length p.param) 0),
            length-replicate {A = ℕ} (n - length p.param) 0,
            length-append p.param (replicate (n - length p.param) []),
            length-replicate {A = List Object} (n - length p.param) [],
          ),
        )
    | inr long ↦ rw long (λ i. refl, λ i. refl, ground arith, h)
  ]

clear_as-class : (c : Class) (o : Object) → (clear_as c o).class ≡ o.class
unfolding clear_as
clear_as-class Class.array o = refl
clear_as-class Class.ns_record o = refl
clear_as-class Class.dhcp_option o = refl
clear_as-class _ o = refl

clear_object-class : (o : Object) → (clear_object o).class ≡ o.class
unfolding clear_object
clear_object-class o = clear_as-class o.class o

new_object-class : (c : Class) → (new_object c).class ≡ c
unfolding new_object
new_object-class c = refl

-- The pool `new` is the pool `old` with the object `o` at the place `idx`.
pub record Placed (old : List Object) (idx : ℕ) (o : Object) (new : List Object) : Type 0 where
  pub there : get_elem? new idx ≡ some o
  pub others : (k : ℕ) → k ≢ idx → get_elem? new k ≡ get_elem? old k
  pub longer : length old ≤ length new
  pub beyond : idx < length new

pub Placed-set :
    (old : List Object) (idx : ℕ) (o : Object) → idx < length old → Placed old idx o (set old idx o)
Placed-set old idx o h = record {
  there = get_elem?-set_self old idx o h;
  others = λ k ne. get_elem?-set_ne old o (λ e. ne (sym e));
  longer = omega (arith, length-set old idx o);
  beyond = omega (arith, length-set old idx o);
}

Placed-push : (old : List Object) (o : Object) → Placed old (length old) o (old ++ (o ∷ []))
Placed-push old o = record {
  there = get_elem?-append_last old o;
  others = λ k ne. push_others k ne (dec_lt k (length old));
  longer = omega (arith, length-append old (o ∷ []));
  beyond = omega (arith, length-append old (o ∷ []));
}
  where
    push_others :
        (k : ℕ)
        → k ≢ length old
        → Dec (k < length old)
        → get_elem? (old ++ (o ∷ [])) k ≡ get_elem? old k
    push_others k ne (yes h) = get_elem?-append_lt old (o ∷ []) k h
    push_others k ne (no h) =
        get_elem?-out (old ++ (o ∷ [])) k (omega (arith, length-append old (o ∷ [])))
        ∙ sym (get_elem?-out old k (omega arith))

module _ {Buf : Type 0} (class : ℕ → Class) where
  -- What `retain_value` does to a property.
  pub record Retains (p : Property Buf) (def : ParamDef) (h : Handle) (r : Property Buf)
      : Type 0 where
    pub handle : h ≡ (def.id, count p def.id)
    pub counted : (i : ℕ) → count r i ≡ (if i == def.id then count p i + 1 else count p i)
    pub made : (o : Object) × (object r h ≡ some o) × (o.class ≡ def.class)
    pub kept :
        (i k : ℕ)
        → object r (i, k)
          ≡ (if (i == def.id) && (k == count p def.id) then object r h else object p (i, k))
    pub inv : Inv class r

  Retains-place :
      (q : Property Buf) (def : ParamDef) (o : Object) (new : List Object)
      → Inv class q
      → def.id < length q.param
      → def.class ≡ class def.id
      → o.class ≡ def.class
      → Placed (pool q def.id) (count q def.id) o new
      → Retains q def
          (def.id, count q def.id)
          (record q {
            param_idx = set q.param_idx def.id (count q def.id + 1);
            param = set q.param def.id new;
          })
  unfolding object
  Retains-place q def o new v small c oc w = record {
    handle = refl;
    counted = counts;
    made = (o, ap (λ l. get_elem? l (count q def.id)) here ∙ w.there, oc);
    kept = λ i k. keeps_all i k (Bool-cases ((i == def.id) && (k == count q def.id)));
    inv = record {
      same_size = omega (
        arith,
        v.same_size,
        length-set q.param_idx def.id (count q def.id + 1),
        length-set q.param def.id new,
      );
      in_pool = λ i. fits i (Bool-cases (i == def.id));
      typed = λ i k o' g. class_at i k o' g (Bool-cases (i == def.id));
    };
  }
    where
      r : Property Buf
      r = record q {
        param_idx = set q.param_idx def.id (count q def.id + 1);
        param = set q.param def.id new;
      }

      here : pool r def.id ≡ new
      here = get_or-set_self q.param def.id new [] small

      away : (i : ℕ) → (i == def.id) ≡ false → pool r i ≡ pool q i
      away i ne = get_or-set_ne q.param def.id i new [] (ground arith)

      counts : (i : ℕ) → count r i ≡ (if i == def.id then count q i + 1 else count q i)
      counts i = ground (
        arith,
        get_or-set_self q.param_idx def.id (count q def.id + 1) 0 (omega (arith, v.same_size)),
        get_or-set_ne q.param_idx def.id i (count q def.id + 1) 0,
      )

      same : (i : ℕ) → (i == def.id) ≡ true → i ≡ def.id
      same i e = ground arith

      here_at : (i : ℕ) → (i == def.id) ≡ true → pool r i ≡ new
      here_at i e = ap (pool r) (same i e) ∙ here

      keeps :
          (i k : ℕ)
          → ((i == def.id) && (k == count q def.id)) ≡ false
          → ((i == def.id) ≡ true) ⊎ ((i == def.id) ≡ false)
          → get_elem? (pool r i) k ≡ get_elem? (pool q i) k
      keeps i k ne (inl e) =
          ap (λ l. get_elem? l k) (here_at i e)
          ∙ w.others k (ground arith)
          ∙ sym (ap (λ j. get_elem? (pool q j) k) (same i e))
      keeps i k ne (inr e) = ap (λ l. get_elem? l k) (away i e)

      keeps_all :
          (i k : ℕ)
          → (((i == def.id) && (k == count q def.id)) ≡ true)
            ⊎ (((i == def.id) && (k == count q def.id)) ≡ false)
          → get_elem? (pool r i) k ≡ (
              if (i == def.id) && (k == count q def.id)
              then get_elem? (pool r def.id) (count q def.id)
              else get_elem? (pool q i) k)
      keeps_all i k (inl e) =
          let at : k ≡ count q def.id = ground arith in
          let id : i ≡ def.id = ground arith in
          rw e (ap (get_elem? (pool r i)) at ∙ ap (λ j. get_elem? (pool r j) (count q def.id)) id)
      keeps_all i k (inr e) = rw e (keeps i k e (Bool-cases (i == def.id)))

      fits :
          (i : ℕ) → ((i == def.id) ≡ true) ⊎ ((i == def.id) ≡ false) → count r i ≤ length (pool r i)
      fits i (inl e) =
          rw (counts i, e, here_at i e) (omega (arith, w.beyond, ap (count q) (same i e)))
      fits i (inr e) = rw (counts i, e, away i e) (v.in_pool i)

      class_new :
          (k : ℕ) (o' : Object)
          → get_elem? new k ≡ some o'
          → Dec (k ≡ count q def.id)
          → o'.class ≡ class def.id
      class_new k o' g (yes e) =
          ap Object.class (sym (some-injective o o' (sym w.there ∙ ap (get_elem? new) (sym e) ∙ g)))
          ∙ oc
          ∙ c
      class_new k o' g (no ne) = v.typed def.id k o' (sym (w.others k ne) ∙ g)

      class_at :
          (i k : ℕ) (o' : Object)
          → get_elem? (pool r i) k ≡ some o'
          → ((i == def.id) ≡ true) ⊎ ((i == def.id) ≡ false)
          → o'.class ≡ class i
      class_at i k o' g (inl e) =
          class_new k o' (sym (ap (λ l. get_elem? l k) (here_at i e)) ∙ g)
            (ℕ_discrete k (count q def.id))
          ∙ ap class (sym (same i e))
      class_at i k o' g (inr e) = v.typed i k o' (sym (ap (λ l. get_elem? l k) (away i e)) ∙ g)

  retain_from-Retains :
      (q : Property Buf) (def : ParamDef)
      → Inv class q
      → def.id < length q.param
      → def.class ≡ class def.id
      → let out = retain_from q def (count q def.id) (pool q def.id) in Retains q def out.0 out.1
  unfolding retain_from clear_object object
  retain_from-Retains q def v small c =
      elim (Bool-cases (ltb (count q def.id) (length (pool q def.id)))) [
        | inl e ↦ rw e (reused (ground arith))
        | inr e ↦ rw e (made_new (omega (arith, v.in_pool def.id, not_below e)))
      ]
    where
      not_below :
          ltb (count q def.id) (length (pool q def.id)) ≡ false
          → length (pool q def.id) ≤ count q def.id
      not_below e = ground arith

      old : Object
      old = get_or (pool q def.id) (count q def.id) (new_object def.class)

      reused :
          (h : count q def.id < length (pool q def.id))
          → Retains q def
              (def.id, count q def.id)
              (record q {
                param_idx = set q.param_idx def.id (count q def.id + 1);
                param =
                    set q.param def.id (set (pool q def.id) (count q def.id) (clear_object old));
              })
      reused h =
          Retains-place q def (clear_object old)
            (set (pool q def.id) (count q def.id) (clear_object old)) v small c
            (clear_object-class old
              ∙ v.typed def.id (count q def.id) old
                  (get_elem?-eq-get_or (pool q def.id) (count q def.id) (new_object def.class) h)
              ∙ sym c)
            (Placed-set (pool q def.id) (count q def.id) (clear_object old) h)

      made_new :
          (h : count q def.id ≡ length (pool q def.id))
          → Retains q def
              (def.id, length (pool q def.id))
              (record q {
                param_idx = set q.param_idx def.id (count q def.id + 1);
                param = set q.param def.id (pool q def.id ++ (new_object def.class ∷ []));
              })
      made_new h =
          subst
            (λ k.
              Retains q def (def.id, k)
                (record q {
                  param_idx = set q.param_idx def.id (count q def.id + 1);
                  param = set q.param def.id (pool q def.id ++ (new_object def.class ∷ []));
                }))
            h
            (Retains-place q def (new_object def.class)
              (pool q def.id ++ (new_object def.class ∷ [])) v small c (new_object-class def.class)
              (subst
                (λ k.
                  Placed (pool q def.id) k (new_object def.class)
                    (pool q def.id ++ (new_object def.class ∷ [])))
                (sym h) (Placed-push (pool q def.id) (new_object def.class))))

  Inv-grow : (p : Property Buf) (n : ℕ) → Inv class p → Inv class (grow p n)
  unfolding object
  Inv-grow p n v =
      let view = grow-view p n v.same_size in
      record {
        same_size = view.3;
        in_pool = λ i. rw (view.0 i, view.1 i) (v.in_pool i);
        typed = λ i k o e. v.typed i k o (sym (ap (λ l. get_elem? l k) (view.1 i)) ∙ e);
      }

  -- After `retain_value` on a well-formed property, for a parameter whose constructor is the one of
  -- its id: the handle is the next place of the parameter's pool; that parameter's counter is one
  -- more and no other counter changes; the handle leads to an object of the parameter's class; every
  -- other place of every pool has the object it had; and the property is well formed.
  pub retain_value-Retains :
      (p : Property Buf) (def : ParamDef)
      → Inv class p
      → def.class ≡ class def.id
      → let out = retain_value p def in Retains p def out.0 out.1
  unfolding retain_value object
  retain_value-Retains p def v c =
      let view = grow-view p (def.id + 1) v.same_size in
      let out = retain_value p def in
      let w =
        retain_from-Retains (grow p (def.id + 1)) def (Inv-grow p (def.id + 1) v)
          (omega (arith, view.2)) c in
      record {
        handle = w.handle ∙ ap (λ k. (def.id, k)) (view.0 def.id);
        counted = λ i. w.counted i ∙ ap (λ k. if i == def.id then k + 1 else k) (view.0 i);
        made = w.made;
        kept = λ i k.
            w.kept i k
            ∙ ap
                (λ (x : ℕ × Option Object).
                  if (i == def.id) && (k == x.0) then object out.1 out.0 else x.1)
                (ap (λ n. (n, get_elem? (pool (grow p (def.id + 1)) i) k)) (view.0 def.id)
                  ∙ ap (λ l. (count p def.id, get_elem? l k)) (view.1 i));
        inv = w.inv;
      }
