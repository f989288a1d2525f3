-- ===== src/Property/Presence.antt =====
-- `has_value` of a Property, after `init` and the retained values of one packet.
use packetmachine.Base.{
  ℕ, zero, suc, ◌+◌, ◌≡◌, ◌∙◌, refl, ap, inl, inr, List, [], ◌∷◌, map, arith, ltb, ◌==◌,
  if◌then◌else◌, get_or, length, All, Bool-cases, get_elem?-eq-get_or, get_elem?-out, ok, fault,
}
use packetmachine.Property.Objects.{Class, ParamDef}
use packetmachine.Property.Pools.{Inv, count, retain_value-Retains}
use packetmachine.Property.{Property, init, retain_value, object, has_value}

-- How often a parameter occurs.
pub times : ℕ → List ParamDef → ℕ
times i [] = 0
times i (d ∷ ds) = (if i == d.id then 1 else 0) + times i ds

length-zeros : (xs : List ℕ) → length (map (λ x. zero) xs) ≡ length xs
length-zeros [] = refl
length-zeros (x ∷ xs) = ap suc (length-zeros xs)

get_or-zeros : (xs : List ℕ) (i : ℕ) → get_or (map (λ x. zero) xs) i 0 ≡ 0
get_or-zeros [] i = refl
get_or-zeros (x ∷ xs) zero = refl
get_or-zeros (x ∷ xs) (suc i) = get_or-zeros xs i

module _ {Buf : Type 0} where
  -- The calls of `retain_value` for one packet.
  unfoldable pub retain_all : Property Buf → List ParamDef → Property Buf
  retain_all p [] = p
  retain_all p (d ∷ ds) = retain_all ((retain_value p d).1) ds

module _ {Buf : Type 0} (class : ℕ → Class) where
  has_value-count :
      (p : Property Buf) (i : ℕ)
      → has_value p i ≡ (if ltb i (length p.param_idx) then ok (ltb 0 (count p i)) else fault)
  unfolding has_value
  has_value-count p i = elim (Bool-cases (ltb i (length p.param_idx))) [
    | inl e ↦ rw (e, get_elem?-eq-get_or p.param_idx i 0 (ground arith)) refl
    | inr e ↦ rw (e, get_elem?-out p.param_idx i (ground arith)) refl
  ]

  Inv-init : (p : Property Buf) → Inv class p → Inv class (init p)
  unfolding init object
  Inv-init p v = record {
    same_size = length-zeros p.param_idx ∙ v.same_size;
    in_pool = λ i. rw (get_or-zeros p.param_idx i) (omega arith);
    typed = v.typed;
  }

  count-retain_all :
      (defs : List ParamDef) (p : Property Buf)
      → Inv class p
      → All (λ d. d.class ≡ class d.id) defs
      → Inv class (retain_all p defs)
        × ((i : ℕ) → count (retain_all p defs) i ≡ count p i + times i defs)
  unfolding retain_all times
  count-retain_all [] p v a = (v, λ i. omega arith)
  count-retain_all (d ∷ ds) p v (c, cs) =
      let w = retain_value-Retains class p d v c in
      let (inv, counts) = count-retain_all ds ((retain_value p d).1) w.inv cs in
      (inv, λ i. ground (arith, counts i, w.counted i))

  -- When the values of a list of parameters, each with the constructor of its id, are retained one
  -- after the other on a well-formed property that `init` has reset, the result is well formed;
  -- `has_value` of a parameter below the length of its counters tells whether the list has that
  -- parameter, whatever was retained before `init`; and `has_value` of any other id reads past the
  -- end of the counters.
  pub has_value-retain_all :
      (p : Property Buf) (defs : List ParamDef) (i : ℕ)
      → Inv class p
      → All (λ d. d.class ≡ class d.id) defs
      → let r = retain_all (init p) defs in
        Inv class r
        × (has_value r i
            ≡ (if ltb i (length r.param_idx) then ok (ltb 0 (times i defs)) else fault))
  unfolding init
  has_value-retain_all p defs i v a =
      let (inv, counts) = count-retain_all defs (init p) (Inv-init p v) a in
      (
        inv,
        has_value-count (retain_all (init p) defs) i
            ∙ ap
                (λ n.
                  if ltb i (length (retain_all (init p) defs).param_idx)
                  then ok (ltb 0 n)
                  else fault)
                (omega (arith, counts i, get_or-zeros p.param_idx i)),
      )
