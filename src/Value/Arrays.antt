-- ===== src/Value/Arrays.antt =====
-- value::Array of src/value.cc, over any type of the values that it holds.
use mathlib.Core.List.{append_assoc, append-nil}
use packetmachine.Base.{
  ℕ, ◌<◌, ◌≡◌, ◌∙◌, refl, sym, ap, Option, none, some, List, [], ◌∷◌, ◌++◌, arith, ltb,
  if◌then◌else◌, get_elem?, length, get_elem?-eq-get_or, get_elem?-out, get_or, Outcome, ok,
  or_fault, ◌>>=◌, Bytes, Bool-cases, inl, inr,
}

pub record Array {ℓ} (V : Type ℓ) : Type ℓ where
  pub array : List V

module _ {ℓ} {V : Type ℓ} where
  unfoldable pub clear : Array V → Array V
  clear a = record { array = [] }

  unfoldable pub size : Array V → ℕ
  size a = length a.array

  -- none for `NONE`
  unfoldable pub get : Array V → ℕ → Outcome (Option V)
  get a idx =
      if ltb idx (length a.array)
      then (or_fault (get_elem? a.array idx) >>= λ v. ok (some v))
      else ok none

  unfoldable pub push : Array V → V → Array V
  push a v = record { array = a.array ++ (v ∷ []) }

  pub push_all : Array V → List V → Array V
  push_all a [] = a
  push_all a (v ∷ vs) = push_all (push a v) vs

  push_all-array : (a : Array V) (vs : List V) → (push_all a vs).array ≡ a.array ++ vs
  unfolding push_all push
  push_all-array a [] = sym (append-nil a.array)
  push_all-array a (v ∷ vs) = push_all-array (push a v) vs ∙ append_assoc a.array (v ∷ []) vs

  get-array : (a : Array V) (i : ℕ) → get a i ≡ ok (get_elem? a.array i)
  unfolding get
  get-array a i = elim (Bool-cases (ltb i (length a.array))) [
    | inl e ↦ rw e (found (get_elem? a.array i) (present a.array i (ground arith)))
    | inr e ↦ rw (e, get_elem?-out a.array i (ground arith)) refl
  ]
    where
      present : (xs : List V) (j : ℕ) → j < length xs → (v : V) × (get_elem? xs j ≡ some v)
      present [] j h = absurd (omega arith)
      present (x ∷ xs) j h = (get_or (x ∷ xs) j x, get_elem?-eq-get_or (x ∷ xs) j x h)

      found : (m : Option V) → (v : V) × (m ≡ some v) → (or_fault m >>= λ v. ok (some v)) ≡ ok m
      found none h = cc
      found (some v) h = refl

  -- After `clear` and any pushes an array has the size of the pushes, and `get` gives their values by
  -- index, in their order, and `NONE` past them; it never faults.
  pub get-push_all :
      (a : Array V) (vs : List V) (i : ℕ)
      → (size (push_all (clear a) vs) ≡ length vs)
        × (get (push_all (clear a) vs) i ≡ ok (get_elem? vs i))
  unfolding clear size
  get-push_all a vs i =
      let e = push_all-array (clear a) vs in
      (ap length e, get-array (push_all (clear a) vs) i ∙ ap (λ l. ok (get_elem? l i)) e)

-- The loop of `repr`, where `show` is what an element's `repr` writes.
unfoldable pub repr_items {ℓ} : {V : Type ℓ} → (V → Outcome Bytes) → List V → Outcome Bytes
repr_items show [] = ok []
repr_items show (v ∷ vs) = do
  item ← show v
  rest ← repr_items show vs
  ok (item ++ (b',' ∷ b' ' ∷ rest))

unfoldable pub repr {ℓ} : {V : Type ℓ} → (V → Outcome Bytes) → Array V → Outcome Bytes
unfolding repr_items
repr show a = repr_items show a.array >>= λ s. ok (b'[' ∷ (s ++ (b']' ∷ [])))
