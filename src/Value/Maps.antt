-- ===== src/Value/Maps.antt =====
-- value::Map of src/value.cc, over any type of the values that it holds, without its `repr`. The
-- order of the entries is that of their insertion; nothing here depends on it.
use Prim.Native.String.{String}
use text.Mathlib.Text.{◌==◌}
use text.Mathlib.TextEquality.{eq_iff}
use packetmachine.Base.{
  ℕ, ◌≡◌, ◌∙◌, refl, ap, true, Option, none, some, List, [], ◌∷◌, ◌++◌, arith, if◌then◌else◌,
  length, Bool-cases, inl, inr,
}

pub record Map {ℓ} (V : Type ℓ) : Type ℓ where
  pub map : List (String × V)

module _ {ℓ} {V : Type ℓ} where
  unfoldable pub clear : Map V → Map V
  clear m = record { map = [] }

  unfoldable pub size : Map V → ℕ
  size m = length m.map

  unfoldable pub lookup : List (String × V) → String → Option V
  lookup [] key = none
  lookup ((k, v) ∷ rest) key = let more = lookup rest key in if k == key then some v else more

  -- none for `NONE`
  unfoldable pub find : Map V → String → Option V
  unfolding lookup
  find m key = lookup m.map key

  -- `std::map::insert` keeps an entry that is there.
  unfoldable pub insert_if : Map V → String → V → Option V → Map V
  insert_if m key val none = record { map = m.map ++ ((key, val) ∷ []) }
  insert_if m key val (some old) = m

  unfoldable pub insert : Map V → String → V → Map V
  unfolding insert_if find
  insert m key val = insert_if m key val (find m key)

  abbrev or_value : Option V → V → V
  or_value none v = v
  or_value (some old) v = old

  pub lookup-append :
      (l : List (String × V)) (k j : String) (v : V)
      → lookup l k ≡ none
      → lookup (l ++ ((k, v) ∷ [])) j ≡ (if k == j then some v else lookup l j)
  unfolding lookup
  lookup-append [] k j v h = refl
  lookup-append ((i, w) ∷ l) k j v h =
      ground (arith, eq_iff k j, eq_iff i k, eq_iff i j, lookup-append l k j v)

  find-insert_if :
      (m : Map V) (k j : String) (v : V) (old : Option V)
      → find m k ≡ old
      → find (insert_if m k v old) j ≡ (if k == j then some (or_value old v) else find m j)
  unfolding find insert_if
  find-insert_if m k j v none h = lookup-append m.map k j v h
  find-insert_if m k j v (some old) h = elim (Bool-cases (k == j)) [
    | inl e ↦ rw e (ap (lookup m.map) (same e) ∙ h)
    | inr e ↦ rw e refl
  ]
    where
      same : (k == j) ≡ true → j ≡ k
      same e = ground (arith, eq_iff k j)

  -- After `insert` the map finds, under the key, the value that it had there before, and the new one
  -- only where it had none; it finds under every other key what it found before.
  pub find-insert :
      (m : Map V) (k j : String) (v : V)
      → find (insert m k v) j ≡ (if k == j then some (or_value (find m k) v) else find m j)
  unfolding insert
  find-insert m k j v = find-insert_if m k j v (find m k) refl
