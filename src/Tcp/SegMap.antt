-- ===== src/Tcp/SegMap.antt =====
-- The map `seg_map_` of TCP::Session in src/modules/tcp.cc, from relative sequence numbers to
-- chains of segments.
use packetmachine.Base.{
  ℕ, ◌+◌, ◌≡◌, ◌≢◌, Option, none, some, List, [], ◌∷◌, ◌++◌, arith, ◌==◌, if◌then◌else◌, length,
  length-append, Bool-cases, inl, inr, refl,
}

module _ {ℓ} {A : Type ℓ} where
  unfoldable pub find : List (ℕ × List A) → ℕ → Option (List A)
  find [] key = none
  find ((k, segs) ∷ map) key = let rest = find map key in if k == key then some segs else rest

  -- `insert` where the key is new, and `append` to the chain that stands there otherwise.
  unfoldable pub store : List (ℕ × List A) → ℕ → A → List (ℕ × List A)
  store [] key seg = (key, seg ∷ []) ∷ []
  store ((k, segs) ∷ map) key seg =
      let rest = store map key seg in
      if k == key then (k, segs ++ (seg ∷ [])) ∷ map else (k, segs) ∷ rest

  unfoldable pub erase : List (ℕ × List A) → ℕ → List (ℕ × List A)
  erase [] key = []
  erase ((k, segs) ∷ map) key =
      let rest = erase map key in if k == key then map else (k, segs) ∷ rest

  -- How many segments are stored.
  abbrev pub stored : List (ℕ × List A) → ℕ
  stored [] = 0
  stored ((k, segs) ∷ map) = length segs + stored map

  pub stored-store :
      (map : List (ℕ × List A)) (key : ℕ) (seg : A) → stored (store map key seg) ≡ stored map + 1
  unfolding store
  stored-store [] key seg = refl
  stored-store ((k, segs) ∷ map) key seg =
      ground (arith, stored-store map key seg, length-append segs (seg ∷ []))

  pub stored-erase :
      (map : List (ℕ × List A)) (key : ℕ) (segs : List A)
      → find map key ≡ some segs
      → stored (erase map key) + length segs ≡ stored map
  unfolding find erase
  stored-erase [] key segs h = cc
  stored-erase ((k, c) ∷ map) key segs h = elim (Bool-cases (k == key)) [
    | inl e ↦ ground (arith, h)
    | inr e ↦ ground (arith, h, stored-erase map key segs)
  ]

  pub find-store :
      (map : List (ℕ × List A)) (key k : ℕ) (seg : A)
      → k ≢ key
      → find (store map key seg) k ≡ find map k
  unfolding find store
  find-store [] key k seg ne = ground arith
  find-store ((j, c) ∷ map) key k seg ne = ground (arith, find-store map key k seg)

  pub find-erase :
      (map : List (ℕ × List A)) (key k : ℕ) → k ≢ key → find (erase map key) k ≡ find map k
  unfolding find erase
  find-erase [] key k ne = ground arith
  find-erase ((j, c) ∷ map) key k ne = ground (arith, find-erase map key k)

  pub find-store_new :
      (map : List (ℕ × List A)) (key : ℕ) (seg : A)
      → find map key ≡ none
      → find (store map key seg) key ≡ some (seg ∷ [])
  unfolding find store
  find-store_new [] key seg h = ground arith
  find-store_new ((j, c) ∷ map) key seg h = ground (arith, find-store_new map key seg)
