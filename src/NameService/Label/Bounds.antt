-- ===== src/NameService/Label/Bounds.antt =====
-- `parse_label` reads inside the packet, ends, and returns a pointer behind the one it was given.
use packetmachine.Base.{
  ℕ, zero, suc, ◌+◌, ◌-◌, ◌≤◌, ◌<◌, ◌≡◌, ◌≢◌, refl, inl, inr, Bool, Option, none, some, [], ◌∷◌,
  ◌++◌, arith, ltb, leb, le→leb, ◌==◌, length, get_or, Bool-cases, Outcome, ok, throw, fault, ◌>>=◌,
  Bytes, load_lem, slice,
}
use packetmachine.NameService.Label.{
  max_len, Cursor, is_jump, or_else, jump_by, jump, append, Round, return, continue, advance, label,
  after_jump, round, rounds, parse_label,
}

-- What a pointer kept in `rp`, or none, has to do with the region from `start` to `stop`.
abbrev RpInv : ℕ → ℕ → ℕ → ℕ → Option ℕ → Type 0
RpInv start stop p remain none = (start ≤ p) × (p + remain ≤ stop)
RpInv start stop p remain (some r) = (start < r) × (r ≤ stop)

-- What the function may come to, with its pointer in the region from `start` to `stop`.
abbrev pub Returns : ℕ → ℕ → Outcome (Option ℕ × Option Bytes) → Type 0
Returns start stop (ok (none, s)) = Unit {0}
Returns start stop (ok (some r, s)) = (start < r) × (r ≤ stop)
Returns start stop (throw e) = ⊥
Returns start stop fault = ⊥

module _ (mem : Bytes) (sp total_len start stop : ℕ) (inside : sp + total_len ≤ length mem) where
  record Inv (c : Cursor) : Type 0 where
    readable : c.p + c.remain ≤ length mem
    back : RpInv start stop c.p c.remain c.rp

  or_else-RpInv :
      (p remain n : ℕ) (rp : Option ℕ)
      → RpInv start stop p remain rp
      → 0 < n
      → n ≤ remain
      → (start < or_else rp (p + n)) × (or_else rp (p + n) ≤ stop)
  or_else-RpInv p remain n none h k l = omega arith
  or_else-RpInv p remain n (some r) h k l = h

  RpInv-move :
      (p remain n : ℕ) (rp : Option ℕ)
      → RpInv start stop p remain rp
      → n ≤ remain
      → RpInv start stop (p + n) (remain - n) rp
  RpInv-move p remain n none h k = omega arith
  RpInv-move p remain n (some r) h k = h

  -- What a round of the loop may come to, from a cursor with `len`.
  abbrev IsGood : ℕ → Outcome Round → Type 0
  IsGood len (ok (return none s)) = Unit {0}
  IsGood len (ok (return (some r) s)) = (start < r) × (r ≤ stop)
  IsGood len (ok (continue d)) = Inv d × (len < d.len)
  IsGood len (throw e) = ⊥
  IsGood len fault = ⊥

  append-ok :
      (s : Option Bytes) (p n : ℕ)
      → p + 1 + n ≤ length mem
      → (t : Option Bytes) × (append mem sp total_len s p n ≡ ok t)
  unfolding append
  append-ok none p n h = (none, refl)
  append-ok (some s) p n h =
      (some (s ++ (slice mem (p + 1) n ++ (b'.' ∷ []))), rw (le→leb (p + 1 + n) (length mem) h))

  advance-IsGood :
      (c : Cursor) (n : ℕ)
      → Inv c
      → n + 1 < c.remain
      → n ≢ 0
      → IsGood c.len (advance mem sp total_len c n)
  unfolding advance
  advance-IsGood c n v h ne =
      let (s, e) = append-ok c.s c.p n (omega arith) in
      rw e (
        record {
          readable = omega arith;
          back = RpInv-move c.p c.remain (n + 1) c.rp v.back (omega arith);
        },
        omega arith,
      )

  label-IsGood :
      (c : Cursor) (n : ℕ) → Inv c → 0 < c.remain → IsGood c.len (label mem sp total_len c n)
  unfolding label
  label-IsGood c n v h = elim (Bool-cases (n == 0)) [
    | inl e ↦ rw e (or_else-RpInv c.p c.remain 1 c.rp v.back (omega arith) h)
    | inr e ↦ elim (Bool-cases (leb c.remain (n + 1))) [
      | inl l ↦ rw (e, l) tt
      | inr l ↦ rw (e, l) (advance-IsGood c n v (ground arith) (ground arith))
    ]
  ]

  abbrev IsJumped : ℕ → Option Cursor → Type 0
  IsJumped len none = Unit {0}
  IsJumped len (some d) = Inv d × (0 < d.remain) × (d.len ≡ len)

  jump_by-IsJumped :
      (c : Cursor) (j : ℕ) → Inv c → 1 < c.remain → IsJumped c.len (jump_by mem sp total_len c j)
  unfolding jump_by
  jump_by-IsJumped c j v h = elim (Bool-cases (leb total_len j)) [
    | inl e ↦ rw e tt
    | inr e ↦ rw e (
      record {
        readable = ground arith;
        back = or_else-RpInv c.p c.remain 2 c.rp v.back (omega arith) h;
      },
      ground arith,
      refl,
    )
  ]

  after_jump-IsGood :
      (c : Cursor) (o : Option Cursor)
      → IsJumped c.len o
      → IsGood c.len (after_jump mem sp total_len c o)
  unfolding after_jump
  after_jump-IsGood c none h = tt
  after_jump-IsGood c (some d) (v, r, e) =
      rw (load_lem mem d.p (omega arith), ← e) (label-IsGood d (get_or mem d.p 0) v r)

  jumped :
      (c : Cursor) (b : ℕ)
      → Inv c
      → 0 < c.remain
      → IsGood c.len (jump mem sp total_len c b >>= after_jump mem sp total_len c)
  unfolding jump
  jumped c b v h = elim (Bool-cases (is_jump b)) [
    | inr e ↦ rw e (after_jump-IsGood c (some c) (v, h, refl))
    | inl e ↦ elim (Bool-cases (ltb c.remain 2)) [
      | inl short ↦ rw (e, short) (after_jump-IsGood c none tt)
      | inr long ↦
          let room : 1 < c.remain = ground arith in
          rw (e, long, load_lem mem c.p (omega arith), load_lem mem (c.p + 1) (omega arith))
            (after_jump-IsGood c _ (jump_by-IsJumped c _ v room))
    ]
  ]

  round-IsGood : (c : Cursor) → Inv c → IsGood c.len (round mem sp total_len c)
  unfolding round
  round-IsGood c v = elim (Bool-cases (ltb c.remain 1)) [
    | inl e ↦ rw e tt
    | inr e ↦ rw (e, load_lem mem c.p (ground arith)) (jumped c (get_or mem c.p 0) v (ground arith))
  ]

  after_round-Returns :
      (fuel len : ℕ) (r : Outcome Round)
      → IsGood len r
      → ((d : Cursor) → Inv d → len < d.len → Returns start stop (rounds mem sp total_len fuel d))
      → Returns start stop (
          r >>= λ x. elim x [
            | return result s ↦ ok (result, s)
            | continue d ↦ rounds mem sp total_len fuel d
          ])
  after_round-Returns fuel len (ok (return none s)) g k = tt
  after_round-Returns fuel len (ok (return (some r) s)) g k = g
  after_round-Returns fuel len (ok (continue d)) g k = k d g.0 g.1
  after_round-Returns fuel len (throw e) g k = elim g [ ]
  after_round-Returns fuel len fault g k = elim g [ ]

  rounds-Returns :
      (fuel : ℕ) (c : Cursor)
      → 0 < fuel
      → max_len < fuel + c.len
      → Inv c
      → Returns start stop (rounds mem sp total_len fuel c)
  unfolding rounds
  rounds-Returns zero c z h v = absurd (omega arith)
  rounds-Returns (suc fuel) c z h v = elim (Bool-cases (ltb c.len max_len)) [
    | inl e ↦
        rw (e, rounds)
          (after_round-Returns fuel c.len (round mem sp total_len c) (round-IsGood c v)
            (λ d w l. rounds-Returns fuel d (ground arith) (omega arith) w))
    | inr e ↦ rw (e, rounds) tt
  ]

-- Over a buffer that holds the region given and the message from `sp`, `parse_label` reads no byte
-- outside of the buffer, ends, and returns NULL or a pointer past the one it was given and no
-- further than the end of the region, wherever the message's pointers lead it.
pub parse_label-Returns :
    (mem : Bytes) (p remain sp total_len : ℕ) (s : Bool)
    → p + remain ≤ length mem
    → sp + total_len ≤ length mem
    → Returns p (p + remain) (parse_label mem sp total_len p remain s)
unfolding parse_label
parse_label-Returns mem p remain sp total_len s h k =
    rounds-Returns mem sp total_len p (p + remain) k _ _ (omega arith) (omega arith)
      (record { readable = h; back = (omega arith, omega arith) })
