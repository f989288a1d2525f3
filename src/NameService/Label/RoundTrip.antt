-- ===== src/NameService/Label/RoundTrip.antt =====
-- `parse_label` reads the wire format of a domain name, with its compression pointers.
use mathlib.Core.List.{append_assoc, append-nil}
use packetmachine.Base.{
  ℕ, zero, suc, ◌+◌, ◌-◌, ◌*◌, ◌≤◌, ◌<◌, ◌≡◌, ◌∙◌, refl, true, false, Option, none, some, List, [],
  ◌∷◌, ◌++◌, arith, ltb, leb, ◌==◌, lt→ltb, length, ok, Bytes, load, load_slice,
}
use packetmachine.NameService.Label.{
  max_len, Cursor, is_jump, jump_to, or_else, jump_by, jump, append, return, continue, advance,
  label, after_jump, round, rounds, parse_label,
}

-- The text of a name: each label with a dot behind it.
abbrev pub text : List Bytes → Bytes
text [] = []
text (l ∷ ls) = (l ++ (b'.' ∷ [])) ++ text ls

-- How many bytes the labels have.
abbrev pub size : List Bytes → ℕ
size [] = 0
size (l ∷ ls) = length l + size ls

module _ (mem : Bytes) (sp total_len : ℕ) where
  -- A label of 1 to 63 bytes stands at `p`, and more of the name before `limit`.
  pub record LabelAt (limit p : ℕ) (l : Bytes) : Type 0 where
    pub counted : load mem p ≡ ok (length l)
    pub bytes : load_slice mem (p + 1) (length l) ≡ ok l
    pub long : 0 < length l
    pub short : length l < 64
    pub fits : p + (length l + 1) < limit

  -- A pointer to `target` stands at `p` before `limit`.
  pub record PointerAt (limit p target : ℕ) : Type 0 where
    pub first : ℕ
    pub second : ℕ
    pub marked : is_jump first ≡ true
    pub first_at : load mem p ≡ ok first
    pub second_at : load mem (p + 1) ≡ ok second
    pub fits : p + 2 ≤ limit
    pub within : jump_to (first * 256 + second) < total_len
    pub leads : target ≡ sp + jump_to (first * 256 + second)

  -- A name with these labels stands at `p` and ends before `q`: labels, then the byte 0, or a
  -- pointer to labels or the byte 0, in the region before `limit`.
  pub data Name : ℕ → ℕ → List Bytes → ℕ → Type 0 where
    stop : {limit p q : ℕ} → p < limit → load mem p ≡ ok 0 → q ≡ p + 1 → Name limit p [] q
    more :
        {limit p q : ℕ} {l : Bytes} {ls : List Bytes}
        → LabelAt limit p l
        → Name limit (p + (length l + 1)) ls q
        → Name limit p (l ∷ ls) q
    jump_stop :
        {limit p q : ℕ} (target : ℕ)
        → PointerAt limit p target
        → load mem target ≡ ok 0
        → q ≡ p + 2
        → Name limit p [] q
    jump_more :
        {limit p q : ℕ} {l : Bytes} {ls : List Bytes} (target r : ℕ)
        → PointerAt limit p target
        → LabelAt (sp + total_len) target l
        → Name (sp + total_len) (target + (length l + 1)) ls r
        → q ≡ p + 2
        → Name limit p (l ∷ ls) q

  abbrev cursor : ℕ → ℕ → Option ℕ → ℕ → Bytes → Cursor
  cursor p remain rp len s = record { p = p; remain = remain; rp = rp; len = len; s = some s }

  label_lem :
      (limit p remain len : ℕ) (rp : Option ℕ) (s l : Bytes)
      → LabelAt limit p l
      → p + remain ≡ limit
      → label mem sp total_len (cursor p remain rp len s) (length l)
        ≡ ok (
            continue (
              cursor
                (p + (length l + 1))
                (remain - (length l + 1))
                rp
                (len + length l)
                (s ++ (l ++ (b'.' ∷ [])))))
  unfolding label advance append
  label_lem limit p remain len rp s l a e =
      let ne : (length l == 0) ≡ false = ground (arith, a.long) in
      let enough : leb remain (length l + 1) ≡ false = ground (arith, a.fits) in
      rw (ne, enough, a.bytes)

  round_more :
      (limit p remain len : ℕ) (rp : Option ℕ) (s l : Bytes)
      → LabelAt limit p l
      → p + remain ≡ limit
      → round mem sp total_len (cursor p remain rp len s)
        ≡ ok (
            continue (
              cursor
                (p + (length l + 1))
                (remain - (length l + 1))
                rp
                (len + length l)
                (s ++ (l ++ (b'.' ∷ [])))))
  unfolding round jump after_jump
  round_more limit p remain len rp s l a e =
      let some_left : ltb remain 1 ≡ false = ground (arith, a.fits) in
      let plain : is_jump (length l) ≡ false = ground (arith, a.short) in
      rw (some_left, a.counted, plain, a.counted) (label_lem limit p remain len rp s l a e)

  round_stop :
      (p remain len : ℕ) (rp : Option ℕ) (s : Bytes)
      → 0 < remain
      → load mem p ≡ ok 0
      → round mem sp total_len (cursor p remain rp len s)
        ≡ ok (return (some (or_else rp (p + 1))) (some s))
  unfolding round jump after_jump label
  round_stop p remain len rp s h z =
      let some_left : ltb remain 1 ≡ false = ground arith in rw (some_left, z, z)

  -- The cursor behind a jump.
  jump_lem :
      (limit p remain len target : ℕ) (rp : Option ℕ) (s : Bytes) (a : PointerAt limit p target)
      → p + remain ≡ limit
      → round mem sp total_len (cursor p remain rp len s)
        ≡ after_jump mem sp total_len (cursor p remain rp len s) (
            some (
              cursor target
                (total_len - jump_to (a.first * 256 + a.second))
                (some (or_else rp (p + 2)))
                len
                s))
  unfolding round jump jump_by
  jump_lem limit p remain len target rp s a e =
      let some_left : ltb remain 1 ≡ false = ground (arith, a.fits) in
      let two_left : ltb remain 2 ≡ false = ground (arith, a.fits) in
      let inner : leb total_len (jump_to (a.first * 256 + a.second)) ≡ false =
        ground (arith, a.within) in
      rw (some_left, a.first_at, a.marked, two_left, a.second_at, inner, ← a.leads)

  after_jump_stop :
      (c : Cursor) (p remain len : ℕ) (rp : Option ℕ) (s : Bytes)
      → load mem p ≡ ok 0
      → after_jump mem sp total_len c (some (cursor p remain rp len s))
        ≡ ok (return (some (or_else rp (p + 1))) (some s))
  unfolding after_jump label
  after_jump_stop c p remain len rp s z = rw z

  after_jump_more :
      (c : Cursor) (limit p remain len : ℕ) (rp : Option ℕ) (s l : Bytes)
      → LabelAt limit p l
      → p + remain ≡ limit
      → after_jump mem sp total_len c (some (cursor p remain rp len s))
        ≡ ok (
            continue (
              cursor
                (p + (length l + 1))
                (remain - (length l + 1))
                rp
                (len + length l)
                (s ++ (l ++ (b'.' ∷ [])))))
  unfolding after_jump
  after_jump_more c limit p remain len rp s l a e =
      rw a.counted (label_lem limit p remain len rp s l a e)

  rounds_return :
      (fuel : ℕ) (c : Cursor) (result : Option ℕ) (s : Option Bytes)
      → c.len < max_len
      → round mem sp total_len c ≡ ok (return result s)
      → rounds mem sp total_len (suc fuel) c ≡ ok (result, s)
  unfolding rounds
  rounds_return fuel c result s h e = rw (lt→ltb c.len max_len h, rounds, e)

  rounds_continue :
      (fuel : ℕ) (c d : Cursor)
      → c.len < max_len
      → round mem sp total_len c ≡ ok (continue d)
      → rounds mem sp total_len (suc fuel) c ≡ rounds mem sp total_len fuel d
  unfolding rounds
  rounds_continue fuel c d h e = rw (lt→ltb c.len max_len h, rounds, e)

  -- The loop from a cursor at a name.
  rounds-Name :
      (fuel len remain : ℕ) (rp : Option ℕ) (s : Bytes) {limit p q : ℕ} {ls : List Bytes}
      → Name limit p ls q
      → p + remain ≡ limit
      → len + size ls < max_len
      → max_len < fuel + len
      → rounds mem sp total_len fuel (cursor p remain rp len s)
        ≡ ok (some (or_else rp q), some (s ++ text ls))
  rounds-Name zero len remain rp s n e h f = absurd (omega arith)
  rounds-Name (suc fuel) len remain rp s (stop {p = p} {q = q} w z e') e h f =
      rounds_return fuel _ _ _ (omega arith) (round_stop p remain len rp s (omega arith) z)
      ∙ rw (e', append-nil)
  rounds-Name (suc fuel) len remain rp s (more {limit = limit} {p = p} {l = l} {ls = ls} a n) e h
        f =
      rounds_continue fuel _ _ (omega arith) (round_more limit p remain len rp s l a e)
      ∙ rounds-Name fuel (len + length l) (remain - (length l + 1)) rp (s ++ (l ++ (b'.' ∷ []))) n
          (omega (arith, a.fits)) (omega arith) (omega (arith, a.long))
      ∙ simp append_assoc
  rounds-Name (suc fuel) len remain rp s (jump_stop {limit = limit} {p = p} {q = q} target a z e') e
        h f =
      rounds_return fuel _ _ _ (omega arith)
        (jump_lem limit p remain len target rp s a e ∙ after_jump_stop _ target _ len _ s z)
      ∙ rw (e', append-nil)
  rounds-Name (suc fuel) len remain rp s
        (jump_more {limit = limit} {p = p} {l = l} {ls = ls} target r a b n e') e h f =
      rounds_continue fuel _ _ (omega arith) (
        jump_lem limit p remain len target rp s a e
        ∙ after_jump_more _ (sp + total_len) target _ len _ s l b
            (omega (arith, a.within, a.leads)))
      ∙ rounds-Name fuel (len + length l) _ _ (s ++ (l ++ (b'.' ∷ []))) n
          (omega (arith, a.within, a.leads, b.fits)) (omega arith) (omega (arith, b.long))
      ∙ rw e' (simp append_assoc)

-- Where the wire format of a name stands in the region given, with fewer than 256 bytes in its
-- labels, `parse_label` returns the pointer behind the name and writes the labels, each with a dot
-- behind it. The name may lead through any number of compression pointers, as long as none points
-- to another.
pub parse_label-Name :
    (mem : Bytes) (p remain sp total_len q : ℕ) (ls : List Bytes)
    → Name mem sp total_len (p + remain) p ls q
    → size ls < max_len
    → parse_label mem sp total_len p remain true ≡ ok (some q, some (text ls))
unfolding parse_label
parse_label-Name mem p remain sp total_len q ls n h =
    rounds-Name mem sp total_len _ 0 remain none [] n refl (omega arith) (omega arith)
