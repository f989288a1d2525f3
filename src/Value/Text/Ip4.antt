-- ===== src/Value/Text/Ip4.antt =====
-- `Value::ip4` and `Value::repr`: what they print, and that the text fits `addr`.
use mathlib.Core.List.{append-nil, append_assoc}
use mathlib.Core.Path.{sym}
use packetmachine.Base.{
  ℕ, zero, suc, ◌+◌, ◌-◌, ◌*◌, ◌/◌, ◌%◌, ◌≤◌, ◌<◌, ◌≡◌, ◌⊎◌, ltb, ◌&&◌, ◌∙◌, refl, ap, inl, inr,
  true, some, [], ◌∷◌, ◌++◌, map, arith, leb, ◌==◌, if◌then◌else◌, length, take, drop, ok, Bytes,
  Bool-cases, drop-eq-cons, length-append, take-length,
}
use packetmachine.Value.{Value, is_ip4}
use packetmachine.Value.View.{shown, IsReadable, deref-shown}
use packetmachine.Value.Numbers.{AreBytes}
use packetmachine.Value.Text.{
  printable, repr_from, repr, digits, octet, octets_from, drop_last, ip4,
}

-- INET_ADDRSTRLEN, the size of `addr`
abbrev pub addr_size : ℕ
addr_size = 16

abbrev octets : Bytes → Bytes
octets [] = []
octets (b ∷ bs) = octet b ++ octets bs

module _ (mem : Bytes) (v : Value) (r : IsReadable mem v) where
  octets_from_lem :
      (n i : ℕ)
      → i + n ≤ v.len
      → octets_from mem v i n ≡ ok (octets (take n (drop i (shown mem v))))
  unfolding octets_from
  octets_from_lem zero i h = refl
  octets_from_lem (suc n) i h = rw (
    deref-shown mem v i r (omega arith),
    octets_from_lem n (suc i) (omega arith),
    drop-eq-cons (shown mem v) i 0 (omega arith),
  )

  repr_from_lem :
      (n i : ℕ)
      → i + n ≤ v.len
      → repr_from mem v i n ≡ ok (map printable (take n (drop i (shown mem v))))
  unfolding repr_from
  repr_from_lem zero i h = refl
  repr_from_lem (suc n) i h = rw (
    deref-shown mem v i r (omega arith),
    repr_from_lem n (suc i) (omega arith),
    drop-eq-cons (shown mem v) i 0 (omega arith),
  )

-- The numbers of a dotted decimal text, read digit by digit.
pub parse_dotted : ℕ → Bytes → Bytes
parse_dotted acc [] = acc ∷ []
parse_dotted acc (c ∷ cs) =
    let next = acc ∷ parse_dotted 0 cs in
    let more = parse_dotted (acc * 10 + (c - b'0')) cs in if c == b'.' then next else more

parse_dotted-digit :
    (acc d : ℕ) (cs : Bytes) → parse_dotted acc ((d + b'0') ∷ cs) ≡ parse_dotted (acc * 10 + d) cs
unfolding parse_dotted
parse_dotted-digit acc d cs =
    ground
      (arith, ap (λ k. parse_dotted (acc * 10 + k) cs) {x = d + b'0' - b'0'} {y = d} (omega arith))

parse_three :
    (a b c n : ℕ) (cs : Bytes)
    → (a * 10 + b) * 10 + c ≡ n
    → parse_dotted 0 ((a + b'0') ∷ (b + b'0') ∷ (c + b'0') ∷ cs) ≡ parse_dotted n cs
parse_three a b c n cs e = simp parse_dotted-digit (ap (λ k. parse_dotted k cs) (omega arith))

parse_two :
    (b c n : ℕ) (cs : Bytes)
    → b * 10 + c ≡ n
    → parse_dotted 0 ((b + b'0') ∷ (c + b'0') ∷ cs) ≡ parse_dotted n cs
parse_two b c n cs e = simp parse_dotted-digit (ap (λ k. parse_dotted k cs) (omega arith))

parse_dotted-digits :
    (n : ℕ) (cs : Bytes) → n < 256 → parse_dotted 0 (digits n ++ cs) ≡ parse_dotted n cs
parse_dotted-digits n cs h = elim (Bool-cases (leb 100 n)) [
  | inl big ↦
      let two : leb 10 n ≡ true = ground arith in
      rw (big, two) (parse_three (n / 100) (n / 10 % 10) (n % 10) n cs (omega arith))
  | inr small ↦ rw small (elim (Bool-cases (leb 10 n)) [
    | inl two ↦ rw two (parse_two (n / 10 % 10) (n % 10) n cs (ground arith))
    | inr one ↦
        rw one (parse_dotted-digit 0 (n % 10) cs ∙ ap (λ k. parse_dotted k cs) (ground arith))
  ])
]

drop_last-append : (xs : Bytes) (c : ℕ) → drop_last (xs ++ (c ∷ [])) ≡ xs
unfolding drop_last
drop_last-append [] c = refl
drop_last-append (x ∷ []) c = refl
drop_last-append (x ∷ y ∷ xs) c = ap (◌∷◌ x) (drop_last-append (y ∷ xs) c)

abbrev dotted : ℕ → ℕ → ℕ → ℕ → Bytes
dotted a b c d = digits a ++ (b'.' ∷ (digits b ++ (b'.' ∷ (digits c ++ (b'.' ∷ digits d)))))

octets-dotted : (a b c d : ℕ) → drop_last (octets (a ∷ b ∷ c ∷ d ∷ [])) ≡ dotted a b c d
octets-dotted a b c d =
    ap drop_last {x = octets (a ∷ b ∷ c ∷ d ∷ [])} {y = dotted a b c d ++ (b'.' ∷ [])}
      (simp (append_assoc, append-nil))
    ∙ drop_last-append (dotted a b c d) b'.'

length-digits : (n : ℕ) → length (digits n) ≤ 3
length-digits n = ground arith

parse_dotted_dot : (acc : ℕ) (cs : Bytes) → parse_dotted acc (b'.' ∷ cs) ≡ acc ∷ parse_dotted 0 cs
unfolding parse_dotted
parse_dotted_dot acc cs = refl

next_number :
    (n : ℕ) (cs : Bytes)
    → n < 256
    → parse_dotted 0 (digits n ++ (b'.' ∷ cs)) ≡ n ∷ parse_dotted 0 cs
next_number n cs h = parse_dotted-digits n (b'.' ∷ cs) h ∙ parse_dotted_dot n cs

last_number : (n : ℕ) → n < 256 → parse_dotted 0 (digits n) ≡ n ∷ []
unfolding parse_dotted
last_number n h = ap (parse_dotted 0) (sym (append-nil (digits n))) ∙ parse_dotted-digits n [] h

parse_dotted-dotted :
    (a b c d : ℕ)
    → a < 256
    → b < 256
    → c < 256
    → d < 256
    → parse_dotted 0 (dotted a b c d) ≡ a ∷ b ∷ c ∷ d ∷ []
parse_dotted-dotted a b c d ha hb hc hd =
    next_number a _ ha
    ∙ ap (◌∷◌ a)
        (next_number b _ hb ∙ ap (◌∷◌ b) (next_number c _ hc ∙ ap (◌∷◌ c) (last_number d hd)))

length_after : (n : ℕ) (xs : Bytes) → length (digits n ++ xs) ≤ length xs + 3
length_after n xs = omega (arith, length-append (digits n) xs, length-digits n)

length-dotted : (a b c d : ℕ) → suc (length (dotted a b c d)) ≤ addr_size
length-dotted a b c d =
    let d0 = length-digits d in
    let c0 = length_after c (b'.' ∷ digits d) in
    let b0 = length_after b (b'.' ∷ (digits c ++ (b'.' ∷ digits d))) in
    let a0 = length_after a (b'.' ∷ (digits b ++ (b'.' ∷ (digits c ++ (b'.' ∷ digits d))))) in
    omega (arith, a0, b0, c0, d0)

octets-readable :
    (xs : Bytes)
    → length xs ≡ 4
    → AreBytes xs
    → (parse_dotted 0 (drop_last (octets xs)) ≡ xs)
      × (suc (length (drop_last (octets xs))) ≤ addr_size)
octets-readable (a ∷ b ∷ c ∷ d ∷ []) l (ha, (hb, (hc, (hd, u)))) =
    rw octets-dotted (parse_dotted-dotted a b c d ha hb hc hd, length-dotted a b c d)
octets-readable _ l h = absurd (omega arith)

-- For an active value of four readable bytes, `ip4` prints a text that reads back as those bytes,
-- number by number, and that fits `addr` with its end mark.
pub ip4_lem :
    (mem : Bytes) (v : Value)
    → IsReadable mem v
    → AreBytes (shown mem v)
    → is_ip4 v ≡ true
    → (text : Bytes) × (ip4 mem v ≡ ok (some text))
      × (parse_dotted 0 text ≡ shown mem v)
      × (suc (length text) ≤ addr_size)
unfolding ip4
ip4_lem mem v r h u =
    let e : v.len ≡ 4 = ground arith in
    let (parses, fits) = octets-readable (shown mem v) (r ∙ e) h in
    (
      drop_last (octets (shown mem v)),
      rw (u, octets_from_lem mem v r 4 0 (omega arith), take-length (shown mem v) 4 (omega arith)),
      parses,
      fits,
    )

-- A byte and the character that stands for it: from the space to the tilde the byte itself, and
-- else a dot.
abbrev pub IsShownAs : ℕ → ℕ → Type 0
IsShownAs b c = ((32 ≤ b) × (b ≤ 126) × (c ≡ b)) ⊎ (((b < 32) ⊎ (126 < b)) × (c ≡ 46))

-- Two lists of one length, related place by place.
abbrev pub Shows : (ℕ → ℕ → Type 0) → Bytes → Bytes → Type 0
Shows R [] [] = Unit
Shows R [] (c ∷ cs) = ⊥
Shows R (b ∷ bs) [] = ⊥
Shows R (b ∷ bs) (c ∷ cs) = R b c × Shows R bs cs

printable-IsShownAs : (b : ℕ) → IsShownAs b (printable b)
printable-IsShownAs b = elim (Bool-cases (leb 32 b && ltb b 127)) [
  | inl e ↦ rw e (inl (ground (arith, e), ground (arith, e), refl))
  | inr e ↦ rw e (inr (ground (arith, e), refl))
]

printable-Shows : (bs : Bytes) → Shows IsShownAs bs (map printable bs)
printable-Shows [] = tt
printable-Shows (b ∷ bs) = (printable-IsShownAs b, printable-Shows bs)

-- `repr` of a readable, active value prints one character for each byte: the byte itself where it
-- lies between the space and the tilde, and a dot where it does not.
pub repr_lem :
    (mem : Bytes) (v : Value)
    → IsReadable mem v
    → v.active ≡ true
    → (text : Bytes) × (repr mem v ≡ ok text) × Shows IsShownAs (shown mem v) text
unfolding repr
repr_lem mem v r a = (
  map printable (shown mem v),
  ap (λ b. if b then repr_from mem v 0 v.len else ok []) a
      ∙ (repr_from_lem mem v r v.len 0 (omega arith)
          ∙ ap (λ l. ok (map printable l)) (take-length (shown mem v) v.len (omega arith))),
  printable-Shows (shown mem v),
)
