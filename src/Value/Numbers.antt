-- ===== src/Value/Numbers.antt =====
-- The reading of a value as an unsigned number: `uint64` and `uint` of src/value.cc, on a
-- little-endian host.
use packetmachine.Base.{
  ℕ, zero, suc, ◌+◌, ◌*◌, ◌/◌, ◌%◌, ◌^◌, ◌≤◌, ◌<◌, ◌≡◌, ◌∙◌, refl, ap, inl, inr, true, ◌&&◌, Option,
  none, some, [], ◌∷◌, arith, ◌==◌, if◌then◌else◌, get_or, length, take, drop, All, Outcome, ok,
  fault, ◌>>=◌, Bytes, le_number, be_number, Bool-cases, drop-eq-cons, take-length,
}
use packetmachine.Value.{Value, Endian, little, big, deref, is_uint}
use packetmachine.Value.View.{shown, IsReadable, deref-shown}

-- `*(reinterpret_cast<const uintN_t*>(this->ptr_))`: `n` bytes from index `i`, least significant
-- first.
unfoldable pub load_le : Bytes → Value → ℕ → ℕ → Outcome ℕ
load_le mem v i zero = ok 0
load_le mem v i (suc n) = do b ← deref mem v i; rest ← load_le mem v (suc i) n; ok (b + 256 * rest)

-- `(x & (0xFF << 8 * k)) >> 8 * k`
abbrev pub byte_of : ℕ → ℕ → ℕ
byte_of x k = x / 2 ^ (8 * k) % 256

-- `ntohs`, `ntohl` and the masks and shifts for eight bytes. The bytes that the source joins by
-- `|` do not overlap, so they are added.
abbrev pub ntohs : ℕ → ℕ
ntohs x = byte_of x 0 * 2 ^ 8 + byte_of x 1

abbrev pub ntohl : ℕ → ℕ
ntohl x = byte_of x 0 * 2 ^ 24 + byte_of x 1 * 2 ^ 16 + byte_of x 2 * 2 ^ 8 + byte_of x 3

abbrev pub swap64 : ℕ → ℕ
swap64 x =
    byte_of x 7
    + byte_of x 6 * 2 ^ 8
    + byte_of x 5 * 2 ^ 16
    + byte_of x 4 * 2 ^ 24
    + byte_of x 3 * 2 ^ 32
    + byte_of x 2 * 2 ^ 40
    + byte_of x 1 * 2 ^ 48
    + byte_of x 0 * 2 ^ 56

abbrev pub to_host : Endian → (ℕ → ℕ) → ℕ → ℕ
to_host little swap x = x
to_host big swap x = swap x

-- The switch on the length. Its `default` is `assert(0)`.
unfoldable pub load_uint : Bytes → Value → Outcome ℕ
load_uint mem v =
    if v.len == 1
    then deref mem v 0
    else if v.len == 2
    then (do t ← load_le mem v 0 2; ok (to_host v.endian ntohs t))
    else if v.len == 4
    then (do t ← load_le mem v 0 4; ok (to_host v.endian ntohl t))
    else if v.len == 8
    then (do r ← load_le mem v 0 8; ok (to_host v.endian swap64 r))
    else fault

-- `bool uint64(uint64_t* d)`: the number written to `*d`, or none for the result false.
unfoldable pub uint64 : Bytes → Value → Outcome (Option ℕ)
uint64 mem v = if is_uint v then (do d ← load_uint mem v; ok (some d)) else ok none

-- `uint64_t uint64()`
unfoldable pub uint64_or_zero : Bytes → Value → Outcome ℕ
uint64_or_zero mem v =
    if v.active && is_uint v
    then (do d ← uint64 mem v; elim d [ some x ↦ ok x | none ↦ fault ])
    else ok 0

abbrev or_zero : Option ℕ → ℕ
or_zero (some x) = x % 2 ^ 32
or_zero none = 0

-- `unsigned int uint()`
unfoldable pub uint : Bytes → Value → Outcome ℕ
uint mem v = if v.active && is_uint v then (do d ← uint64 mem v; ok (or_zero d)) else ok 0

-- The number that bytes stand for in a byte order.
abbrev pub number : Endian → Bytes → ℕ
number little = le_number
number big = be_number

abbrev pub AreBytes : Bytes → Type 0
AreBytes = All (λ b. b < 256)

load_le_lem :
    (mem : Bytes) (v : Value) (n i : ℕ)
    → IsReadable mem v
    → i + n ≤ v.len
    → load_le mem v i n ≡ ok (le_number (take n (drop i (shown mem v))))
unfolding load_le
load_le_lem mem v zero i r h = refl
load_le_lem mem v (suc n) i r h = rw (
  deref-shown mem v i r (omega arith),
  load_le_lem mem v n (suc i) r (omega arith),
  drop-eq-cons (shown mem v) i 0 (omega arith),
)

load_all :
    (mem : Bytes) (v : Value) (n : ℕ)
    → IsReadable mem v
    → v.len ≡ n
    → load_le mem v 0 n ≡ ok (le_number (shown mem v))
load_all mem v n r e =
    load_le_lem mem v n 0 r (omega arith)
    ∙ ap (λ l. ok (le_number l)) (take-length (shown mem v) n (omega arith))

head-le_number : (xs : Bytes) → length xs ≡ 1 → get_or xs 0 0 ≡ le_number xs
head-le_number (a ∷ []) e = omega arith
head-le_number _ e = absurd (omega arith)

deref_first :
    (mem : Bytes) (v : Value)
    → IsReadable mem v
    → v.len ≡ 1
    → deref mem v 0 ≡ ok (le_number (shown mem v))
deref_first mem v r e =
    deref-shown mem v 0 r (omega arith) ∙ ap ok (head-le_number (shown mem v) (r ∙ e))

be_number-one : (xs : Bytes) → length xs ≡ 1 → le_number xs ≡ be_number xs
be_number-one (a ∷ []) e = omega arith
be_number-one _ e = absurd (omega arith)

ntohs-le_number : (xs : Bytes) → length xs ≡ 2 → AreBytes xs → ntohs (le_number xs) ≡ be_number xs
ntohs-le_number (a ∷ b ∷ []) e h = omega arith
ntohs-le_number _ e h = absurd (omega arith)

ntohl-bytes :
    (a b c d : ℕ)
    → a < 256
    → b < 256
    → c < 256
    → d < 256
    → ntohl (le_number (a ∷ b ∷ c ∷ d ∷ [])) ≡ be_number (a ∷ b ∷ c ∷ d ∷ [])
ntohl-bytes a b c d ha hb hc hd = omega arith

swap64-bytes :
    (a b c d e f g h : ℕ)
    → a < 256
    → b < 256
    → c < 256
    → d < 256
    → e < 256
    → f < 256
    → g < 256
    → h < 256
    → swap64 (le_number (a ∷ b ∷ c ∷ d ∷ e ∷ f ∷ g ∷ h ∷ []))
      ≡ be_number (a ∷ b ∷ c ∷ d ∷ e ∷ f ∷ g ∷ h ∷ [])
swap64-bytes a b c d e f g h ha hb hc hd he hf hg hh = omega arith

ntohl-le_number : (xs : Bytes) → length xs ≡ 4 → AreBytes xs → ntohl (le_number xs) ≡ be_number xs
ntohl-le_number (a ∷ b ∷ c ∷ d ∷ []) e (ha, (hb, (hc, (hd, u)))) = ntohl-bytes a b c d ha hb hc hd
ntohl-le_number _ e h = absurd (omega arith)

swap64-le_number : (xs : Bytes) → length xs ≡ 8 → AreBytes xs → swap64 (le_number xs) ≡ be_number xs
swap64-le_number (a ∷ b ∷ c ∷ d ∷ e ∷ f ∷ g ∷ h ∷ []) l (p, (q, (r, (s, (t, (u, (v, (w, z)))))))) =
    swap64-bytes a b c d e f g h p q r s t u v w
swap64-le_number _ l h = absurd (omega arith)

to_host_lem :
    (e : Endian) (swap : ℕ → ℕ) (xs : Bytes)
    → swap (le_number xs) ≡ be_number xs
    → to_host e swap (le_number xs) ≡ number e xs
to_host_lem little swap xs h = refl
to_host_lem big swap xs h = h

number-one : (e : Endian) (xs : Bytes) → length xs ≡ 1 → le_number xs ≡ number e xs
number-one little xs h = refl
number-one big xs h = be_number-one xs h

module _ (mem : Bytes) (v : Value) (r : IsReadable mem v) (h : AreBytes (shown mem v)) where
  load_swapped :
      (n : ℕ) (swap : ℕ → ℕ)
      → v.len ≡ n
      → swap (le_number (shown mem v)) ≡ be_number (shown mem v)
      → (load_le mem v 0 n >>= λ t. ok (to_host v.endian swap t))
        ≡ ok (number v.endian (shown mem v))
  load_swapped n swap e s =
      rw (load_all mem v n r e) (ap ok (to_host_lem v.endian swap (shown mem v) s))

  load_uint_lem : is_uint v ≡ true → load_uint mem v ≡ ok (number v.endian (shown mem v))
  unfolding load_uint
  load_uint_lem u = elim (Bool-cases (v.len == 1)) [
    | inl e ↦ rw e (
        deref_first mem v r (ground arith)
        ∙ ap ok (number-one v.endian (shown mem v) (ground arith)))
    | inr e1 ↦ elim (Bool-cases (v.len == 2)) [
      | inl e ↦
          rw (e1, e)
            (load_swapped 2 ntohs (ground arith) (ntohs-le_number (shown mem v) (ground arith) h))
      | inr e2 ↦ elim (Bool-cases (v.len == 4)) [
        | inl e ↦
            rw (e1, e2, e)
              (load_swapped 4 ntohl (ground arith) (ntohl-le_number (shown mem v) (ground arith) h))
        | inr e4 ↦ elim (Bool-cases (v.len == 8)) [
          | inl e ↦
              rw (e1, e2, e4, e)
                (load_swapped 8 swap64 (ground arith)
                  (swap64-le_number (shown mem v) (ground arith) h))
          | inr e8 ↦ ground arith
        ]
      ]
    ]
  ]

-- On a value whose bytes can all be read, `uint64` never faults: it returns false exactly when the
-- value is inactive or its length is not 1, 2, 4 or 8, and otherwise gives the number that its
-- bytes stand for in its byte order.
pub uint64_lem :
    (mem : Bytes) (v : Value)
    → IsReadable mem v
    → AreBytes (shown mem v)
    → uint64 mem v ≡ ok (if is_uint v then some (number v.endian (shown mem v)) else none)
unfolding uint64
uint64_lem mem v r h = elim (Bool-cases (is_uint v)) [
  | inl u ↦ rw (u, load_uint_lem mem v r h u)
  | inr u ↦ rw u
]
