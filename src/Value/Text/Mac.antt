-- ===== src/Value/Text/Mac.antt =====
-- `Value::mac`: the text of a hardware address reads back as its six bytes.
use packetmachine.Base.{
  ℕ, zero, suc, ◌+◌, ◌-◌, ◌*◌, ◌/◌, ◌%◌, ◌≤◌, ◌<◌, ◌≡◌, ◌∙◌, refl, ap, true, false, some, [], ◌∷◌,
  ◌++◌, arith, ltb, if◌then◌else◌, length, take, drop, ok, Bytes, drop-eq-cons, take-length,
}
use packetmachine.Value.{Value, is_mac}
use packetmachine.Value.View.{shown, IsReadable, deref-shown}
use packetmachine.Value.Numbers.{AreBytes}
use packetmachine.Value.Text.{hex_digit, hex2, mac_from, mac}

-- The text of the bytes from index `i` on.
abbrev mac_text : ℕ → Bytes → Bytes
mac_text i [] = []
mac_text i (b ∷ bs) = hex2 b ++ ((if ltb i 5 then b':' ∷ [] else []) ++ mac_text (suc i) bs)

mac_from_lem :
    (mem : Bytes) (v : Value) (n i : ℕ)
    → IsReadable mem v
    → i + n ≤ v.len
    → mac_from mem v i n ≡ ok (mac_text i (take n (drop i (shown mem v))))
unfolding mac_from
mac_from_lem mem v zero i r h = refl
mac_from_lem mem v (suc n) i r h = rw (
  deref-shown mem v i r (omega arith),
  mac_from_lem mem v n (suc i) r (omega arith),
  drop-eq-cons (shown mem v) i 0 (omega arith),
)

-- The value of a lower-case hexadecimal digit.
abbrev pub unhex : ℕ → ℕ
unhex c = if ltb c b'a' then c - b'0' else c - b'a' + 10

-- The bytes of a text of pairs of digits, any one character between two of them.
abbrev pub parse_pairs : Bytes → Bytes
parse_pairs [] = []
parse_pairs (h ∷ []) = []
parse_pairs (h ∷ l ∷ []) = (unhex h * 16 + unhex l) ∷ []
parse_pairs (h ∷ l ∷ sep ∷ rest) = (unhex h * 16 + unhex l) ∷ parse_pairs rest

unhex-hex2 : (b : ℕ) → b < 256 → unhex (hex_digit (b / 16)) * 16 + unhex (hex_digit (b % 16)) ≡ b
unhex-hex2 b h = ground arith

mac_text-reads :
    (i b : ℕ) (bs : Bytes)
    → i + suc (length bs) ≡ 6
    → AreBytes (b ∷ bs)
    → (parse_pairs (mac_text i (b ∷ bs)) ≡ b ∷ bs) × (length (mac_text i (b ∷ bs)) + 3 * i + 1 ≡ 18)
mac_text-reads i b [] e h =
    let end : ltb i 5 ≡ false = ground arith in
    rw end (ap (λ k. k ∷ []) (unhex-hex2 b h.0), omega arith)
mac_text-reads i b (c ∷ cs) e h =
    let inner : ltb i 5 ≡ true = ground arith in
    let (parses, long) = mac_text-reads (suc i) c cs (omega arith) h.1 in
    rw inner (
      ap (λ k. k ∷ parse_pairs (mac_text (suc i) (c ∷ cs))) (unhex-hex2 b h.0) ∙ ap (◌∷◌ b) parses,
      omega arith,
    )

text-reads :
    (bs : Bytes)
    → length bs ≡ 6
    → AreBytes bs
    → (parse_pairs (mac_text 0 bs) ≡ bs) × (length (mac_text 0 bs) ≡ 17)
text-reads [] e h = absurd (omega arith)
text-reads (b ∷ bs) e h =
    let (parses, long) = mac_text-reads 0 b bs (omega arith) h in (parses, omega arith)

-- For an active value of six readable bytes, `mac` prints a text of 17 characters that reads back
-- as those bytes, pair by pair.
pub mac_lem :
    (mem : Bytes) (v : Value)
    → IsReadable mem v
    → AreBytes (shown mem v)
    → is_mac v ≡ true
    → (text : Bytes) × (mac mem v ≡ ok (some text))
      × (parse_pairs text ≡ shown mem v)
      × (length text ≡ 17)
unfolding mac
mac_lem mem v r h u =
    let e : v.len ≡ 6 = ground arith in
    let (parses, long) = text-reads (shown mem v) (r ∙ e) h in
    (
      mac_text 0 (shown mem v),
      rw (u, mac_from_lem mem v 6 0 r (omega arith), take-length (shown mem v) 6 (omega arith)),
      parses,
      long,
    )
