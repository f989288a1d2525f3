-- ===== src/Value/Text.antt =====
-- The printing of a value: `ip4`, `mac` and `repr` of src/value.cc. Text is a list of codes.
pub mod Ip4
pub mod Mac
use packetmachine.Base.{
  ℕ, zero, suc, ◌+◌, ◌-◌, ◌*◌, ◌/◌, ◌%◌, ◌≤◌, ◌<◌, ◌≡◌, ◌∙◌, refl, ap, inl, inr, Bool, true, false,
  ◌&&◌, Option, none, some, List, [], ◌∷◌, ◌++◌, map, arith, ltb, leb, ◌==◌, if◌then◌else◌, length,
  All, Outcome, ok, fault, ◌>>=◌, Bytes, Bool-cases,
}
use packetmachine.Value.{Value, deref, is_ip4, is_mac}
use packetmachine.Value.View.{shown, IsReadable, deref-shown}

-- `os << (isprint(c) ? static_cast<char>(c) : '.')`, in the C locale.
abbrev pub is_print : ℕ → Bool
is_print c = leb 32 c && ltb c 127

abbrev pub printable : ℕ → ℕ
printable c = if is_print c then c else b'.'

-- The loop of `repr` over the indices from `i`, with `n` left.
unfoldable pub repr_from : Bytes → Value → ℕ → ℕ → Outcome Bytes
repr_from mem v i zero = ok []
repr_from mem v i (suc n) = do
  c ← deref mem v i
  rest ← repr_from mem v (suc i) n
  ok (printable c ∷ rest)

unfoldable pub repr : Bytes → Value → Outcome Bytes
repr mem v = if v.active then repr_from mem v 0 v.len else ok []

-- What one round of the loop of `ip4` writes for the byte `n`: its digits, then a dot.
abbrev pub digits : ℕ → Bytes
digits n =
    (if leb 100 n then (n / 100 + b'0') ∷ [] else [])
    ++ ((if leb 10 n then (n / 10 % 10 + b'0') ∷ [] else []) ++ ((n % 10 + b'0') ∷ []))

abbrev pub octet : ℕ → Bytes
octet n = digits n ++ (b'.' ∷ [])

-- What the loop has written to `addr` from round `i`, with `n` rounds left.
unfoldable pub octets_from : Bytes → Value → ℕ → ℕ → Outcome Bytes
octets_from mem v i zero = ok []
octets_from mem v i (suc n) = do
  c ← deref mem v i
  rest ← octets_from mem v (suc i) n
  ok (octet c ++ rest)

-- `p[-1] = '\0'` writes over the last character.
unfoldable pub drop_last : Bytes → Bytes
drop_last [] = []
drop_last (c ∷ []) = []
drop_last (c ∷ d ∷ cs) = c ∷ drop_last (d ∷ cs)

-- `bool ip4(std::ostream &os)`: the text that `addr` holds up to its end mark, or none for false.
unfoldable pub ip4 : Bytes → Value → Outcome (Option Bytes)
ip4 mem v =
    if is_ip4 v then (do addr ← octets_from mem v 0 4; ok (some (drop_last addr))) else ok none

abbrev pub hex_digit : ℕ → ℕ
hex_digit d = if ltb d 10 then d + b'0' else d - 10 + b'a'

-- `std::hex << std::setw(2) << std::setfill('0')`
abbrev pub hex2 : ℕ → Bytes
hex2 n = hex_digit (n / 16) ∷ hex_digit (n % 16) ∷ []

unfoldable pub mac_from : Bytes → Value → ℕ → ℕ → Outcome Bytes
mac_from mem v i zero = ok []
mac_from mem v i (suc n) = do
  c ← deref mem v i
  rest ← mac_from mem v (suc i) n
  ok (hex2 c ++ ((if ltb i 5 then b':' ∷ [] else []) ++ rest))

-- `bool mac(std::ostream &os)`
unfoldable pub mac : Bytes → Value → Outcome (Option Bytes)
mac mem v = if is_mac v then (do s ← mac_from mem v 0 6; ok (some s)) else ok none
