-- ===== src/Tests/Views.antt =====
-- Packets, cursors and values over a small Ethernet frame.
use packetmachine.Base.{
  suc, ◌≡◌, ◌<◌, ◌⊎◌, false, ◌≤◌, refl, inl, inr, true, none, some, [], ◌∷◌, arith, ok, length,
  Bytes,
}
use packetmachine.Packet.{Packet, Timeval, store}
use packetmachine.Packet.Store.{Stores, store-Stores}
use packetmachine.Payload.{Payload, retain_from, shrink}
use packetmachine.Payload.Bounds.{IsValid, Retains, retain-Retains, shrink-IsValid}
use packetmachine.Value.{Value, Endian, little, big, packet, cpy}
use packetmachine.Value
use packetmachine.Value.View.{shown, IsReadable, IsOwner, shown-cpy}
use packetmachine.Value.Numbers.{uint64, uint64_lem, number}
use packetmachine.Value.RoundTrip.{uint64-cpy}
use packetmachine.Value.Text.{printable, ip4, mac, repr}
use packetmachine.Value.Text.Ip4.{parse_dotted, addr_size, ip4_lem, repr_lem, IsShownAs, Shows}
use packetmachine.Value.Text.Mac.{parse_pairs, mac_lem}

abbrev now : Timeval
now = record { tv_sec = 1; tv_usec = 5 }

abbrev frame : Bytes
frame = 10 ∷ 0 ∷ 200 ∷ 255 ∷ 65 ∷ 7 ∷ 8 ∷ 0 ∷ []

-- A packet that holds eight bytes, of which three are in use.
abbrev old : Packet
old = record { len = 3; cap_len = 3; buf_len = 8; buf = some frame; tv = now }

abbrev cursor : Payload
cursor = record { pkt = some old; ptr = 2; end = 8; length = 6 }

cursor-IsValid : IsValid 8 cursor
cursor-IsValid = record { remains = omega arith; inside = omega arith }

-- An address in the first four bytes, and the six bytes from the third.
abbrev ip : Value
ip = record { active = true; ptr = packet 0; len = 4; buf = []; buf_len = 0; endian = big }

abbrev hw : Value
hw = record { active = true; ptr = packet 2; len = 6; buf = []; buf_len = 0; endian = big }

store_reuses : (store old none (1 ∷ 2 ∷ [])).0.len ≡ 2
unfolding store
store_reuses = refl

retain_past_end : (retain_from cursor 7).0 ≡ none
unfolding retain_from
retain_past_end = refl

ip4_text :
    ip4 frame ip
    ≡ ok (
        some
          (b'1' ∷ b'0' ∷ b'.' ∷ b'0' ∷ b'.' ∷ b'2' ∷ b'0' ∷ b'0' ∷ b'.' ∷ b'2' ∷ b'5' ∷ b'5' ∷ []))
unfolding ip4 packetmachine.Value.Text.octets_from packetmachine.Value.deref
    packetmachine.Value.Text.drop_last
ip4_text = refl

store-Stores_example : Stores old (1 ∷ 2 ∷ []) (store old none (1 ∷ 2 ∷ []))
store-Stores_example = store-Stores old none (1 ∷ 2 ∷ []) refl tt

retain-Retains_example : Retains 8 cursor 4 (retain_from cursor 4)
retain-Retains_example = retain-Retains 8 cursor 4 cursor-IsValid

shrink-IsValid_example :
    let (done, q) = shrink cursor 4 in
    (((4 ≤ 6) × (done ≡ true) × (q.length ≡ 4)) ⊎ ((6 < 4) × (done ≡ false) × (q.length ≡ 6)))
    × (q.ptr ≡ 2)
    × (q.end ≡ cursor.end)
    × (q.pkt ≡ cursor.pkt)
    × IsValid 8 q
shrink-IsValid_example = shrink-IsValid 8 cursor 4 cursor-IsValid

shown-cpy_example :
    (shown frame (cpy ip (1 ∷ 2 ∷ []) little) ≡ 1 ∷ 2 ∷ [])
    × IsReadable frame (cpy ip (1 ∷ 2 ∷ []) little)
    × IsOwner (cpy ip (1 ∷ 2 ∷ []) little)
shown-cpy_example = shown-cpy frame ip (1 ∷ 2 ∷ []) little refl

uint64_lem_example : uint64 frame ip ≡ ok (some (number big (10 ∷ 0 ∷ 200 ∷ 255 ∷ [])))
uint64_lem_example = uint64_lem frame ip refl (omega arith)

uint64-cpy_example :
    (uint64 frame (cpy ip (7 ∷ 1 ∷ []) little) ≡ ok (some 263))
    × (uint64 frame (cpy ip (7 ∷ 1 ∷ []) big) ≡ ok (some 1793))
uint64-cpy_example = uint64-cpy frame ip 2 263 refl (inr (inl refl)) (omega arith)

ip4_lem_example :
    (text : Bytes) × (ip4 frame ip ≡ ok (some text))
    × (parse_dotted 0 text ≡ shown frame ip)
    × (suc (length text) ≤ addr_size)
ip4_lem_example = ip4_lem frame ip refl (omega arith) refl

repr_lem_example :
    (text : Bytes) × (repr frame hw ≡ ok text) × Shows IsShownAs (shown frame hw) text
repr_lem_example = repr_lem frame hw refl refl

mac_lem_example :
    (text : Bytes) × (mac frame hw ≡ ok (some text))
    × (parse_pairs text ≡ shown frame hw)
    × (length text ≡ 17)
mac_lem_example = mac_lem frame hw refl (omega arith) refl
