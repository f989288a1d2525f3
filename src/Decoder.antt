-- ===== src/Decoder.antt =====
-- `Decoder::decode` of src/decoder.cc: the loop over the decode modules.
pub mod Loop
pub mod Pipeline
pub mod Settings
pub mod Setup
use packetmachine.Base.{
  ℕ, zero, suc, Bool, true, false, Option, none, some, List, ltb, if◌then◌else◌, get_elem?, length,
  Outcome, ok, fault, or_fault, ◌>>=◌,
}
use packetmachine.Payload.{Payload}
use packetmachine.Property.{Property, push_event}
use packetmachine.Modules.Header.{Decoded}

-- `mod->decode(pd, prop)` over one packet.
abbrev pub Decode : Type 0 → Type 0
Decode Buf = Payload → Property Buf → Outcome (Decoded Buf)

-- What the loop reads of a decoder. An event is its number.
pub record Decoder (Buf : Type 0) : Type 0 where
  pub modules : List (Decode Buf)
  pub mod_event : List ℕ
  pub mod_ethernet : Option ℕ

-- `next == Module::NONE || (0 <= next && next < this->modules_.size())`
abbrev pub in_range : Option ℕ → ℕ → Bool
in_range none n = true
in_range (some i) n = ltb i n

module _ {Buf : Type 0} (d : Decoder Buf) where
  -- The body of the loop for the module `i`, with its assertion.
  unfoldable pub step : ℕ → Payload → Property Buf → Outcome (Decoded Buf)
  step i pd prop = do
    mod_decode ← or_fault (get_elem? d.modules i)
    ev ← or_fault (get_elem? d.mod_event i)
    r ← mod_decode pd (push_event prop ev)
    if in_range r.0 (length d.modules) then ok r else fault

  -- The loop on fuel. To run out of it is a fault, which Loop excludes.
  unfoldable pub run : ℕ → Option ℕ → Payload → Property Buf → Outcome (Payload × Property Buf)
  run fuel none pd prop = ok (pd, prop)
  run zero (some i) pd prop = fault
  run (suc fuel) (some i) pd prop = step i pd prop >>= λ r. run fuel r.0 r.1 r.2

  unfoldable pub decode : ℕ → Payload → Property Buf → Outcome (Payload × Property Buf)
  decode fuel pd prop = run fuel d.mod_ethernet pd prop
