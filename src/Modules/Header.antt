-- ===== src/Modules/Header.antt =====
-- What the decode modules share: their result, and the test of the header that they retain.
use packetmachine.Base.{ℕ, Option, none, some, Outcome, ok, ◌>>=◌}
use packetmachine.Payload.{Payload}
use packetmachine.Payload
use packetmachine.Property.{Property}

-- The id of the next module, none for `Module::NONE`, with the changed payload and property.
abbrev pub Decoded : Type 0 → Type 0
Decoded Buf = Option ℕ × Payload × Property Buf

module _ {Buf : Type 0} where
  -- if (hdr == nullptr) return Module::NONE;
  abbrev pub or_stop :
      Property Buf
      → (ℕ → Payload → Outcome (Decoded Buf))
      → Option ℕ × Payload
      → Outcome (Decoded Buf)
  or_stop prop body (none, pd) = ok (none, pd, prop)
  or_stop prop body (some hdr, pd) = body hdr pd

  abbrev pub retain_or_stop :
      Payload → Property Buf → ℕ → (ℕ → Payload → Outcome (Decoded Buf)) → Outcome (Decoded Buf)
  retain_or_stop pd prop size body = Payload.retain pd size >>= or_stop prop body
