-- ===== src/Tcp/Key.antt =====
-- `make_key` of TCP::Session in src/modules/tcp.cc: the key of a packet's session, which is that of
-- a packet in the other direction too.
use packetmachine.Base.{
  ==_iff, ℕ, ◌+◌, ◌≡◌, refl, sym, ap, Bool, true, false, ◌&&◌, ◌||◌, [], ◌∷◌, arith, ◌==◌, ltb,
  if◌then◌else◌, length, le_bytes, Outcome, ok, fault, Bytes,
}
use packetmachine.Property.{Property, BufferOps}

-- The sign of what `memcmp` returns.
pub data Sign : Type 0 where
  negative zero positive : Sign

-- `memcmp(a, b, n)` over blocks of `n` bytes.
unfoldable pub memcmp : Bytes → Bytes → Sign
memcmp [] b = zero
memcmp (x ∷ a) [] = zero
memcmp (x ∷ a) (y ∷ b) =
    let rest = memcmp a b in if ltb x y then negative else if ltb y x then positive else rest

abbrev pub is_positive : Sign → Bool
is_positive positive = true
is_positive _ = false

abbrev pub is_zero : Sign → Bool
is_zero zero = true
is_zero _ = false

-- `tb::HashKey` of the cpp-toolbox library.
pub record KeyOps (Key : Type 0) : Type 0 where
  pub clear : Key → Key
  pub resize : Key → ℕ → Key
  pub append : Key → Bytes → Key
  pub finalize : Key → Key

module _ {Key : Type 0} (k : KeyOps Key) where
  -- One endpoint before the other.
  unfoldable pub key_of : Key → Bytes → ℕ → Bytes → ℕ → Key
  key_of key addr1 port1 addr2 port2 =
      let sized = k.resize (k.clear key) (length addr1 + length addr2 + 2 + 2) in
      k.finalize (
        k.append (k.append (k.append (k.append sized addr1) (le_bytes 2 port1)) addr2)
          (le_bytes 2 port2))

  -- `rc > 0 || (rc == 0 && src_port > dst_port)`
  unfoldable pub src_first : Bytes → ℕ → Bytes → ℕ → Bool
  src_first src sport dst dport =
      let rc = memcmp src dst in is_positive rc || (is_zero rc && ltb dport sport)

  unfoldable pub ordered_key : Key → Bytes → ℕ → Bytes → ℕ → Key
  unfolding src_first
  ordered_key key src sport dst dport =
      if src_first src sport dst dport
      then key_of key src sport dst dport
      else key_of key dst dport src sport

  -- With its assertion.
  unfoldable pub make_key : {Buf : Type 0} → BufferOps Buf → Property Buf → Key → Outcome Key
  make_key tb p key =
      let src = tb.contents p.src_addr in
      let dst = tb.contents p.dst_addr in
      if length src == length dst then ok (ordered_key key src p.src_port dst p.dst_port) else fault

abbrev flip : Sign → Sign
flip negative = positive
flip zero = zero
flip positive = negative

memcmp-flip : (a b : Bytes) → length a ≡ length b → memcmp b a ≡ flip (memcmp a b)
unfolding memcmp
memcmp-flip [] [] h = refl
memcmp-flip [] (y ∷ b) h = absurd (omega (arith, h))
memcmp-flip (x ∷ a) [] h = absurd (omega (arith, h))
memcmp-flip (x ∷ a) (y ∷ b) h = ground (arith, memcmp-flip a b)

memcmp-zero : (a b : Bytes) → length a ≡ length b → memcmp a b ≡ zero → a ≡ b
unfolding memcmp
memcmp-zero [] [] h e = refl
memcmp-zero [] (y ∷ b) h e = absurd (omega (arith, h))
memcmp-zero (x ∷ a) [] h e = absurd (omega (arith, h))
memcmp-zero (x ∷ a) (y ∷ b) h e = ground (arith, memcmp-zero a b)

module _ {Key : Type 0} (k : KeyOps Key) where
  -- By the sign of the comparison.
  ordered_key-signed :
      (key : Key) (a b : Bytes) (pa pb : ℕ) (rc : Sign)
      → length a ≡ length b
      → memcmp a b ≡ rc
      → ordered_key k key b pb a pa ≡ ordered_key k key a pa b pb
  unfolding ordered_key
  ordered_key-signed key a b pa pb negative h e = rw (memcmp-flip a b h, e) refl
  ordered_key-signed key a b pa pb positive h e = rw (memcmp-flip a b h, e) refl
  ordered_key-signed key a b pa pb zero h e =
      rw (memcmp-flip a b h, e) (ground (arith, memcmp-zero a b h e))

  -- Two packets whose source and destination are each other's, with addresses of one length, have
  -- one key, by whatever way `tb::HashKey` makes it.
  pub make_key-swap :
      {Buf : Type 0} (tb : BufferOps Buf) (p q : Property Buf) (key : Key)
      → tb.contents q.src_addr ≡ tb.contents p.dst_addr
      → tb.contents q.dst_addr ≡ tb.contents p.src_addr
      → q.src_port ≡ p.dst_port
      → q.dst_port ≡ p.src_port
      → length (tb.contents p.src_addr) ≡ length (tb.contents p.dst_addr)
      → (make_key k tb q key ≡ make_key k tb p key) × ((r : Key) × (make_key k tb p key ≡ ok r))
  unfolding make_key
  make_key-swap tb p q key a b c d h =
      rw (a, b, c, d, (==_iff _ _).1 h, (==_iff _ _).1 (sym h))
        (
          ap ok (
              ordered_key-signed key (tb.contents p.src_addr) (tb.contents p.dst_addr) p.src_port
                p.dst_port (memcmp (tb.contents p.src_addr) (tb.contents p.dst_addr)) h refl),
          (_, refl),
        )
