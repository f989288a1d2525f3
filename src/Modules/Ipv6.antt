-- ===== src/Modules/Ipv6.antt =====
-- class IPv6 of src/modules/ipv6.cc. The module defines parameters that its `decode` never sets.
use Prim.Native.String.{String}
use packetmachine.Base.{
  ℕ, ◌+◌, Option, none, arith, length, ◌==◌, if◌then◌else◌, get_or, Outcome, ok, ◌>>=◌, Bytes, load,
  load_lem, load_slice, slice, Satisfies,
}
use packetmachine.Payload.{Payload}
use packetmachine.Property.{Property, BufferOps, set_src_addr, set_dst_addr}
use packetmachine.Property.Objects.{Class}
use packetmachine.Property.Pools.{Inv}
use packetmachine.Modules.Header.{Decoded, retain_or_stop}
use packetmachine.Modules.Contract.{
  IsReady, IsGood, load_slice_lem, retain_or_stop-IsGood, set_src_addr-Inv, set_dst_addr-Inv,
}

pub record Ipv6 : Type 0 where
  pub mod_tcp : Option ℕ
  pub mod_udp : Option ℕ

-- The constructor and `setup`, over the calls that they make of Module.
unfoldable pub set_up : (String → Option ℕ) → Ipv6
set_up lookup_module = record { mod_tcp = lookup_module "TCP"; mod_udp = lookup_module "UDP" }

-- The switch on the next header.
unfoldable pub next_of : Ipv6 → ℕ → Option ℕ
next_of m t = if t == 6 then m.mod_tcp else if t == 17 then m.mod_udp else none

module _ {Buf : Type 0} (tb : BufferOps Buf) (m : Ipv6) (mem : Bytes) where
  -- `next_hdr_`, `src_` and `dst_` stand at 6, 8 and 24 in the header.
  unfoldable pub decode_header : Property Buf → ℕ → Payload → Outcome (Decoded Buf)
  decode_header prop hdr pd = do
    src ← load_slice mem (hdr + 8) 16
    dst ← load_slice mem (hdr + 24) 16
    proto ← load mem (hdr + 6)
    ok (next_of m proto, pd, set_dst_addr tb (set_src_addr tb prop src) dst)

  unfoldable pub decode : Payload → Property Buf → Outcome (Decoded Buf)
  decode pd prop = retain_or_stop pd prop 40 (decode_header prop)

-- The parameters are those of the constructor, and each module it leads to is permitted.
pub record IsSetUp (class : ℕ → Class) (Next : Option ℕ → Type 0) (m : Ipv6) : Type 0 where
  pub stop : Next none
  pub to_tcp : Next m.mod_tcp
  pub to_udp : Next m.mod_udp

-- Where `define_param` gives parameters of the class asked for, and the modules looked up may follow.
pub set_up-IsSetUp :
    (class : ℕ → Class) (Next : Option ℕ → Type 0) (lookup_module : String → Option ℕ)
    → Next none
    → Next (lookup_module "TCP")
    → Next (lookup_module "UDP")
    → IsSetUp class Next (set_up lookup_module)
unfolding set_up
set_up-IsSetUp class Next lookup_module stop h0 h1 = record {
  stop = stop;
  to_tcp = h0;
  to_udp = h1;
}

module _ (class : ℕ → Class) (Next : Option ℕ → Type 0) (m : Ipv6) (w : IsSetUp class Next m) where
  next_of-Next : (t : ℕ) → Next (next_of m t)
  unfolding next_of
  next_of-Next t = ground (arith, w)

  pub decode-IsGood :
      {Buf : Type 0} (tb : BufferOps Buf) (mem : Bytes) (pd : Payload) (prop : Property Buf)
      → IsReady (length mem) pd
      → Inv class prop
      → Satisfies (IsGood class (length mem) Next) (decode tb m mem pd prop)
  unfolding decode decode_header
  decode-IsGood tb mem pd prop r v =
      retain_or_stop-IsGood class (length mem) Next 40 pd prop (decode_header tb m mem prop) w.stop
        r v
        (λ hdr pd' h r'.
          rw
            (
              load_slice_lem mem (hdr + 8) 16 (omega arith),
              load_slice_lem mem (hdr + 24) 16 (omega arith),
              load_lem mem (hdr + 6) (omega arith),
            )
            (record {
              next = next_of-Next (get_or mem (hdr + 6) 0);
              ready = r';
              inv =
                  set_dst_addr-Inv _ (set_src_addr-Inv prop v tb (slice mem (hdr + 8) 16)) tb
                    (slice mem (hdr + 24) 16);
            }))
