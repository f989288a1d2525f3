-- ===== src/Decoder/Pipeline.antt =====
-- The decoder with the library's own modules, in the order of the map that `build_module_map` of
-- src/module.cc fills: ARP, DHCP, DNS, Dot1Q, Ethernet, ICMP, IPv4, IPv6, MDNS, PPPoE, TCP, UDP.
-- The ids of the modules are their places in that order.
use packetmachine.Base.{
  ℕ, zero, suc, ◌<◌, ◌≡◌, some, List, [], ◌∷◌, arith, get_elem?, get_or, length, or_fault, ◌>>=◌,
  Bytes, Satisfies, Satisfies-weaken, Satisfies-both, Outcome, Option, none, ◌≢◌, ◌⊎◌, inl, inr,
  refl, ap,
}
use packetmachine.Payload.{Payload}
use packetmachine.Property.{Property, BufferOps}
use packetmachine.Property.Objects.{Class}
use packetmachine.Property.Pools.{Inv}
use packetmachine.Modules.Contract.{IsReady, IsGood}
use packetmachine.Decoder.{Decode, Decoder, decode}
use packetmachine.Decoder.Loop.{IsBelow, Expects, IsDone, run-IsDone}
use packetmachine.Modules.Header.{Decoded}
use packetmachine.Modules.Addresses.{
  SetsAll, IsAlike, EndsOrAlike, ipv4-EndsOrAlike, ipv6-EndsOrAlike,
}
use packetmachine.Modules.Arp.{Arp}
use packetmachine.Modules.Arp
use packetmachine.Modules.Dhcp.{Dhcp}
use packetmachine.Modules.Dhcp
use packetmachine.Modules.Dhcp.Safety.{IsSetUp, decode-IsGood}
use packetmachine.Modules.Dot1Q.{Dot1Q}
use packetmachine.Modules.Dot1Q
use packetmachine.Modules.Ethernet.{Ethernet}
use packetmachine.Modules.Ethernet
use packetmachine.Modules.Icmp.{Icmp}
use packetmachine.Modules.Icmp
use packetmachine.Modules.Ipv4.{Ipv4}
use packetmachine.Modules.Ipv4
use packetmachine.Modules.Ipv6.{Ipv6}
use packetmachine.Modules.Ipv6
use packetmachine.Modules.Pppoe.{Pppoe}
use packetmachine.Modules.Pppoe
use packetmachine.Modules.Udp.{Udp}
use packetmachine.Modules.Udp
use packetmachine.NameService.Message.{NameService}
use packetmachine.NameService.Message
use packetmachine.NameService.Message.SetUp.{IsSetUp as IsNamed}
use packetmachine.NameService.Message.Safety.{decode_message-IsGood}

-- The modules. That for TCP is its `decode` over the sessions of the moment.
pub record Parts (Buf : Type 0) : Type 0 where
  pub arp : Arp
  pub dot1q : Dot1Q
  pub ethernet : Ethernet
  pub icmp : Icmp
  pub ipv4 : Ipv4
  pub ipv6 : Ipv6
  pub pppoe : Pppoe
  pub udp : Udp
  pub dhcp : Dhcp
  pub dns : NameService
  pub mdns : NameService
  pub tcp : Decode Buf

-- How many modules may follow, at most, by the id.
abbrev pub rank : ℕ → ℕ
rank i = get_or (0 ∷ 0 ∷ 0 ∷ 4 ∷ 5 ∷ 0 ∷ 2 ∷ 2 ∷ 0 ∷ 3 ∷ 0 ∷ 1 ∷ []) i 0

unfoldable pub pipeline : {Buf : Type 0} → BufferOps Buf → Bytes → Parts Buf → List ℕ → Decoder Buf
pipeline tb mem parts mod_event = record {
  modules =
      Arp.decode parts.arp mem
      ∷ Dhcp.decode parts.dhcp mem
      ∷ Message.decode parts.dns mem
      ∷ Dot1Q.decode parts.dot1q mem
      ∷ Ethernet.decode parts.ethernet mem
      ∷ Icmp.decode parts.icmp mem
      ∷ Ipv4.decode tb parts.ipv4 mem
      ∷ Ipv6.decode tb parts.ipv6 mem
      ∷ Message.decode parts.mdns mem
      ∷ Pppoe.decode parts.pppoe mem
      ∷ parts.tcp
      ∷ Udp.decode parts.udp mem
      ∷ [];
  mod_event = mod_event;
  mod_ethernet = some 4;
}

-- The modules that may follow one of rank `r`, and are not that for TCP.
abbrev pub IsOther : ℕ → Option ℕ → Type 0
IsOther r next = IsBelow rank 12 r next × (next ≢ some 10)

-- What a module asks of the property: that for TCP, addresses of one length.
abbrev Enters : {Buf : Type 0} → BufferOps Buf → ℕ → Property Buf → Type 0
Enters tb i prop = i ≡ 10 → IsAlike tb prop

-- Each module has the parameters that its constructor defines, and leads to modules that
-- may follow it, where that for TCP follows those for IPv4 and IPv6 only. The module for TCP keeps
-- the cursor and the property where the addresses have one length, and ends the loop.
pub record IsLinked {Buf : Type 0} (tb : BufferOps Buf) (class : ℕ → Class) (size : ℕ)
    (parts : Parts Buf) : Type 0 where
  pub arp : Arp.IsSetUp class (IsOther 0) parts.arp
  pub dot1q : Dot1Q.IsSetUp class (IsOther 4) parts.dot1q
  pub ethernet : Ethernet.IsSetUp class (IsOther 5) parts.ethernet
  pub icmp : Icmp.IsSetUp class (IsOther 0) parts.icmp
  pub ipv4 : Ipv4.IsSetUp class (IsBelow rank 12 2) parts.ipv4
  pub ipv6 : Ipv6.IsSetUp class (IsBelow rank 12 2) parts.ipv6
  pub pppoe : Pppoe.IsSetUp class (IsOther 3) parts.pppoe
  pub udp : Udp.IsSetUp class (IsOther 1) parts.udp
  pub dhcp : IsSetUp class parts.dhcp
  pub dns : IsNamed class parts.dns
  pub mdns : IsNamed class parts.mdns
  pub tcp :
      (pd : Payload) (prop : Property Buf)
      → IsReady size pd
      → Inv class prop
      → IsAlike tb prop
      → Satisfies (IsGood class size (IsBelow rank 12 0)) (parts.tcp pd prop)

pub none-IsOther : IsOther 0 none
none-IsOther = (tt, λ e. cc (e))

last :
    {Buf : Type 0} (tb : BufferOps Buf) (next : Option ℕ) (p : Property Buf)
    → IsBelow rank 12 0 next
    → Expects (Enters tb) next p
last tb none p h = tt
last tb (some i) p h = absurd (omega (arith, h.1))

module _ {Buf : Type 0} (tb : BufferOps Buf) (sets : SetsAll tb) (class : ℕ → Class) (mem : Bytes)
    (parts : Parts Buf) (w : IsLinked tb class (length mem) parts) where
  abbrev Result : ℕ → Decoded Buf → Type 0
  Result r out = IsGood class (length mem) (IsBelow rank 12 r) out × Expects (Enters tb) out.0 out.2

  -- A module that does not lead to that for TCP, and one that leaves addresses of one length.
  by_other :
      (r : ℕ) (m : Outcome (Decoded Buf))
      → Satisfies (IsGood class (length mem) (IsOther r)) m
      → Satisfies (Result r) m
  by_other r m s =
      Satisfies-weaken (IsGood class (length mem) (IsOther r)) (Result r) m
        (λ out g.
          (record { next = g.next.0; ready = g.ready; inv = g.inv }, asks out.0 out.2 g.next.1))
        s
    where
      asks : (next : Option ℕ) (p : Property Buf) → next ≢ some 10 → Expects (Enters tb) next p
      asks none p ne = tt
      asks (some i) p ne = λ e. absurd (ne (ap some e))

  by_alike :
      (r : ℕ) (m : Outcome (Decoded Buf))
      → Satisfies (IsGood class (length mem) (IsBelow rank 12 r)) m
      → Satisfies (EndsOrAlike tb class) m
      → Satisfies (Result r) m
  by_alike r m s t =
      Satisfies-weaken _ (Result r) m (λ out g. (g.0, asks out.0 out.2 g.1))
        (Satisfies-both (IsGood class (length mem) (IsBelow rank 12 r)) (EndsOrAlike tb class) m s
          t)
    where
      asks :
          (next : Option ℕ) (p : Property Buf)
          → (next ≡ none) ⊎ IsAlike tb p
          → Expects (Enters tb) next p
      asks none p h = tt
      asks (some i) p (inl e) = λ c. absurd (cc)
      asks (some i) p (inr h) = λ e. h

  keeps :
      (mod_event : List ℕ) (i : ℕ) (pd : Payload) (prop : Property Buf)
      → i < 12
      → IsReady (length mem) pd
      → Inv class prop
      → Enters tb i prop
      → Satisfies
          (Result (rank i))
          (or_fault (get_elem? (pipeline tb mem parts mod_event).modules i) >>= λ m. m pd prop)
  unfolding pipeline
  keeps mod_event zero pd prop h r v n =
      by_other 0 _ (Arp.decode-IsGood class (IsOther 0) parts.arp w.arp mem pd prop r v)
  keeps mod_event (suc zero) pd prop h r v n =
      by_other 0 _ (decode-IsGood class parts.dhcp w.dhcp mem (IsOther 0) pd prop none-IsOther r v)
  keeps mod_event (suc (suc zero)) pd prop h r v n =
      by_other 0 _
        (decode_message-IsGood class parts.dns w.dns mem (IsOther 0) pd prop none-IsOther r v)
  keeps mod_event (suc (suc (suc zero))) pd prop h r v n =
      by_other 4 _ (Dot1Q.decode-IsGood class (IsOther 4) parts.dot1q w.dot1q mem pd prop r v)
  keeps mod_event (suc (suc (suc (suc zero)))) pd prop h r v n =
      by_other 5 _
        (Ethernet.decode-IsGood class (IsOther 5) parts.ethernet w.ethernet mem pd prop r v)
  keeps mod_event (suc (suc (suc (suc (suc zero))))) pd prop h r v n =
      by_other 0 _ (Icmp.decode-IsGood class (IsOther 0) parts.icmp w.icmp mem pd prop r v)
  keeps mod_event (suc (suc (suc (suc (suc (suc zero)))))) pd prop h r v n =
      by_alike 2 _
        (Ipv4.decode-IsGood class (IsBelow rank 12 2) parts.ipv4 w.ipv4 tb mem pd prop r v)
        (ipv4-EndsOrAlike tb sets mem class (IsBelow rank 12 2) parts.ipv4 w.ipv4 pd prop r v)
  keeps mod_event (suc (suc (suc (suc (suc (suc (suc zero))))))) pd prop h r v n =
      by_alike 2 _
        (Ipv6.decode-IsGood class (IsBelow rank 12 2) parts.ipv6 w.ipv6 tb mem pd prop r v)
        (ipv6-EndsOrAlike tb sets mem class parts.ipv6 pd prop r)
  keeps mod_event (suc (suc (suc (suc (suc (suc (suc (suc zero)))))))) pd prop h r v n =
      by_other 0 _
        (decode_message-IsGood class parts.mdns w.mdns mem (IsOther 0) pd prop none-IsOther r v)
  keeps mod_event (suc (suc (suc (suc (suc (suc (suc (suc (suc zero))))))))) pd prop h r v n =
      by_other 3 _ (Pppoe.decode-IsGood class (IsOther 3) parts.pppoe w.pppoe mem pd prop r v)
  keeps mod_event (suc (suc (suc (suc (suc (suc (suc (suc (suc (suc zero)))))))))) pd prop h r v n =
      Satisfies-weaken (IsGood class (length mem) (IsBelow rank 12 0)) (Result 0) _
        (λ out g. (g, last tb out.0 out.2 g.next)) (w.tcp pd prop r v (n refl))
  keeps mod_event (suc (suc (suc (suc (suc (suc (suc (suc (suc (suc (suc zero))))))))))) pd prop h r
        v n =
      by_other 1 _ (Udp.decode-IsGood class (IsOther 1) parts.udp w.udp mem pd prop r v)
  keeps mod_event (suc (suc (suc (suc (suc (suc (suc (suc (suc (suc (suc (suc i)))))))))))) pd prop
        h r v n =
      absurd (omega (arith, h))

  -- Over every packet, the loop of the decoder ends after at most six modules: from a cursor inside
  -- the packet and a well-formed property it never reads outside of the packet, dereferences null
  -- or fails an assertion, and leaves the cursor inside the packet and the property well formed.
  -- This where each module has an event, the parameters of its constructor and the modules that
  -- its `setup` looks up, where the buffers hold what is set, and where the module for TCP, given
  -- addresses of one length, keeps the cursor and the property and names no next module.
  pub decode-IsDone :
      (mod_event : List ℕ) (pd : Payload) (prop : Property Buf)
      → length mod_event ≡ 12
      → IsReady (length mem) pd
      → Inv class prop
      → Satisfies (IsDone class (length mem)) (decode (pipeline tb mem parts mod_event) 6 pd prop)
  unfolding decode pipeline packetmachine.Property.push_event
  decode-IsDone mod_event pd prop e r v =
      run-IsDone class (length mem) rank (Enters tb) (pipeline tb mem parts mod_event)
        (record {
          keeps = λ i pd' prop' h. keeps mod_event i pd' prop' (omega (arith, h));
          after_event = λ i ev prop' h. h;
          events = omega (arith, e);
        })
        6 (some 4) pd prop (omega arith, omega arith) r v (λ c. absurd (omega (arith, c)))
