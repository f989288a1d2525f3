-- ===== src/Decoder/Setup.antt =====
-- The part of `Decoder::init` of src/decoder.cc that gives the modules their ids, and the modules
-- as their constructors and `setup` make them.
use Prim.Native.String.{String}
use text.Mathlib.Text.{◌==◌}
use packetmachine.Base.{
  ◌≡◌, ◌≢◌, refl, Bool, false, length, Bytes, ◌==◌ as ◌===◌, ℕ, ◌+◌, Option, none, some, List, [],
  ◌∷◌, arith, if◌then◌else◌,
}
use packetmachine.Property.{BufferOps}
use packetmachine.Property.Objects.{Class, ParamDef}
use packetmachine.Modules.Contract.{IsParamOf}
use packetmachine.Modules.Tcp
use packetmachine.Modules.Tcp.Safety.{decode_packet-IsGood, set_up-IsDefined}
use packetmachine.Tcp.Session.{Timeval}
use packetmachine.Tcp.Decode.{BufferMake}
use packetmachine.Tcp.Key.{KeyOps}
use packetmachine.Tcp.Table.{TableOps, State}
use packetmachine.Tcp.Expiry.{IsTable, IsSafe}
use packetmachine.Decoder.Loop.{IsBelow}
use packetmachine.Decoder.Pipeline.{Parts, IsLinked, IsOther, none-IsOther, rank}
use packetmachine.Modules.Arp
use packetmachine.Modules.Dhcp
use packetmachine.Modules.Dhcp.Safety.{set_up-IsSetUp}
use packetmachine.Modules.Dot1Q
use packetmachine.Modules.Ethernet
use packetmachine.Modules.Icmp
use packetmachine.Modules.Ipv4
use packetmachine.Modules.Ipv6
use packetmachine.Modules.Pppoe
use packetmachine.Modules.Udp
use packetmachine.NameService.Message
use packetmachine.NameService.Message.SetUp.{set_up-IsSetUp as name_set_up}

-- The names in `build_module_map`, in the order of a `std::map`.
abbrev pub module_names : List String
module_names =
    "ARP" ∷ "DHCP" ∷ "DNS" ∷ "Dot1Q" ∷ "Ethernet" ∷ "ICMP" ∷ "IPv4" ∷ "IPv6" ∷ "MDNS" ∷ "PPPoE"
    ∷ "TCP" ∷ "UDP" ∷ []

-- The loop that fills `mod_map_`, from the id `n` on. The names are the keys of a map.
unfoldable pub number_from : ℕ → List String → List (String × ℕ)
number_from n [] = []
number_from n (name ∷ names) = (name, n) ∷ number_from (n + 1) names

unfoldable pub lookup_module : List (String × ℕ) → String → Option ℕ
lookup_module [] name = none
lookup_module ((key, id) ∷ map) name =
    let rest = lookup_module map name in if key == name then some id else rest

abbrev pub own_map : List (String × ℕ)
unfolding number_from
own_map = number_from 0 module_names

module _ {T Key Buf : Type 0} (ops : TableOps T Key) (tb : BufferOps Buf) (k : KeyOps Key)
    (mk : BufferMake Buf) (mem : Bytes) (tv : Timeval) (enable : Bool) (timeout : ℕ)
    (define_param : String → String → Class → ParamDef) (define_event : String → String → ℕ) where
  -- The modules, with the calls of `define_param` and `define_event` by the module that makes them,
  -- and the sessions of TCP when the packet arrives.
  unfoldable pub own_parts : State T Key Buf → Parts Buf
  unfolding lookup_module own_map Tcp.decode_packet Tcp.set_up
  own_parts st = record {
    arp = Arp.set_up (define_param "ARP") (define_event "ARP");
    dot1q = Dot1Q.set_up (define_param "Dot1Q") (lookup_module own_map);
    ethernet = Ethernet.set_up (define_param "Ethernet") (lookup_module own_map);
    icmp = Icmp.set_up (define_param "ICMP");
    ipv4 = Ipv4.set_up (define_param "IPv4") (lookup_module own_map);
    ipv6 = Ipv6.set_up (lookup_module own_map);
    pppoe = Pppoe.set_up (define_param "PPPoE") (lookup_module own_map);
    udp = Udp.set_up (define_param "UDP") (lookup_module own_map);
    dhcp = Dhcp.set_up (define_param "DHCP");
    dns = Message.set_up (define_param "DNS") (define_event "DNS");
    mdns = Message.set_up (define_param "MDNS") (define_event "MDNS");
    tcp =
        Tcp.decode_packet ops tb k mk
          (Tcp.set_up (define_param "TCP") (define_event "TCP") enable timeout) mem tv st;
  }

-- Each lookup has found the module of its name: the ids are places in the order of the modules.
abbrev pub IsWired : {Buf : Type 0} → Parts Buf → Type 0
IsWired parts =
    (parts.ethernet.mod_ipv4 ≡ some 6)
    × (parts.ethernet.mod_arp ≡ some 0)
    × (parts.ethernet.mod_pppoe ≡ some 9)
    × (parts.ethernet.mod_dot1q ≡ some 3)
    × (parts.dot1q.mod_ipv4 ≡ some 6)
    × (parts.dot1q.mod_arp ≡ some 0)
    × (parts.dot1q.mod_pppoe ≡ some 9)
    × (parts.pppoe.mod_ipv4 ≡ some 6)
    × (parts.ipv4.mod_tcp ≡ some 10)
    × (parts.ipv4.mod_udp ≡ some 11)
    × (parts.ipv4.mod_icmp ≡ some 5)
    × (parts.ipv6.mod_tcp ≡ some 10)
    × (parts.ipv6.mod_udp ≡ some 11)
    × (parts.udp.mod_dns ≡ some 2)
    × (parts.udp.mod_mdns ≡ some 8)
    × (parts.udp.mod_dhcp ≡ some 1)

other : (i : ℕ) → (i === 10) ≡ false → ◌≢◌ {A = Option ℕ} (some i) (some 10)
other i h e = ground (arith, h, e)

-- The modules of the library, as their constructors and `setup` make them, are linked as Pipeline
-- asks for: every lookup finds the module of its name, each module leads only to modules that may
-- follow it, every `dynamic_cast` meets an object of its class, and the module for TCP, over
-- sessions that live, keeps the cursor and the property and names no next module. This where
-- `define_param` gives parameters of the class asked for, and the table leads only to what was put
-- in.
pub own_parts-IsLinked :
    {T Key Buf : Type 0} (ops : TableOps T Key) (LeadsTo : T → ℕ → Type 0)
    (laws : IsTable ops LeadsTo) (class : ℕ → Class) (tb : BufferOps Buf) (k : KeyOps Key)
    (mk : BufferMake Buf) (mem : Bytes) (tv : Timeval) (enable : Bool) (timeout : ℕ)
    (define_param : String → String → Class → ParamDef) (define_event : String → String → ℕ)
    (st : State T Key Buf)
    → ((mod_name name : String) (c : Class) → IsParamOf class c (define_param mod_name name c))
    → IsSafe ops LeadsTo st
    → let parts = own_parts ops tb k mk mem tv enable timeout define_param define_event st in
      IsLinked tb class (length mem) parts × IsWired parts
unfolding own_parts lookup_module own_map Ethernet.set_up Dot1Q.set_up Pppoe.set_up Ipv4.set_up
    Ipv6.set_up Udp.set_up
own_parts-IsLinked ops LeadsTo laws class tb k mk mem tv enable timeout define_param define_event st
      p safe =
    (
      record {
        arp =
            Arp.set_up-IsSetUp class (IsOther 0) (define_param "ARP") (define_event "ARP")
              (λ n c. (p "ARP" n c).0) none-IsOther;
        dot1q =
            Dot1Q.set_up-IsSetUp class (IsOther 4) (define_param "Dot1Q") (lookup_module own_map)
              (λ n c. (p "Dot1Q" n c).0) (tt, none-IsOther.1) (omega arith, other 6 refl)
              (omega arith, other 0 refl) (omega arith, other 9 refl);
        ethernet =
            Ethernet.set_up-IsSetUp class (IsOther 5) (define_param "Ethernet")
              (lookup_module own_map) (λ n c. (p "Ethernet" n c).0) (tt, none-IsOther.1)
              (omega arith, other 6 refl) (omega arith, other 0 refl) (omega arith, other 9 refl)
              (omega arith, other 3 refl);
        icmp = Icmp.set_up-IsSetUp class (IsOther 0) (define_param "ICMP") (p "ICMP") none-IsOther;
        ipv4 =
            Ipv4.set_up-IsSetUp class (IsBelow rank 12 2) (define_param "IPv4")
              (lookup_module own_map) (λ n c. (p "IPv4" n c).0) tt (omega arith) (omega arith)
              (omega arith);
        ipv6 =
            Ipv6.set_up-IsSetUp class (IsBelow rank 12 2) (lookup_module own_map) tt (omega arith)
              (omega arith);
        pppoe =
            Pppoe.set_up-IsSetUp class (IsOther 3) (define_param "PPPoE") (lookup_module own_map)
              (λ n c. (p "PPPoE" n c).0) (tt, none-IsOther.1) (omega arith, other 6 refl);
        udp =
            Udp.set_up-IsSetUp class (IsOther 1) (define_param "UDP") (lookup_module own_map)
              (λ n c. (p "UDP" n c).0) (tt, none-IsOther.1) (omega arith, other 2 refl)
              (omega arith, other 8 refl) (omega arith, other 1 refl);
        dhcp = set_up-IsSetUp class (define_param "DHCP") (p "DHCP");
        dns = name_set_up class (define_param "DNS") (define_event "DNS") (p "DNS");
        mdns = name_set_up class (define_param "MDNS") (define_event "MDNS") (p "MDNS");
        tcp = λ pd prop r v same.
            decode_packet-IsGood ops LeadsTo laws class tb k mk
              (Tcp.set_up (define_param "TCP") (define_event "TCP") enable timeout)
              (set_up-IsDefined class (define_param "TCP") (define_event "TCP") enable timeout
                (λ n c. (p "TCP" n c).0))
              mem tv (IsBelow rank 12 0) pd prop st tt r v same safe;
      },
      (
        refl, refl, refl, refl, refl, refl, refl, refl, refl, refl, refl, refl, refl, refl, refl,
        refl,
      ),
    )
