-- ===== src/Tests/Pools.antt =====
-- A Property that keeps an object of an earlier packet.
use packetmachine.Base.{
  ℕ, get_or, zero, suc, ◌≡◌, ◌≤◌, refl, some, [], ◌∷◌, arith, ok, fault, Bytes, length,
}
use packetmachine.Property.{Property, init, retain_value, object, has_value, event_at}
use packetmachine.Property.Objects.{Class, ParamDef, Object, new_object, ipv4_addr, array}
use packetmachine.Property.Events.{EventsFit, push_events, event-push_events}
use packetmachine.Property.Pools.{Inv, Retains, retain_value-Retains}
use packetmachine.Property.Presence.{retain_all, has_value-retain_all}

-- Parameters 0 and 1 are addresses, the others arrays.
abbrev class : ℕ → Class
class zero = ipv4_addr
class (suc zero) = ipv4_addr
class _ = array

abbrev before : Property Bytes
before = record {
  param_idx = 1 ∷ 0 ∷ [];
  param = (new_object ipv4_addr ∷ []) ∷ [] ∷ [];
  event_idx = 1;
  event = 4 ∷ 5 ∷ [];
  src_addr = [];
  dst_addr = [];
  src_port = 0;
  dst_port = 0;
}

before-Inv : Inv class before
unfolding new_object object
before-Inv = record { same_size = refl; in_pool = in_pool; typed = typed }
  where
    in_pool : (i : ℕ) → get_or before.param_idx i 0 ≤ length (get_or before.param i [])
    in_pool zero = omega arith
    in_pool (suc zero) = omega arith
    in_pool (suc (suc i)) = omega arith

    typed : (i k : ℕ) (o : Object) → object before (i, k) ≡ some o → o.class ≡ class i
    typed zero zero o e = cc
    typed zero (suc k) o e = cc
    typed (suc zero) k o e = cc
    typed (suc (suc i)) k o e = cc

abbrev other : ParamDef
other = record { id = 1; class = ipv4_addr }

abbrev second : ParamDef
second = record { id = 0; class = ipv4_addr }

retain_value-Retains_example :
    Retains class before second (retain_value before second).0 (retain_value before second).1
retain_value-Retains_example = retain_value-Retains class before second before-Inv refl

has_value-retain_all_example :
    Inv class (retain_all (init before) (other ∷ []))
    × (has_value (retain_all (init before) (other ∷ [])) 5 ≡ fault)
unfolding init retain_all retain_value packetmachine.Property.retain_from
    packetmachine.Property.grow
has_value-retain_all_example =
    has_value-retain_all class before (other ∷ []) 5 before-Inv (refl, tt)

event-push_events_example :
    EventsFit (push_events (init before) (7 ∷ 8 ∷ 9 ∷ []))
    × ((push_events (init before) (7 ∷ 8 ∷ 9 ∷ [])).event_idx ≡ 3)
    × (event_at (push_events (init before) (7 ∷ 8 ∷ 9 ∷ [])) 2 ≡ ok (some 9))
event-push_events_example = event-push_events before (7 ∷ 8 ∷ 9 ∷ []) 2 (omega arith)
