-- ===== src/Property.antt =====
-- class Property of src/packetmachine/property.hpp and src/property.cc: what has been decoded of
-- one packet. Its values stand in pools, one for each parameter, that are used again for the next
-- packet; a `Value*` is a handle, the parameter and the place in its pool.
pub mod Objects
pub mod Events
pub mod Pools
pub mod Presence
pub mod Write
pub mod Handles
use Objects.{Class, ParamDef, Object, new_object, clear_object}
use packetmachine.Base.{
  ℕ, suc, ◌+◌, ◌-◌, ◌<◌, Bool, true, false, Option, none, some, List, [], ◌∷◌, ◌++◌, ltb,
  if◌then◌else◌, map, get_elem?, get_or, set, length, replicate, Outcome, ok, fault, or_fault,
  ◌>>=◌, Bytes,
}

-- `tb::Buffer` of the cpp-toolbox library, which keeps a copy of some bytes.
pub record BufferOps (Buf : Type 0) : Type 0 where
  pub clear : Buf → Buf
  pub set : Buf → Bytes → Buf
  pub contents : Buf → Bytes

-- An `EventDef*` is the number of the event.
pub record Property (Buf : Type 0) : Type 0 where
  pub param_idx : List ℕ
  pub param : List (List Object)
  pub event_idx : ℕ
  pub event : List ℕ
  pub src_addr : Buf
  pub dst_addr : Buf
  pub src_port : ℕ
  pub dst_port : ℕ

abbrev pub Handle : Type 0
Handle = ℕ × ℕ

-- The vectors after pushes of `d` up to the size `n`.
abbrev pub pad {ℓ} : {A : Type ℓ} → List A → ℕ → A → List A
pad xs n d = xs ++ replicate (n - length xs) d

module _ {Buf : Type 0} where
  -- The packet is kept elsewhere: only the counters are reset.
  unfoldable pub init : Property Buf → Property Buf
  init p = record p { param_idx = map (λ i. 0) p.param_idx; event_idx = 0 }

  -- The first `if` of `retain_value`.
  unfoldable pub grow : Property Buf → ℕ → Property Buf
  grow p psize =
      if ltb (length p.param) psize
      then record p {
        param_idx = p.param_idx ++ replicate (psize - length p.param) 0;
        param = pad p.param psize [];
      }
      else p

  -- The second `if`, and the counter: `idx` and `pool` are `param_idx_[pid]` and `*param_[pid]`.
  unfoldable pub retain_from : Property Buf → ParamDef → ℕ → List Object → Handle × Property Buf
  retain_from p def idx pool =
      let counted = set p.param_idx def.id (idx + 1) in
      if ltb idx (length pool)
      then (
        (def.id, idx),
        record p {
          param_idx = counted;
          param =
              set p.param def.id
                (set pool idx (clear_object (get_or pool idx (new_object def.class))));
        },
      )
      else (
        (def.id, length pool),
        record p {
          param_idx = counted;
          param = set p.param def.id (pool ++ (new_object def.class ∷ []));
        },
      )

  unfoldable pub retain_value : Property Buf → ParamDef → Handle × Property Buf
  retain_value p def =
      let q = grow p (def.id + 1) in
      retain_from q def (get_or q.param_idx def.id 0) (get_or q.param def.id [])

  -- The object behind a handle, and a change to it.
  unfoldable pub object : Property Buf → Handle → Option Object
  object p (pid, i) = get_elem? (get_or p.param pid []) i

  unfoldable pub modify : Property Buf → Handle → Object → Property Buf
  modify p (pid, i) o = record p { param = set p.param pid (set (get_or p.param pid []) i o) }

  unfoldable pub push_event : Property Buf → ℕ → Property Buf
  push_event p ev = record p {
    event =
        if ltb (length p.event) (p.event_idx + 1)
        then p.event ++ (ev ∷ [])
        else set p.event p.event_idx ev;
    event_idx = p.event_idx + 1;
  }

  -- `assert(this->event_idx_ <= this->event_.size())`; none for a null pointer.
  unfoldable pub event_at : Property Buf → ℕ → Outcome (Option ℕ)
  event_at p idx =
      if ltb (length p.event) p.event_idx
      then fault
      else if ltb idx p.event_idx
      then (or_fault (get_elem? p.event idx) >>= λ ev. ok (some ev))
      else ok none

  -- `this->param_idx_[key.id()] > 0`; an index past the end of the vector is a fault.
  unfoldable pub has_value : Property Buf → ℕ → Outcome Bool
  has_value p id = or_fault (get_elem? p.param_idx id) >>= λ n. ok (ltb 0 n)

  -- `value(key)` for a parameter that is not minor: none for `Property::null_`.
  unfoldable pub value : Property Buf → ℕ → Outcome (Option Object)
  value p id = or_fault (get_elem? p.param_idx id) >>= λ n.
      if ltb 0 n then (or_fault (object p (id, 0)) >>= λ o. ok (some o)) else ok none

module _ {Buf : Type 0} (tb : BufferOps Buf) where
  unfoldable pub set_src_addr : Property Buf → Bytes → Property Buf
  set_src_addr p addr = record p { src_addr = tb.set (tb.clear p.src_addr) addr }

  unfoldable pub set_dst_addr : Property Buf → Bytes → Property Buf
  set_dst_addr p addr = record p { dst_addr = tb.set (tb.clear p.dst_addr) addr }

module _ {Buf : Type 0} where
  unfoldable pub set_src_port : Property Buf → ℕ → Property Buf
  set_src_port p port = record p { src_port = port }

  unfoldable pub set_dst_port : Property Buf → ℕ → Property Buf
  set_dst_port p port = record p { dst_port = port }
