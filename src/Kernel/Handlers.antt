-- ===== src/Kernel/Handlers.antt =====
-- HandlerEntity of src/kernel.cc.
use packetmachine.Base.{
  ◌&&◌, ℕ, ◌≡◌, refl, Bool, true, false, not, ◌||◌, if◌then◌else◌, List, [], ◌∷◌, arith,
}

pub record Entity : Type 0 where
  pub cb : ℕ
  pub ev_id : ℕ
  pub id : ℕ
  pub active : Bool
  pub destroyed : Bool

unfoldable pub activate : Entity → Bool × Entity
activate e = if e.destroyed || e.active then (false, e) else (true, record e { active = true })

unfoldable pub deactivate : Entity → Bool × Entity
deactivate e =
    if e.destroyed || not e.active then (false, e) else (true, record e { active = false })

unfoldable pub destroy : Entity → Bool × Entity
destroy e =
    if e.destroyed then (false, e) else (true, record e { active = false; destroyed = true })

-- The calls that the program makes of an entity.
pub data Call : Type 0 where
  activates deactivates destroys : Call

unfoldable pub call : Entity → Call → Bool × Entity
call e activates = activate e
call e deactivates = deactivate e
call e destroys = destroy e

unfoldable pub calls : Entity → List Call → Entity
calls e [] = e
calls e (c ∷ cs) = calls (call e c).1 cs

destroyed_fixed : (e : Entity) (c : Call) → e.destroyed ≡ true → call e c ≡ (false, e)
unfolding call activate deactivate destroy
destroyed_fixed e activates d = rw d
destroyed_fixed e deactivates d = rw d
destroyed_fixed e destroys d = rw d

calls_destroyed : (e : Entity) (cs : List Call) → e.destroyed ≡ true → calls e cs ≡ e
unfolding calls
calls_destroyed e [] d = refl
calls_destroyed e (c ∷ cs) d = rw (destroyed_fixed e c d) (calls_destroyed e cs d)

pub destroy_lem :
    (e : Entity)
    → (e.destroyed && e.active) ≡ false
    → ((destroy e).1.destroyed ≡ true) × ((destroy e).1.active ≡ false)
unfolding destroy
destroy_lem e h = ground (arith, h)

-- `destroy` is final: for an entity that is not both destroyed and active, no sequence of calls
-- after it changes the entity, which is destroyed and not active.
pub destroy-calls :
    (e : Entity) (cs : List Call)
    → (e.destroyed && e.active) ≡ false
    → (calls (destroy e).1 cs ≡ (destroy e).1)
      × ((destroy e).1.destroyed ≡ true)
      × ((destroy e).1.active ≡ false)
destroy-calls e cs h = let (d, a) = destroy_lem e h in (calls_destroyed (destroy e).1 cs d, d, a)
