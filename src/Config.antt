-- ===== src/Config.antt =====
-- src/packetmachine/config.hpp and src/config.cc: the configuration that a user gives, by keys. A
-- `ConfigPtr` is modelled by the value that it leads to: only `rename` changes a value, which
-- nothing calls and which is left out.
use Prim.Native.String.{String}
use text.Mathlib.Text.{◌==◌}
use text.Mathlib.TextEquality.{eq_iff}
use packetmachine.Base.{
  ℕ, ◌≡◌, refl, Bool, true, false, Option, none, some, List, [], ◌∷◌, arith, if◌then◌else◌, Outcome,
  ok, throw, type_error, key_error, ◌>>=◌,
}
use packetmachine.Value.Maps.{lookup}

-- `int`: `negsuc n` is - n - 1.
pub data ℤ : Type 0 where
  pos negsuc : ℕ → ℤ

-- The classes config::Int, config::Str and config::Bool, with their key.
pub data ConfigValue : Type 0 where
  int : String → ℤ → ConfigValue
  str : String → String → ConfigValue
  bool : String → Bool → ConfigValue

-- Each class overrides one of these three; ConfigValue throws in the others.
unfoldable pub as_int : ConfigValue → Outcome ℤ
as_int (int key val) = ok val
as_int (str key val) = throw type_error
as_int (bool key val) = throw type_error

unfoldable pub as_str : ConfigValue → Outcome String
as_str (int key val) = throw type_error
as_str (str key val) = ok val
as_str (bool key val) = throw type_error

unfoldable pub as_bool : ConfigValue → Outcome Bool
as_bool (int key val) = throw type_error
as_bool (str key val) = throw type_error
as_bool (bool key val) = ok val

pub record Config : Type 0 where
  pub kv_map : List (String × ConfigValue)

-- What `find` leads to is overwritten; at the end of the map, the pair is inserted.
unfoldable pub put :
    List (String × ConfigValue) → String → ConfigValue → List (String × ConfigValue)
put [] key val = (key, val) ∷ []
put ((k, v) ∷ rest) key val =
    let more = put rest key val in if k == key then (k, val) ∷ rest else (k, v) ∷ more

-- `set` with a `ConfigPtr`, and then those that make one by `make_value`.
unfoldable pub set_ptr : Config → String → ConfigValue → Config
unfolding put
set_ptr c key val = record { kv_map = put c.kv_map key val }

unfoldable pub set_int : Config → String → ℤ → Config
unfolding set_ptr
set_int c key val = set_ptr c key (int key val)

unfoldable pub set_str : Config → String → String → Config
unfolding set_ptr
set_str c key val = set_ptr c key (str key val)

unfoldable pub set_true : Config → String → Config
unfolding set_ptr
set_true c key = set_ptr c key (bool key true)

unfoldable pub set_false : Config → String → Config
unfolding set_ptr
set_false c key = set_ptr c key (bool key false)

unfoldable pub is_there : Option ConfigValue → Bool
is_there none = false
is_there (some v) = true

unfoldable pub has : Config → String → Bool
unfolding lookup is_there
has c key = is_there (lookup c.kv_map key)

unfoldable pub value_at : Option ConfigValue → Outcome ConfigValue
value_at none = throw key_error
value_at (some v) = ok v

-- `get` and `ptr`, which differ in the pointer only.
unfoldable pub get : Config → String → Outcome ConfigValue
unfolding lookup value_at
get c key = value_at (lookup c.kv_map key)

pub lookup-put :
    (l : List (String × ConfigValue)) (k j : String) (v : ConfigValue)
    → lookup (put l k v) j ≡ (if k == j then some v else lookup l j)
unfolding lookup put
lookup-put [] k j v = refl
lookup-put ((i, w) ∷ l) k j v =
    ground (arith, eq_iff k j, eq_iff i k, eq_iff i j, lookup-put l k j v)

-- Where an integer has been set, the key reads as that integer, and reading it as a text or as a
-- truth value throws a TypeError. Under every other key nothing changes: what was there is, and a
-- key that was absent still throws a KeyError.
pub get-set_int :
    (c : Config) (key other : String) (val : ℤ)
    → (key == other) ≡ false
    → ((get (set_int c key val) key >>= as_int) ≡ ok val)
      × ((get (set_int c key val) key >>= as_str) ≡ throw type_error)
      × ((get (set_int c key val) key >>= as_bool) ≡ throw type_error)
      × (get (set_int c key val) other ≡ get c other)
      × (has (set_int c key val) other ≡ has c other)
unfolding get set_int set_ptr as_int as_str as_bool value_at has
get-set_int c key other val h =
    rw
      (
        lookup-put c.kv_map key key (int key val),
        lookup-put c.kv_map key other (int key val),
        h,
        eq_refl key,
      )
      (refl, refl, refl, refl, refl)
  where
    eq_refl : (k : String) → (k == k) ≡ true
    eq_refl k = ground (arith, eq_iff k k)
