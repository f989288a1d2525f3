-- ===== src/Decoder/Settings/Keys.antt =====
-- The check of the keys in `Decoder::init` of src/decoder.cc.
use Prim.Native.String.{String}
use text.Mathlib.Text.{◌==◌}
use text.Mathlib.TextEquality.{eq_iff}
use packetmachine.Base.{
  ◌≡◌, ◌⊎◌, ◌↔◌, ◌∙◌, sym, refl, ap, true, Bool-cases, inl, inr, some, List, [], ◌∷◌, arith,
  if◌then◌else◌, ok, throw, config_error,
}
use packetmachine.Value.Maps.{Map, lookup, find}
use packetmachine.Config.{ConfigValue, Config, has, is_there}
use packetmachine.Decoder.Settings.{ConfigDef, is_def, check_keys}

head_there :
    (k : String) (v : ConfigValue) (l : List (String × ConfigValue))
    → is_there (lookup ((k, v) ∷ l) k) ≡ true
unfolding lookup is_there
head_there k v l = ground (arith, eq_iff k k)

tail_there :
    (k : String) (v : ConfigValue) (l : List (String × ConfigValue)) (key : String)
    → is_there (lookup l key) ≡ true
    → is_there (lookup ((k, v) ∷ l) key) ≡ true
unfolding lookup is_there
tail_there k v l key h = ground (arith, eq_iff k key)

-- A key that is there is the first one or stands behind it.
there-cases :
    (k : String) (v : ConfigValue) (l : List (String × ConfigValue)) (key : String)
    → is_there (lookup ((k, v) ∷ l) key) ≡ true
    → (k ≡ key) ⊎ (is_there (lookup l key) ≡ true)
unfolding lookup
there-cases k v l key h = elim (Bool-cases (k == key)) [
  | inl e ↦ inl ((eq_iff k key).0 e)
  | inr e ↦ inr (sym (ap (λ b. is_there (if b then some v else lookup l key)) e) ∙ h)
]

module _ (map : Map ConfigDef) (config : Config) where
  check_keys-known :
      (l : List (String × ConfigValue))
      → ((key : String) → is_there (lookup l key) ≡ true → is_def (find map key) ≡ true)
      → check_keys map config l ≡ ok config
  unfolding check_keys
  check_keys-known [] f = refl
  check_keys-known ((k, v) ∷ l) f =
      rw (f k (head_there k v l)) (check_keys-known l (λ key h. f key (tail_there k v l key h)))

  check_keys-or_throws :
      (l : List (String × ConfigValue))
      → (check_keys map config l ≡ ok config) ⊎ (check_keys map config l ≡ throw config_error)
  unfolding check_keys
  check_keys-or_throws [] = inl refl
  check_keys-or_throws ((k, v) ∷ l) = elim (Bool-cases (is_def (find map k))) [
    | inl e ↦ rw e (check_keys-or_throws l)
    | inr e ↦ inr (rw e refl)
  ]

  known-check_keys :
      (l : List (String × ConfigValue)) (key : String)
      → check_keys map config l ≡ ok config
      → is_there (lookup l key) ≡ true
      → is_def (find map key) ≡ true
  unfolding check_keys lookup is_there
  known-check_keys [] key h t = grind arith
  known-check_keys ((k, v) ∷ l) key h t = elim (Bool-cases (is_def (find map k))) [
    | inl e ↦ elim (there-cases k v l key t) [
      | inl same ↦ ap (λ x. is_def (find map x)) (sym same) ∙ e
      | inr there ↦
          known-check_keys l key
            (sym (ap (λ b. if b then check_keys map config l else throw config_error) e) ∙ h) there
    ]
    | inr e ↦
        elim (throw_no
          (sym (ap (λ b. if b then check_keys map config l else throw config_error) e) ∙ h)) [ ]
  ]
    where
      throw_no : ¬ (throw config_error ≡ ok config)
      throw_no e = grind arith

-- The check of the keys lets a configuration through, unchanged, exactly where the decoder knows
-- every key that the user has set, and throws a ConfigError otherwise.
pub check_keys_lem :
    (map : Map ConfigDef) (config : Config)
    → ((check_keys map config config.kv_map ≡ ok config)
        ↔ ((key : String) → has config key ≡ true → is_def (find map key) ≡ true))
      × ((check_keys map config config.kv_map ≡ ok config)
          ⊎ (check_keys map config config.kv_map ≡ throw config_error))
unfolding has
check_keys_lem map config = (
  (
    λ h key t. known-check_keys map config config.kv_map key h t,
    λ f. check_keys-known map config config.kv_map f,
  ),
  check_keys-or_throws map config config.kv_map,
)
