-- ===== src/Decoder/Settings/Choice.antt =====
-- The configuration that `Decoder::init` of src/decoder.cc gives to one module.
use Prim.Native.String.{String}
use text.Mathlib.Text.{◌==◌}
use text.Mathlib.TextEquality.{eq_iff}
use packetmachine.Base.{
  ℕ, ◌≡◌, ◌⊎◌, ◌∙◌, sym, refl, ap, true, false, Bool-cases, inl, inr, Option, none, some,
  Option-cases, List, [], ◌∷◌, ◌++◌, arith, if◌then◌else◌, ok, ◌>>=◌,
}
use packetmachine.Value.Maps.{lookup, lookup-append}
use packetmachine.Config.{ConfigValue, Config, set_ptr, has, is_there, get, value_at, lookup-put}
use packetmachine.Decoder.Settings.{
  ConfigDef, finalize, ModuleConfigs, finalize_all, set_or_skip, choose, choose_all, local_config,
}

-- The value that the user has given, and else the default.
abbrev pub first_of : Option ConfigValue → Option ConfigValue → Option ConfigValue
first_of none b = b
first_of (some v) b = some v

abbrev pub chosen : Config → ConfigDef → Option ConfigValue
unfolding lookup
chosen config def = first_of (lookup config.kv_map def.name) def.default_value

-- The map of a module: each definition stands under its own name, and no name stands twice.
unfoldable pub IsKeyed : List (String × ConfigDef) → Type 0
unfolding lookup
IsKeyed [] = Unit
IsKeyed ((k, d) ∷ rest) = (d.local_name ≡ k) × (lookup rest k ≡ none) × IsKeyed rest

lookup-absent :
    (k j : String) (d : ConfigDef) (rest : List (String × ConfigDef))
    → lookup ((k, d) ∷ rest) j ≡ none
    → ((k == j) ≡ false) × (lookup rest j ≡ none)
unfolding lookup
lookup-absent k j d rest h = elim (Bool-cases (k == j)) [
  | inl e ↦ elim (some_no d (sym (ap (λ b. if b then some d else lookup rest j) e) ∙ h)) [ ]
  | inr e ↦ (e, sym (ap (λ b. if b then some d else lookup rest j) e) ∙ h)
]
  where
    some_no : (d : ConfigDef) → ¬ (some d ≡ none)
    some_no d e = grind arith

-- `define_config` keeps the map of a module in order.
add_def-IsKeyed :
    (defs : List (String × ConfigDef)) (name : String) (def : ConfigDef)
    → IsKeyed defs
    → lookup defs name ≡ none
    → def.local_name ≡ name
    → IsKeyed (defs ++ ((name, def) ∷ []))
unfolding IsKeyed lookup
add_def-IsKeyed [] name def g h e = (e, refl, tt)
add_def-IsKeyed ((k, d) ∷ rest) name def g h e = (
  g.0,
  (lookup-append rest name k def (lookup-absent k name d rest h).1
      ∙ ap (λ b. if b then some def else lookup rest k)
          (not_same k name (lookup-absent k name d rest h).0)
      ∙ g.1),
  add_def-IsKeyed rest name def g.2 (lookup-absent k name d rest h).1 e,
)
  where
    not_same : (k name : String) → (k == name) ≡ false → (name == k) ≡ false
    not_same k name e = ground (arith, eq_iff k name, eq_iff name k)

set_or_skip-lookup :
    (local : Config) (name j : String) (o : Option ConfigValue)
    → lookup (set_or_skip local name o).kv_map j
      ≡ (if name == j then first_of o (lookup local.kv_map j) else lookup local.kv_map j)
unfolding set_or_skip set_ptr lookup
set_or_skip-lookup local name j none = ground arith
set_or_skip-lookup local name j (some v) = lookup-put local.kv_map name j v

choose_lem :
    (config local : Config) (def : ConfigDef)
    → choose config local def ≡ ok (set_or_skip local def.local_name (chosen config def))
unfolding choose has get value_at is_there set_or_skip
choose_lem config local def = elim (Option-cases (lookup config.kv_map def.name)) [
  | inl e ↦ rw e refl
  | inr (v, e) ↦ rw e refl
]

-- What the loop makes, by the choice for each definition.
settled : Config → Config → ℕ → String → List (String × ConfigDef) → Config
unfolding set_or_skip finalize
settled config local id prefix [] = local
settled config local id prefix ((k, d) ∷ rest) =
    settled config (set_or_skip local d.local_name (chosen config (finalize d id prefix))) id prefix
      rest

choose_all_lem :
    (config local : Config) (id : ℕ) (prefix : String) (defs : List (String × ConfigDef))
    → choose_all config local (finalize_all id prefix defs)
      ≡ ok (settled config local id prefix defs)
unfolding choose_all finalize_all finalize settled
choose_all_lem config local id prefix [] = refl
choose_all_lem config local id prefix ((k, d) ∷ defs) =
    rw (choose_lem config local (finalize d id prefix)) (
      choose_all_lem config (set_or_skip local d.local_name (chosen config (finalize d id prefix)))
        id prefix defs)

settled-absent :
    (config local : Config) (id : ℕ) (prefix : String) (defs : List (String × ConfigDef))
    (j : String)
    → IsKeyed defs
    → lookup defs j ≡ none
    → lookup (settled config local id prefix defs).kv_map j ≡ lookup local.kv_map j
unfolding settled IsKeyed
settled-absent config local id prefix [] j g h = refl
settled-absent config local id prefix ((k, d) ∷ defs) j g h =
    let picked = chosen config (finalize d id prefix) in
    settled-absent config (set_or_skip local d.local_name picked) id prefix defs j g.2
      (lookup-absent k j d defs h).1
    ∙ (set_or_skip-lookup local d.local_name j picked
        ∙ rw (g.0, (lookup-absent k j d defs h).0) refl)

lookup-found :
    (k j : String) (d found : ConfigDef) (rest : List (String × ConfigDef))
    → lookup ((k, d) ∷ rest) j ≡ some found
    → (((k == j) ≡ true) × (k ≡ j) × (d ≡ found))
      ⊎ (((k == j) ≡ false) × (lookup rest j ≡ some found))
unfolding lookup
lookup-found k j d found rest h = elim (Bool-cases (k == j)) [
  | inl e ↦ inl (
    e,
    (eq_iff k j).0 e,
    same d found (sym (ap (λ b. if b then some d else lookup rest j) e) ∙ h),
  )
  | inr e ↦ inr (e, sym (ap (λ b. if b then some d else lookup rest j) e) ∙ h)
]
  where
    same : (d found : ConfigDef) → some d ≡ some found → d ≡ found
    same d found e = cc

first_of_none : (o : Option ConfigValue) → first_of o none ≡ o
first_of_none none = refl
first_of_none (some v) = refl

set_or_skip-set :
    (local : Config) (name j : String) (o : Option ConfigValue)
    → name ≡ j
    → lookup local.kv_map j ≡ none
    → lookup (set_or_skip local name o).kv_map j ≡ o
set_or_skip-set local name j o same l =
    set_or_skip-lookup local name j o ∙ rw ((eq_iff name j).1 same, l) (first_of_none o)

settled-there :
    (config local : Config) (id : ℕ) (prefix : String) (defs : List (String × ConfigDef))
    (j : String) (d : ConfigDef)
    → IsKeyed defs
    → lookup defs j ≡ some d
    → lookup local.kv_map j ≡ none
    → lookup (settled config local id prefix defs).kv_map j ≡ chosen config (finalize d id prefix)
unfolding settled IsKeyed lookup
settled-there config local id prefix [] j d g h l = grind arith
settled-there config local id prefix ((k, e) ∷ defs) j d g h l =
    let picked = chosen config (finalize e id prefix) in
    let local1 = set_or_skip local e.local_name picked in
    elim (lookup-found k j e d defs h) [
      | inl (t, kj, ed) ↦
          settled-absent config local1 id prefix defs j g.2 (ap (lookup defs) (sym kj) ∙ g.1)
          ∙ (set_or_skip-set local e.local_name j picked (g.0 ∙ kj) l
              ∙ ap (λ x. chosen config (finalize x id prefix)) ed)
      | inr (f, found) ↦
          settled-there config local1 id prefix defs j d g.2 found
            (set_or_skip-lookup local e.local_name j picked ∙ rw (g.0, f) l)
    ]

-- In the configuration that goes to the `setup` of a module, each option that the module has
-- defined reads as the value that the user has set under the module's name, a dot and the name of
-- the option, else as its default; without either, reading it throws a KeyError. This where each
-- definition stands once under its own name, which `define_config` asserts.
pub local_config-get :
    (config : Config) (m : ModuleConfigs) (option : String) (def : ConfigDef)
    → IsKeyed m.config_map
    → lookup m.config_map option ≡ some def
    → (local_config config m >>= λ local. get local option)
      ≡ value_at (chosen config (finalize def m.id m.name))
unfolding local_config get
local_config-get config m option def g h =
    rw (choose_all_lem config (record { kv_map = [] }) m.id m.name m.config_map) (
      ap value_at (
        settled-there config (record { kv_map = [] }) m.id m.name m.config_map option def g h refl))
