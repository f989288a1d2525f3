-- ===== src/Base/Exceptions.antt =====
-- What running a piece of the program can come to: a result, an exception of
-- src/packetmachine/exception.hpp, or a fault (a failed assert, a null pointer or a read outside
-- of an object, which C++ leaves undefined).
use mathlib.Core.Option.{Option, none, some}

-- The exception classes; their messages are left out.
pub data Error : Type 0 where
  config_error type_error key_error index_error runtime_error : Error

pub data Outcome {ℓ} (A : Type ℓ) : Type ℓ where
  ok : A → Outcome A
  throw : Error → Outcome A
  fault : Outcome A

-- What follows runs on the result, if there is one.
infixl 5 ◌>>=◌
abbrev pub ◌>>=◌ {ℓ κ} :
    {A : Type ℓ} {B : Type κ} (m : Outcome A) (rest : A → Outcome B) → Outcome B
fault >>= rest = fault
throw e >>= rest = throw e
ok x >>= rest = rest x

-- A null pointer, or nothing where the code takes something for granted.
abbrev pub or_fault {ℓ} : {A : Type ℓ} → Option A → Outcome A
or_fault none = fault
or_fault (some a) = ok a

-- The outcome is a result, with this property: nothing is thrown, and nothing is a fault.
abbrev pub Satisfies {ℓ} : {A : Type ℓ} → (A → Type 0) → Outcome A → Type 0
Satisfies P (ok a) = P a
Satisfies P (throw e) = ⊥
Satisfies P fault = ⊥

pub Satisfies->>= {ℓ κ} :
    {A : Type ℓ} {B : Type κ} (P : A → Type 0) (Q : B → Type 0) (m : Outcome A)
    (rest : A → Outcome B)
    → Satisfies P m
    → ((a : A) → P a → Satisfies Q (rest a))
    → Satisfies Q (m >>= rest)
Satisfies->>= P Q (ok a) rest s k = k a s
Satisfies->>= P Q (throw e) rest s k = elim s [ ]
Satisfies->>= P Q fault rest s k = elim s [ ]

pub Satisfies-weaken {ℓ} :
    {A : Type ℓ} (P Q : A → Type 0) (m : Outcome A)
    → ((a : A) → P a → Q a)
    → Satisfies P m
    → Satisfies Q m
Satisfies-weaken P Q (ok a) k s = k a s
Satisfies-weaken P Q (throw e) k s = s
Satisfies-weaken P Q fault k s = s

pub Satisfies-both {ℓ} :
    {A : Type ℓ} (P Q : A → Type 0) (m : Outcome A)
    → Satisfies P m
    → Satisfies Q m
    → Satisfies (λ a. P a × Q a) m
Satisfies-both P Q (ok a) s t = (s, t)
Satisfies-both P Q (throw e) s t = s
Satisfies-both P Q fault s t = s
