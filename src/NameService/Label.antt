-- ===== src/NameService/Label.antt =====
-- `NameService::parse_label` of src/modules/utils.cc: a domain name of a DNS message, with its
-- compression pointers. `mem` is the packet's buffer, and pointers are offsets into it.
pub mod Bounds
pub mod RoundTrip
use packetmachine.Base.{
  ℕ, zero, suc, ◌+◌, ◌-◌, ◌/◌, ◌%◌, ◌^◌, Bool, true, false, Option, none, some, List, [], ◌∷◌, ◌++◌,
  ltb, leb, ◌==◌, if◌then◌else◌, Outcome, ok, fault, ◌>>=◌, Bytes, load, load_slice, load_be16,
}

abbrev pub max_len : ℕ
max_len = 256

-- The variables of the loop: `p`, `remain`, `rp`, `len`, and what `s` points to, none for NULL.
pub record Cursor : Type 0 where
  pub p : ℕ
  pub remain : ℕ
  pub rp : Option ℕ
  pub len : ℕ
  pub s : Option Bytes

-- `(*p & 0xC0) == 0xC0` for a byte
abbrev pub is_jump : ℕ → Bool
is_jump b = b / 64 % 4 == 3

-- `ntohs(*h) & 0x3FFF`
abbrev pub jump_to : ℕ → ℕ
jump_to h = h % 2 ^ 14

abbrev pub or_else {ℓ} : {A : Type ℓ} → Option A → A → A
or_else none a = a
or_else (some b) a = b

-- What one round of the loop comes to: the function returns a pointer or NULL, or goes on.
pub data Round : Type 0 where
  return : Option ℕ → Option Bytes → Round
  continue : Cursor → Round

module _ (mem : Bytes) (sp total_len : ℕ) where
  -- The branch that jumps. none: the function returns NULL.
  unfoldable pub jump_by : Cursor → ℕ → Option Cursor
  jump_by c jmp =
      if leb total_len jmp
      then none
      else some
          (record c { p = sp + jmp; remain = total_len - jmp; rp = some (or_else c.rp (c.p + 2)) })

  -- `jump if needed`, behind the test of `remain`; `b` is the byte at `p`.
  unfoldable pub jump : Cursor → ℕ → Outcome (Option Cursor)
  jump c b =
      if is_jump b
      then (if ltb c.remain 2
          then ok none
          else (load_be16 mem c.p >>= λ h. ok (jump_by c (jump_to h))))
      else ok (some c)

  -- `s->append(p + 1, data_len); s->append(".", 1);`
  unfoldable pub append : Option Bytes → ℕ → ℕ → Outcome (Option Bytes)
  append none p data_len = ok none
  append (some s) p data_len = do
    label ← load_slice mem (p + 1) data_len
    ok (some (s ++ (label ++ (b'.' ∷ []))))

  unfoldable pub advance : Cursor → ℕ → Outcome Round
  advance c data_len = do
    s ← append c.s c.p data_len
    ok (
        continue (record c {
          p = c.p + (data_len + 1);
          remain = c.remain - (data_len + 1);
          len = c.len + data_len;
          s = s;
        }))

  -- `retain payload`; `data_len` is the byte at `p`.
  unfoldable pub label : Cursor → ℕ → Outcome Round
  label c data_len =
      if data_len == 0
      then ok (return (some (or_else c.rp (c.p + 1))) c.s)
      else if leb c.remain (data_len + 1)
      then ok (return none c.s)
      else advance c data_len

  unfoldable pub after_jump : Cursor → Option Cursor → Outcome Round
  after_jump c none = ok (return none c.s)
  after_jump c (some d) = load mem d.p >>= label d

  -- The body of the loop.
  unfoldable pub round : Cursor → Outcome Round
  round c =
      if ltb c.remain 1
      then ok (return none c.s)
      else (load mem c.p >>= λ b. jump c b >>= after_jump c)

  -- The loop on fuel. To run out of it is a fault, which Bounds excludes.
  unfoldable pub rounds : ℕ → Cursor → Outcome (Option ℕ × Option Bytes)
  rounds zero c = fault
  rounds (suc fuel) c = elim (ltb c.len max_len) [
    | false ↦ ok (none, c.s)
    | true ↦ do
      r ← round c
      elim r [ return result s ↦ ok (result, s) | continue d ↦ rounds fuel d ]
  ]

  -- `s` tells whether the caller wants the text; it is erased first.
  unfoldable pub parse_label : ℕ → ℕ → Bool → Outcome (Option ℕ × Option Bytes)
  parse_label p remain s =
      rounds (suc max_len)
        (record { p = p; remain = remain; rp = none; len = 0; s = if s then some [] else none })
