-- ===== src/OpCode/TryFrom.antt =====
-- Reading an opcode back from its byte. `OpCode::try_from` is generated by the crate `num_enum`;
-- what the program relies on is stated as the laws of a record, and a search through the opcodes
-- meets them.
use neo_lang.Prelude.{
  ℕ, ◌≡◌, refl, true, Option, none, some, List, [], ◌∷◌, ◌==◌, if◌then◌else◌, Bool-cases, inl, inr,
  eqb→eq, ap, ◌∙◌, sym,
}
use neo_lang.OpCode.{OpCode, byte, ◌==op◌, all_opcodes}

-- The derive `TryFromPrimitive`: `try_from` reads exactly the discriminants.
pub record TryFromPrimitive : Type 0 where
  pub try_from : ℕ → Option OpCode
  pub try_from-byte : (op : OpCode) → try_from (byte op) ≡ some op
  pub byte-try_from : (b : ℕ) (op : OpCode) → try_from b ≡ some op → byte op ≡ b

pub find_byte : ℕ → List OpCode → Option OpCode
find_byte b [] = none
find_byte b (op ∷ ops) = if byte op == b then some op else find_byte b ops

pub find_byte_sound :
    (b : ℕ) (ops : List OpCode) (op : OpCode) → find_byte b ops ≡ some op → byte op ≡ b
unfolding find_byte
find_byte_sound b [] op h = absurd (cc)
find_byte_sound b (o ∷ ops) op h = elim (Bool-cases (byte o == b)) [
  | inl e ↦
      let h' : some o ≡ some op = rw e at h in
      let same : o ≡ op = cc in ap byte (sym same) ∙ eqb→eq _ _ e
  | inr e ↦ find_byte_sound b ops op (rw e at h)
]

pub find_byte_complete : (op : OpCode) → find_byte (byte op) all_opcodes ≡ some op
unfolding find_byte byte all_opcodes
find_byte_complete OpCode.pushint8 = refl
find_byte_complete _ = refl

-- A reader of opcodes that meets the laws.
abbrev pub by_search : TryFromPrimitive
by_search = record {
  try_from = λ b. find_byte b all_opcodes;
  try_from-byte = find_byte_complete;
  byte-try_from = λ b op h. find_byte_sound b all_opcodes op h;
}

-- Different opcodes have different bytes.
pub byte_injective : (a b : OpCode) → byte a ≡ byte b → a ≡ b
byte_injective a b h =
    let e : some a ≡ some b =
      sym (find_byte_complete a) ∙ ap (λ n. find_byte n all_opcodes) h ∙ find_byte_complete b in
    cc

pub ==op→eq : (a b : OpCode) → (a ==op b) ≡ true → a ≡ b
unfolding ◌==op◌
==op→eq a b h = byte_injective a b (eqb→eq _ _ h)
