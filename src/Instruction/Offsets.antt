-- ===== src/Instruction/Offsets.antt =====
-- Offsets and lengths of encoded instructions.
use neo_lang.Prelude.{
  ℕ, zero, suc, ◌+◌, ◌<◌, ◌≡◌, refl, List, [], ◌∷◌, ◌++◌, arith, length, drop, drop-append, set,
  length-append, some, get_elem?,
}
use neo_lang.Instruction.{
  Instruction, encoded_len, to_bytes, encode, bytecode_len, bytecode_offset_of,
}

pub length-encode : (is : List Instruction) → length (encode is) ≡ bytecode_len is
unfolding encode bytecode_len encoded_len to_bytes
length-encode [] = refl
length-encode (i ∷ is) = omega (arith, length-append {0} (to_bytes i) (encode is), length-encode is)

pub bytecode_len-append :
    (is js : List Instruction) → bytecode_len (is ++ js) ≡ bytecode_len is + bytecode_len js
unfolding bytecode_len
bytecode_len-append [] js = omega arith
bytecode_len-append (i ∷ is) js = omega (arith, bytecode_len-append is js)

-- Replacing an instruction by one as long moves no instruction.
pub offset-set :
    (is : List Instruction) (n k : ℕ) (i j : Instruction)
    → get_elem? is n ≡ some i
    → encoded_len j ≡ encoded_len i
    → bytecode_offset_of (set is n j) k ≡ bytecode_offset_of is k
unfolding bytecode_offset_of bytecode_len
offset-set [] n zero i j h e = refl
offset-set [] n (suc k) i j h e = refl
offset-set (x ∷ is) zero zero i j h e = refl
offset-set (x ∷ is) zero (suc k) i j h e = let same : x ≡ i = cc in rw same (rw e refl)
offset-set (x ∷ is) (suc n) zero i j h e = refl
offset-set (x ∷ is) (suc n) (suc k) i j h e = omega (arith, offset-set is n k i j h e)

pub length-to_bytes : (i : Instruction) → length (to_bytes i) ≡ encoded_len i
unfolding to_bytes encoded_len
length-to_bytes i = omega arith

pub encoded_len-pos : (i : Instruction) → 0 < encoded_len i
unfolding encoded_len
encoded_len-pos i = omega arith

pub drop-encoded_len :
    (i : Instruction) (rest : List ℕ) → drop (encoded_len i) (to_bytes i ++ rest) ≡ rest
drop-encoded_len i rest = rw (← length-to_bytes) (drop-append (to_bytes i) rest)
