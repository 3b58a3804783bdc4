-- ===== src/Ir/Fold.antt =====
-- The folding of constants (neo-compiler/src/ir/opt.rs), with the parsing and the printing of an
-- `i64` of Rust's standard library. Addition, subtraction and multiplication that overflow panic
-- in a build with overflow checks and wrap around in one without; a division that has no quotient
-- in range panics in both.
use neo_lang.Prelude.{
  ℕ, zero, suc, ◌+◌, ◌-◌, ◌*◌, ◌/◌, ◌%◌, ◌^◌, Bool, true, false, not, Option, none, some, List, [],
  ◌∷◌, ◌==◌, ltb, if◌then◌else◌, ◌>>=?◌,
}
use neo_lang.Prelude.Int.{ℤ, pos, negsuc, pos_part, neg_part, sub_ℕ, fits, to_bits, of_bits}
use neo_lang.Ast.{UnaryOp, BinaryOp, Literal}
use neo_lang.Ir.{ValueRef, value, param, Instr, BasicBlock, FunctionIr}
use neo_lang.Link.{same_name}
use neo_lang.Lexer.{is_digit}

unfoldable pub i64_half : ℕ
i64_half = 2 ^ 63

unfoldable pub in_range : ℤ → Option ℤ
in_range z = if fits i64_half z then some z else none

unfoldable pub parse_digits : ℕ → List ℕ → Option ℕ
parse_digits n [] = some n
parse_digits n (c ∷ text) =
    let rest = parse_digits (10 * n + (c - b'0')) text in if is_digit c then rest else none

unfoldable pub parse_nat : List ℕ → Option ℕ
parse_nat [] = none
parse_nat (c ∷ text) = parse_digits 0 (c ∷ text)

unfoldable pub negate : ℕ → ℤ
negate zero = pos 0
negate (suc n) = negsuc n

-- `str::parse::<i64>`.
unfoldable pub parse_i64 : List ℕ → Option ℤ
parse_i64 [] = none
parse_i64 (c ∷ text) =
    if c == b'-'
    then (parse_nat text >>=? λ n. in_range (negate n))
    else (parse_nat (if c == b'+' then text else c ∷ text) >>=? λ n. in_range (pos n))

-- The digits of `n` in front of `behind`; a digit needs one unit of fuel.
unfoldable pub digits : ℕ → ℕ → List ℕ → List ℕ
digits zero n behind = behind
digits (suc fuel) n behind =
    let more = digits fuel (n / 10) ((b'0' + n % 10) ∷ behind) in
    if ltb n 10 then (b'0' + n) ∷ behind else more

-- `i64::to_string`.
unfoldable pub to_string : ℤ → List ℕ
to_string (pos n) = digits (suc n) n []
to_string (negsuc n) = b'-' ∷ digits (suc (suc n)) (suc n) []

unfoldable pub add : ℤ → ℤ → ℤ
add x y = sub_ℕ (pos_part x + pos_part y) (neg_part x + neg_part y)

unfoldable pub sub : ℤ → ℤ → ℤ
sub x y = sub_ℕ (pos_part x + neg_part y) (neg_part x + pos_part y)

unfoldable pub mul : ℤ → ℤ → ℤ
mul x y =
    sub_ℕ (pos_part x * pos_part y + neg_part x * neg_part y)
      (pos_part x * neg_part y + neg_part x * pos_part y)

-- The quotient, rounded towards zero; `none` for a divisor of zero.
unfoldable pub quotient : ℤ → ℤ → Option ℤ
quotient x (pos zero) = none
quotient (pos a) (pos (suc b)) = some (pos (a / suc b))
quotient (pos a) (negsuc b) = some (negate (a / suc b))
quotient (negsuc a) (pos (suc b)) = some (negate (suc a / suc b))
quotient (negsuc a) (negsuc b) = some (pos (suc a / suc b))

pub data Build : Type 0 where
  checked wrapping : Build

-- `None`, `Some` of a literal, or a panic of the compiler.
pub data Folded : Type 0 where
  kept : Folded
  folded : Literal → Folded
  panicked : Folded

unfoldable pub overflowed : Build → ℤ → Folded
overflowed checked z = panicked
overflowed wrapping z = folded (Literal.int (to_string (of_bits i64_half (to_bits i64_half z))))

unfoldable pub int_result : Build → ℤ → Folded
int_result build z =
    if fits i64_half z then folded (Literal.int (to_string z)) else overflowed build z

unfoldable pub div_result : Option ℤ → Folded
div_result none = panicked
div_result (some z) = if fits i64_half z then folded (Literal.int (to_string z)) else panicked

-- The operators on two integers that were parsed; `kept` stands for the arms of other operators.
unfoldable pub arith_fold : Build → BinaryOp → Option ℤ → Option ℤ → Folded
arith_fold build BinaryOp.add (some x) (some y) = int_result build (add x y)
arith_fold build BinaryOp.sub (some x) (some y) = int_result build (sub x y)
arith_fold build BinaryOp.mul (some x) (some y) = int_result build (mul x y)
arith_fold build BinaryOp.div (some x) (some y) = div_result (quotient x y)
arith_fold build _ _ _ = kept

unfoldable pub same_bool : Bool → Bool → Bool
same_bool true b = b
same_bool false b = not b

unfoldable pub fold_ints : Build → BinaryOp → List ℕ → List ℕ → Folded
fold_ints build BinaryOp.eq s t = folded (Literal.bool (same_name s t))
fold_ints build BinaryOp.ne s t = folded (Literal.bool (not (same_name s t)))
fold_ints build op s t = arith_fold build op (parse_i64 s) (parse_i64 t)

unfoldable pub fold_bools : BinaryOp → Bool → Bool → Folded
fold_bools BinaryOp.eq x y = folded (Literal.bool (same_bool x y))
fold_bools BinaryOp.ne x y = folded (Literal.bool (not (same_bool x y)))
fold_bools _ x y = kept

unfoldable pub fold_binary : Build → BinaryOp → Literal → Literal → Folded
fold_binary build op (Literal.int s) (Literal.int t) = fold_ints build op s t
fold_binary build op (Literal.bool x) (Literal.bool y) = fold_bools op x y
fold_binary build op _ _ = kept

unfoldable pub fold_unary : UnaryOp → Literal → Option Literal
fold_unary UnaryOp.not (Literal.bool b) = some (Literal.bool (not b))
fold_unary UnaryOp.negative (Literal.int s) = some (Literal.int (b'-' ∷ s))
fold_unary UnaryOp.positive (Literal.int s) = some (Literal.int s)
fold_unary _ _ = none

-- The literals of a block's constants; a later entry is in front.
unfoldable pub constants : List (ℕ × Literal) → List (ℕ × Instr) → List (ℕ × Literal)
constants consts [] = consts
constants consts ((out, Instr.const literal) ∷ rest) = constants ((out, literal) ∷ consts) rest
constants consts ((out, _) ∷ rest) = constants consts rest

unfoldable pub find_const : List (ℕ × Literal) → ℕ → Option Literal
find_const [] id = none
find_const ((k, literal) ∷ consts) id = if k == id then some literal else find_const consts id

unfoldable pub as_const_ref : List (ℕ × Literal) → ValueRef → Option Literal
as_const_ref consts (value id) = find_const consts id
as_const_ref consts (param id) = none

-- The instruction that replaces `instr`; `none` is a panic.
unfoldable pub replaced : Instr → Folded → Option Instr
replaced instr kept = some instr
replaced instr (folded literal) = some (Instr.const literal)
replaced instr panicked = none

unfoldable pub replaced_unary : Instr → Option Literal → Option Instr
replaced_unary instr none = some instr
replaced_unary instr (some literal) = some (Instr.const literal)

unfoldable pub fold_operands : Build → BinaryOp → Option Literal → Option Literal → Folded
fold_operands build op (some left) (some right) = fold_binary build op left right
fold_operands build op _ _ = kept

unfoldable pub fold_instr : Build → List (ℕ × Literal) → Instr → Option Instr
fold_instr build consts (Instr.unary op v) =
    replaced_unary (Instr.unary op v) (as_const_ref consts v >>=? λ literal. fold_unary op literal)
fold_instr build consts (Instr.binary op left right) =
    replaced (Instr.binary op left right)
      (fold_operands build op (as_const_ref consts left) (as_const_ref consts right))
fold_instr build consts instr = some instr

unfoldable pub fold_instrs :
    Build → List (ℕ × Literal) → List (ℕ × Instr) → Option (List (ℕ × Instr))
fold_instrs build consts [] = some []
fold_instrs build consts ((out, instr) ∷ rest) = fold_instr build consts instr >>=? λ new.
    fold_instrs build consts rest >>=? λ more. some ((out, new) ∷ more)

unfoldable pub const_fold_block : Build → BasicBlock → Option BasicBlock
const_fold_block build bb = fold_instrs build (constants [] bb.instrs) bb.instrs >>=? λ instrs.
    some (record bb { instrs = instrs })

unfoldable pub const_fold_blocks : Build → List (ℕ × BasicBlock) → Option (List (ℕ × BasicBlock))
const_fold_blocks build [] = some []
const_fold_blocks build ((id, bb) ∷ blocks) = const_fold_block build bb >>=? λ new.
    const_fold_blocks build blocks >>=? λ more. some ((id, new) ∷ more)

-- `none` is a panic.
unfoldable pub const_fold : Build → FunctionIr → Option FunctionIr
const_fold build fir =
    const_fold_blocks build fir.blocks >>=? λ blocks. some (record fir { blocks = blocks })
