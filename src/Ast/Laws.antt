-- ===== src/Ast/Laws.antt =====
-- What the operators and the comparisons with null of the syntax tree promise.
use neo_lang.Prelude.{
  subst, Option-cases, ◌↔◌, Bool, false, ◌≡◌, refl, true, some, Bool-cases, inl, inr,
}
use mathlib.Core.Option.{some-injective}
use neo_lang.Ast.{
  Expr, Literal, null_operand, null_compare, eq_null, is_null_literal, null_equality_compare,
  AssignOp, BinaryOp, to_binary_op, binary_op_code, assign_op_code,
}

-- A compound assignment computes with the opcode of its binary operator.
pub assign_op_code-to_binary_op :
    (a : AssignOp) (b : BinaryOp) → to_binary_op a ≡ some b → assign_op_code a ≡ binary_op_code b
unfolding to_binary_op assign_op_code binary_op_code
assign_op_code-to_binary_op AssignOp.assign b h = absurd (cc)
assign_op_code-to_binary_op _ b h = let e = some-injective _ _ h in rw (← e) refl

-- The literal null, in any number of brackets.
pub data IsNull : Expr → Type 0 where
  bare : IsNull (Expr.literal Literal.null)
  bracketed : {inner : Expr} → IsNull inner → IsNull (Expr.paren inner)

-- The operator is `==`, or `!=` where the flag is false.
pub data Compares : BinaryOp → Bool → Type 0 where
  equal : Compares BinaryOp.eq true
  unequal : Compares BinaryOp.ne false

-- What a comparison with null is: `==` or `!=` of null and the operand, or of the operand and null
-- where the operand is not null itself.
pub data ComparesWithNull : Expr → Expr → Bool → Type 0 where
  null_left :
      {op : BinaryOp} {left right : Expr} {is_eq : Bool}
      → Compares op is_eq
      → IsNull left
      → ComparesWithNull (Expr.binary op left right) right is_eq
  null_right :
      {op : BinaryOp} {left right : Expr} {is_eq : Bool}
      → Compares op is_eq
      → ¬ IsNull left
      → IsNull right
      → ComparesWithNull (Expr.binary op left right) left is_eq

literal-IsNull : (l : Literal) → is_null_literal (Expr.literal l) ≡ true → IsNull (Expr.literal l)
unfolding is_null_literal
literal-IsNull Literal.null h = bare
literal-IsNull (Literal.int t) h = absurd (cc)
literal-IsNull _ h = absurd (cc)

is_null_literal-IsNull : (e : Expr) → is_null_literal e ≡ true → IsNull e
unfolding is_null_literal
is_null_literal-IsNull (Expr.literal l) h = literal-IsNull l h
is_null_literal-IsNull (Expr.paren inner) h = bracketed (is_null_literal-IsNull inner h)
is_null_literal-IsNull (Expr.ident name) h = absurd (cc)
is_null_literal-IsNull _ h = absurd (cc)

IsNull-is_null_literal : {e : Expr} → IsNull e → is_null_literal e ≡ true
unfolding is_null_literal
IsNull-is_null_literal bare = refl
IsNull-is_null_literal (bracketed n) = IsNull-is_null_literal n

eq_null-Compares : (op : BinaryOp) (is_eq : Bool) → eq_null op ≡ some is_eq → Compares op is_eq
unfolding eq_null
eq_null-Compares BinaryOp.eq true h = equal
eq_null-Compares BinaryOp.eq false h = absurd (cc)
eq_null-Compares BinaryOp.ne false h = unequal
eq_null-Compares BinaryOp.ne true h = absurd (cc)
eq_null-Compares BinaryOp.lt is_eq h = absurd (cc)
eq_null-Compares _ is_eq h = absurd (cc)

Compares-eq_null : {op : BinaryOp} {is_eq : Bool} → Compares op is_eq → eq_null op ≡ some is_eq
unfolding eq_null
Compares-eq_null equal = refl
Compares-eq_null unequal = refl

null_operand-finds :
    (op : BinaryOp) (left right operand : Expr) (b is_eq : Bool)
    → Compares op b
    → null_operand left right b ≡ some (operand, is_eq)
    → ComparesWithNull (Expr.binary op left right) operand is_eq
unfolding null_operand
null_operand-finds op left right operand b is_eq c h = elim (Bool-cases (is_null_literal left)) [
  | inl e ↦
      let h' = some-injective (right, b) (operand, is_eq) (rw e at h) in
      subst (λ (q : Expr × Bool). ComparesWithNull (Expr.binary op left right) q.0 q.1) h'
        (null_left c (is_null_literal-IsNull left e))
  | inr e ↦ elim (Bool-cases (is_null_literal right)) [
    | inl e' ↦
        let h' = some-injective (left, b) (operand, is_eq) (rw (e, e') at h) in
        subst (λ (q : Expr × Bool). ComparesWithNull (Expr.binary op left right) q.0 q.1) h'
          (null_right c (λ n. let e2 = IsNull-is_null_literal n in absurd (cc))
            (is_null_literal-IsNull right e'))
    | inr e' ↦ let h' = rw (e, e') at h in absurd (cc)
  ]
]

null_compare-finds :
    (op : BinaryOp) (left right operand : Expr) (is_eq : Bool)
    → null_compare (eq_null op) left right ≡ some (operand, is_eq)
    → ComparesWithNull (Expr.binary op left right) operand is_eq
unfolding null_compare
null_compare-finds op left right operand is_eq h = elim (Option-cases (eq_null op)) [
  | inl e ↦ let h' = rw e at h in absurd (cc)
  | inr (b, e) ↦
      null_operand-finds op left right operand b is_eq (eq_null-Compares op b e) (rw e at h)
]

finds-ComparesWithNull :
    (e operand : Expr) (is_eq : Bool)
    → null_equality_compare e ≡ some (operand, is_eq)
    → ComparesWithNull e operand is_eq
unfolding null_equality_compare
finds-ComparesWithNull (Expr.binary op left right) operand is_eq h =
    null_compare-finds op left right operand is_eq h
finds-ComparesWithNull (Expr.literal l) operand is_eq h = absurd (cc)
finds-ComparesWithNull _ operand is_eq h = absurd (cc)

ComparesWithNull-finds :
    {e operand : Expr} {is_eq : Bool}
    → ComparesWithNull e operand is_eq
    → null_equality_compare e ≡ some (operand, is_eq)
unfolding null_equality_compare null_compare null_operand
ComparesWithNull-finds (null_left c n) =
    rw (Compares-eq_null c) (rw (IsNull-is_null_literal n) refl)
ComparesWithNull-finds (null_right {op} {left} {right} c l n) =
    let no : is_null_literal left ≡ false = elim (Bool-cases (is_null_literal left)) [
      | inl e ↦ absurd (l (is_null_literal-IsNull left e))
      | inr e ↦ e
    ] in
    rw (Compares-eq_null c) (rw (no, IsNull-is_null_literal n) refl)

-- An expression is found to compare an operand with null exactly when it is an `==` or, with the
-- flag false, a `!=` of the literal null, in brackets or not, and the operand, or of the operand and
-- null where the operand is not null itself.
pub null_equality_compare_iff :
    (e operand : Expr) (is_eq : Bool)
    → (null_equality_compare e ≡ some (operand, is_eq)) ↔ ComparesWithNull e operand is_eq
null_equality_compare_iff e operand is_eq =
    (finds-ComparesWithNull e operand is_eq, ComparesWithNull-finds)
