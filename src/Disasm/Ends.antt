-- ===== src/Disasm/Ends.antt =====
-- The loop of the disassembler ends: its fuel is enough for every script.
use neo_lang.Prelude.{
  ℕ, zero, suc, ◌+◌, ◌-◌, ◌<◌, ◌≡◌, ◌≢◌, ◌⊎◌, inl, inr, refl, ap, ◌∙◌, sym, List, [], ◌∷◌, ◌++◌,
  arith, length, Option, some, none, Result, ok, err, ◌>>=◌, >>=-eq-ok, Bool-cases, ltb, ltb→lt,
  leb, get_elem?,
}
use neo_lang.OpCode.{OpCode}
use neo_lang.OpCode.TryFrom.{TryFromPrimitive}
use neo_lang.Instruction.{Instruction, encode}
use neo_lang.Disasm.{
  DisasmError, stuck, need, fixed, counted, operand_len, decode_op, decode_at, decode_one,
  decode_loop, decode_script,
}
use neo_lang.Disasm.Shapes.{Shape, bare, plain, prefixed, shape, by_shape, operand_len-by_shape}
use neo_lang.Disasm.RoundTrip.{encode-decode_script}

-- A chain whose parts have fuel enough.
bind_ends :
    {A B : Type 0} (m : Result DisasmError A) (f : A → Result DisasmError B)
    → m ≢ err stuck
    → ((a : A) → m ≡ ok a → f a ≢ err stuck)
    → (m >>= f) ≢ err stuck
bind_ends (err e) f h k bad = h (let same : e ≡ stuck = cc in ap err same)
bind_ends (ok a) f h k bad = k a refl bad

need_ends : (bytes : List ℕ) (start n : ℕ) → need bytes start n ≢ err stuck
unfolding need
need_ends bytes start n h = elim (Bool-cases (leb (start + n) (length bytes))) [
  | inl e ↦ let h' = rw e at h in absurd (cc)
  | inr e ↦ let h' = rw e at h in absurd (cc)
]

by_shape_ends : (bytes : List ℕ) (ostart : ℕ) (s : Shape) → by_shape bytes ostart s ≢ err stuck
unfolding by_shape fixed counted
by_shape_ends bytes ostart bare h = absurd (cc)
by_shape_ends bytes ostart (plain n) h =
    bind_ends (need bytes ostart n) _ (need_ends bytes ostart n) (λ a e bad. cc) h
by_shape_ends bytes ostart (prefixed w) h =
    bind_ends (need bytes ostart w) _ (need_ends bytes ostart w)
      (λ a e. bind_ends (need bytes ostart _) _ (need_ends bytes ostart _) (λ b e2 bad. cc)) h

module _ (reader : TryFromPrimitive) (bytes : List ℕ) where
  decode_op_ends : (ip : ℕ) (o : Option OpCode) → decode_op reader bytes ip o ≢ err stuck
  unfolding decode_op
  decode_op_ends ip none h = absurd (cc)
  decode_op_ends ip (some op) h =
      bind_ends (operand_len bytes (ip + 1) op) _
        (λ bad.
          by_shape_ends bytes (ip + 1) (shape op)
            (sym (operand_len-by_shape bytes (ip + 1) op) ∙ bad))
        (λ n e bad. cc) h

  decode_at_ends : (ip : ℕ) (o : Option ℕ) → decode_at reader bytes ip o ≢ err stuck
  unfolding decode_at
  decode_at_ends ip none h = absurd (cc)
  decode_at_ends ip (some b) h = decode_op_ends ip (reader.try_from b) h

  decode_op-size :
      (ip : ℕ) (o : Option OpCode) (r : Instruction × ℕ)
      → decode_op reader bytes ip o ≡ ok r
      → 0 < r.1
  unfolding decode_op
  decode_op-size ip none r h = absurd (cc)
  decode_op-size ip (some op) r h =
      let (n, len, h') = >>=-eq-ok (operand_len bytes (ip + 1) op) _ h in
      let size : 1 + n ≡ r.1 = cc in omega (arith, size)

  decode_at-size :
      (ip : ℕ) (o : Option ℕ) (r : Instruction × ℕ) → decode_at reader bytes ip o ≡ ok r → 0 < r.1
  unfolding decode_at
  decode_at-size ip none r h = absurd (cc)
  decode_at-size ip (some b) r h = decode_op-size ip (reader.try_from b) r h

  decode_loop_ends :
      (fuel ip : ℕ) (out : List Instruction)
      → length bytes - ip < fuel
      → decode_loop reader fuel bytes ip out ≢ err stuck
  unfolding decode_loop decode_one
  decode_loop_ends zero ip out enough h = absurd (omega arith)
  decode_loop_ends (suc fuel) ip out enough h = elim (Bool-cases (ltb ip (length bytes))) [
    | inr e ↦ let h' = rw e at h in absurd (cc)
    | inl e ↦
        let lt = ltb→lt ip (length bytes) e in
        bind_ends (decode_one reader bytes ip) _ (decode_at_ends ip (get_elem? bytes ip))
          (λ r one.
            let size = decode_at-size ip (get_elem? bytes ip) r one in
            decode_loop_ends fuel (ip + r.1) (out ++ r.0 ∷ []) (omega arith))
          (rw e at h)
  ]

  -- Disassembling ends, with the instructions whose bytes the script consists of or with one of the
  -- errors of the source.
  pub decode_script_ends :
      ((is : List Instruction) × (decode_script reader bytes ≡ ok is) × (encode is ≡ bytes))
      ⊎ ((e : DisasmError) × (decode_script reader bytes ≡ err e) × (e ≢ stuck))
  decode_script_ends = cases (decode_script reader bytes) refl
    where
      cases :
          (r : Result DisasmError (List Instruction))
          → decode_script reader bytes ≡ r
          → ((is : List Instruction) × (decode_script reader bytes ≡ ok is) × (encode is ≡ bytes))
            ⊎ ((e : DisasmError) × (decode_script reader bytes ≡ err e) × (e ≢ stuck))
      cases (ok is) h = inl (is, h, encode-decode_script reader bytes is h)
      cases (err e) h = inr (
        e,
        h,
        λ same.
            decode_loop_ends (suc (length bytes)) 0 [] (omega arith)
              (unfold decode_script in (h ∙ ap err same)),
      )
