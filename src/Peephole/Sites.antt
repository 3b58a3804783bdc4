-- ===== src/Peephole/Sites.antt =====
-- The instructions that the patches name: no two patches name the same one, from the emission of the
-- calls (Peephole.Emission) through the optimizer (codegen/opt.rs).
use neo_lang.Prelude.{
  ℕ, zero, suc, ◌≡◌, ◌≢◌, refl, ap, ◌∙◌, some, List, [], ◌∷◌, arith, get_elem?, All,
}
use neo_lang.OpCode.{OpCode, ◌==op◌, byte}
use neo_lang.Instruction.{Instruction}
use neo_lang.Link.Lands.{SitesDistinct}
use neo_lang.Peephole.Slots.{Patch}
use neo_lang.Peephole.Passes.{Code, optimize}
use neo_lang.Peephole.Counts.{one_call, calls_before}
use neo_lang.Peephole.Calls.{PointsAtCall, CallsPatched, called}
use neo_lang.Peephole.Ends.{optimize_ends}

one_call_l : (op : OpCode) → op ≡ OpCode.call_l → one_call op ≡ 1
unfolding one_call ◌==op◌ byte
one_call_l op call = rw call refl

-- Two `CALL_L` instructions with as many of them in front are the same one.
calls_before-injective :
    (is : List Instruction) (j k : ℕ) (a b : Instruction)
    → get_elem? is j ≡ some a
    → get_elem? is k ≡ some b
    → a.opcode ≡ OpCode.call_l
    → b.opcode ≡ OpCode.call_l
    → calls_before is j ≡ calls_before is k
    → j ≡ k
unfolding calls_before
calls_before-injective [] j k a b at_j at_k ca cb same = absurd (cc)
calls_before-injective (i ∷ is) zero zero a b at_j at_k ca cb same = refl
calls_before-injective (i ∷ is) zero (suc k) a b at_j at_k ca cb same =
    let is_a : i ≡ a = cc in
    let one = one_call_l i.opcode (ap (λ t. t.opcode) is_a ∙ ca) in
    absurd (omega (arith, one, same))
calls_before-injective (i ∷ is) (suc j) zero a b at_j at_k ca cb same =
    let is_b : i ≡ b = cc in
    let one = one_call_l i.opcode (ap (λ t. t.opcode) is_b ∙ cb) in
    absurd (omega (arith, one, same))
calls_before-injective (i ∷ is) (suc j) (suc k) a b at_j at_k ca cb same =
    ap suc (calls_before-injective is j k a b at_j at_k ca cb (omega (arith, same)))

called-apart :
    (is : List Instruction) (p : Patch) (ps : List Patch)
    → PointsAtCall is p
    → All (PointsAtCall is) ps
    → All (λ q. q.0 ≢ p.0) ps
    → All (λ m. m.0 ≢ calls_before is p.0) (called is ps)
called-apart is p [] s h apart = tt
called-apart is p (q ∷ ps) s h apart = (
  λ same. apart.0 (
      calls_before-injective is q.0 p.0 h.0.site s.site h.0.at_index s.at_index h.0.is_call_l
        s.is_call_l same),
  called-apart is p ps s h.1 apart.1,
)

apart-called :
    (is : List Instruction) (p : Patch) (ps : List Patch)
    → All (λ m. m.0 ≢ calls_before is p.0) (called is ps)
    → All (λ q. q.0 ≢ p.0) ps
apart-called is p [] h = tt
apart-called is p (q ∷ ps) h = (λ same. h.0 (ap (calls_before is) same), apart-called is p ps h.1)

called-SitesDistinct :
    (is is' : List Instruction) (ps ps' : List Patch)
    → All (PointsAtCall is) ps
    → called is' ps' ≡ called is ps
    → SitesDistinct ps
    → SitesDistinct ps'
called-SitesDistinct is is' [] [] h same d = tt
called-SitesDistinct is is' [] (p' ∷ ps') h same d = absurd (cc)
called-SitesDistinct is is' (p ∷ ps) [] h same d = tt
called-SitesDistinct is is' (p ∷ ps) (p' ∷ ps') h same d =
    let head : calls_before is' p'.0 ≡ calls_before is p.0 = cc in
    let rest : called is' ps' ≡ called is ps = cc in
    let apart = called-apart is p ps h.0 h.1 d.0 in
    (
      apart-called is' p' ps' (rw (head, rest) apart),
      called-SitesDistinct is is' ps ps' h.1 rest d.1,
    )

-- On every function whose patches point at `CALL_L` instructions with four operand bytes, no two of
-- them at the same one, the optimizer ends, and the same holds of its result.
pub optimize-SitesDistinct :
    (c : Code)
    → CallsPatched c
    → SitesDistinct c.patches
    → (c' : Code) × (optimize c ≡ some c') × CallsPatched c' × SitesDistinct c'.patches
optimize-SitesDistinct c h d =
    let (c', e, patched, same, _) = optimize_ends c h in
    (c', e, patched, called-SitesDistinct c.inst c'.inst c.patches c'.patches h same d)
