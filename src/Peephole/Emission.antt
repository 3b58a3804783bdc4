-- ===== src/Peephole/Emission.antt =====
-- The emission of a call: a placeholder and its patch (`emit_instr_stackified` of
-- codegen/ir_codegen/builder.rs, for calls of functions of a package, a contract or a struct).
use neo_lang.Prelude.{
  All-append, ℕ, zero, suc, ◌+◌, ◌<◌, ◌≡◌, ◌≢◌, refl, ap, ◌∙◌, some, List, [], ◌∷◌, ◌++◌, arith,
  length, get_elem?, All, replicate, get_elem?-append, lt-get_elem?,
}
use neo_lang.OpCode.{OpCode}
use neo_lang.Instruction.{Instruction, instruction}
use neo_lang.Builder.{push, emit_call_l_placeholder}
use neo_lang.Link.Lands.{SitesDistinct}
use neo_lang.Peephole.Slots.{Patch}
use neo_lang.Peephole.Passes.{Code}
use neo_lang.Peephole.Calls.{PointsAtCall, CallsPatched}

-- `emit_call_l_placeholder` and the push of the index with the name.
unfoldable pub emit_call : Code → List ℕ → Code
emit_call c name =
    let (b, index) = emit_call_l_placeholder c.inst in
    record { inst = b; patches = c.patches ++ (index, name) ∷ [] }

get_elem?_in_front :
    (xs ys : List Instruction) (k : ℕ) (i : Instruction)
    → get_elem? xs k ≡ some i
    → get_elem? (xs ++ ys) k ≡ some i
get_elem?_in_front [] ys k i h = absurd (cc)
get_elem?_in_front (x ∷ xs) ys zero i h = h
get_elem?_in_front (x ∷ xs) ys (suc k) i h = get_elem?_in_front xs ys k i h

-- Instructions behind the code leave its calls where they are.
CallsPatched-in_front :
    (is more : List Instruction) (ps : List Patch)
    → All (PointsAtCall is) ps
    → All (PointsAtCall (is ++ more)) ps
CallsPatched-in_front is more [] h = tt
CallsPatched-in_front is more (p ∷ ps) h = (
  record {
    site = h.0.site;
    at_index = get_elem?_in_front is more p.0 h.0.site h.0.at_index;
    is_call_l = h.0.is_call_l;
    four = h.0.four;
  },
  CallsPatched-in_front is more ps h.1,
)

placed_last :
    (is : List Instruction) (name : List ℕ)
    → PointsAtCall (push is (instruction OpCode.call_l (replicate 4 0))) (length is, name)
unfolding push
placed_last is name =
    let i = instruction OpCode.call_l (replicate 4 0) in
    let at_end : length is ≡ length is + 0 = omega arith in
    record {
      site = i;
      at_index = ap (get_elem? (is ++ i ∷ [])) at_end ∙ get_elem?-append {0} is (i ∷ []) 0;
      is_call_l = refl;
      four = refl;
    }

apart_behind :
    (ps : List Patch) (k n : ℕ) (name : List ℕ)
    → All (λ q. q.0 ≢ k) ps
    → k < n
    → All (λ q. q.0 ≢ k) (ps ++ (n, name) ∷ [])
apart_behind [] k n name h less = (λ same. absurd (omega arith), tt)
apart_behind (p ∷ ps) k n name h less = (h.0, apart_behind ps k n name h.1 less)

SitesDistinct-behind :
    (is : List Instruction) (ps : List Patch) (name : List ℕ)
    → All (PointsAtCall is) ps
    → SitesDistinct ps
    → SitesDistinct (ps ++ (length is, name) ∷ [])
SitesDistinct-behind is [] name h d = (tt, tt)
SitesDistinct-behind is (p ∷ ps) name h d = (
  apart_behind ps p.0 (length is) name d.0 (lt-get_elem? is p.0 h.0.at_index),
  SitesDistinct-behind is ps name h.1 d.1,
)

-- Where the patches point at `CALL_L` instructions with four operand bytes, no two of them at the
-- same one, the same holds when a call has been emitted, and the patches that are there still point
-- at such instructions when any instruction has been pushed.
pub emit_call-SitesDistinct :
    (c : Code) (name : List ℕ) (i : Instruction)
    → CallsPatched c
    → SitesDistinct c.patches
    → (CallsPatched (emit_call c name) × SitesDistinct (emit_call c name).patches)
      × CallsPatched (record c { inst = push c.inst i })
unfolding emit_call emit_call_l_placeholder push
emit_call-SitesDistinct c name i h d = (
  (
    All-append _ c.patches ((length c.inst, name) ∷ [])
        (CallsPatched-in_front c.inst (instruction OpCode.call_l (replicate 4 0) ∷ []) c.patches h)
        (placed_last c.inst name, tt),
    SitesDistinct-behind c.inst c.patches name h d,
  ),
  CallsPatched-in_front c.inst (i ∷ []) c.patches h,
)
