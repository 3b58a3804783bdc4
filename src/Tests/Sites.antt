-- ===== src/Tests/Sites.antt =====
-- Concrete inputs of the theorems on the sites of the patches.
use neo_lang.Prelude.{◌≡◌, refl, some, [], ◌∷◌, arith}
use neo_lang.OpCode.{OpCode}
use neo_lang.Instruction.{Instruction, instruction}
use neo_lang.Builder.{push}
use neo_lang.Link.Lands.{SitesDistinct}
use neo_lang.Peephole.Passes.{Code, optimize}
use neo_lang.Peephole.Calls.{CallsPatched}
use neo_lang.Peephole.Sites.{optimize-SitesDistinct}
use neo_lang.Peephole.Emission.{emit_call, emit_call-SitesDistinct}

abbrev call : Instruction
call = instruction OpCode.call_l (0 ∷ 0 ∷ 0 ∷ 0 ∷ [])

-- Two calls with a pair between them that goes.
abbrev two_calls : Code
two_calls = record {
  inst = call ∷ instruction OpCode.dup [] ∷ instruction OpCode.drop [] ∷ call ∷ [];
  patches = (0, 0x66 ∷ []) ∷ (3, 0x67 ∷ []) ∷ [];
}

two_calls-CallsPatched : CallsPatched two_calls
two_calls-CallsPatched = (
  record { site = call; at_index = refl; is_call_l = refl; four = refl },
  (record { site = call; at_index = refl; is_call_l = refl; four = refl }, tt),
)

two_calls-SitesDistinct : SitesDistinct two_calls.patches
two_calls-SitesDistinct = ((λ e. absurd (omega (arith, e)), tt), (tt, tt))

optimize-SitesDistinct_example :
    (c' : Code) × (optimize two_calls ≡ some c') × CallsPatched c' × SitesDistinct c'.patches
optimize-SitesDistinct_example =
    optimize-SitesDistinct two_calls two_calls-CallsPatched two_calls-SitesDistinct

emit_call-SitesDistinct_example :
    (CallsPatched (emit_call two_calls (0x68 ∷ []))
      × SitesDistinct (emit_call two_calls (0x68 ∷ [])).patches)
    × CallsPatched (record two_calls { inst = push two_calls.inst (instruction OpCode.ret []) })
emit_call-SitesDistinct_example =
    emit_call-SitesDistinct two_calls (0x68 ∷ []) (instruction OpCode.ret []) two_calls-CallsPatched
      two_calls-SitesDistinct
