-- ===== src/Cost.antt =====
-- The prices of the opcodes (neo-compiler/src/target/cost.rs).
use neo_lang.Prelude.{ℕ, ◌^◌, ◌≡◌, ap, sym, Option, some}
use neo_lang.OpCode.{OpCode}
use neo_lang.Peephole.Passes.{long_pc_branch_to_short_opcode}

-- `none` is a key that is not in the table.
unfoldable pub opcode_cost : OpCode → Option ℕ
opcode_cost OpCode.pushint8 = some (2 ^ 0)
opcode_cost OpCode.pushint16 = some (2 ^ 0)
opcode_cost OpCode.pushint32 = some (2 ^ 0)
opcode_cost OpCode.pushint64 = some (2 ^ 0)
opcode_cost OpCode.pushint128 = some (2 ^ 2)
opcode_cost OpCode.pushint256 = some (2 ^ 2)
opcode_cost OpCode.pusht = some (2 ^ 0)
opcode_cost OpCode.pushf = some (2 ^ 0)
opcode_cost OpCode.pusha = some (2 ^ 2)
opcode_cost OpCode.pushnull = some (2 ^ 0)
opcode_cost OpCode.pushdata1 = some (2 ^ 3)
opcode_cost OpCode.pushdata2 = some (2 ^ 9)
opcode_cost OpCode.pushdata4 = some (2 ^ 12)
opcode_cost OpCode.pushm1 = some (2 ^ 0)
opcode_cost OpCode.push0 = some (2 ^ 0)
opcode_cost OpCode.push1 = some (2 ^ 0)
opcode_cost OpCode.push2 = some (2 ^ 0)
opcode_cost OpCode.push3 = some (2 ^ 0)
opcode_cost OpCode.push4 = some (2 ^ 0)
opcode_cost OpCode.push5 = some (2 ^ 0)
opcode_cost OpCode.push6 = some (2 ^ 0)
opcode_cost OpCode.push7 = some (2 ^ 0)
opcode_cost OpCode.push8 = some (2 ^ 0)
opcode_cost OpCode.push9 = some (2 ^ 0)
opcode_cost OpCode.push10 = some (2 ^ 0)
opcode_cost OpCode.push11 = some (2 ^ 0)
opcode_cost OpCode.push12 = some (2 ^ 0)
opcode_cost OpCode.push13 = some (2 ^ 0)
opcode_cost OpCode.push14 = some (2 ^ 0)
opcode_cost OpCode.push15 = some (2 ^ 0)
opcode_cost OpCode.push16 = some (2 ^ 0)
opcode_cost OpCode.nop = some (2 ^ 0)
opcode_cost OpCode.jmp = some (2 ^ 1)
opcode_cost OpCode.jmp_l = some (2 ^ 1)
opcode_cost OpCode.jmpif = some (2 ^ 1)
opcode_cost OpCode.jmpif_l = some (2 ^ 1)
opcode_cost OpCode.jmpifnot = some (2 ^ 1)
opcode_cost OpCode.jmpifnot_l = some (2 ^ 1)
opcode_cost OpCode.jmpeq = some (2 ^ 1)
opcode_cost OpCode.jmpeq_l = some (2 ^ 1)
opcode_cost OpCode.jmpne = some (2 ^ 1)
opcode_cost OpCode.jmpne_l = some (2 ^ 1)
opcode_cost OpCode.jmpgt = some (2 ^ 1)
opcode_cost OpCode.jmpgt_l = some (2 ^ 1)
opcode_cost OpCode.jmpge = some (2 ^ 1)
opcode_cost OpCode.jmpge_l = some (2 ^ 1)
opcode_cost OpCode.jmplt = some (2 ^ 1)
opcode_cost OpCode.jmplt_l = some (2 ^ 1)
opcode_cost OpCode.jmple = some (2 ^ 1)
opcode_cost OpCode.jmple_l = some (2 ^ 1)
opcode_cost OpCode.call = some (2 ^ 9)
opcode_cost OpCode.call_l = some (2 ^ 9)
opcode_cost OpCode.calla = some (2 ^ 9)
opcode_cost OpCode.callt = some (2 ^ 15)
opcode_cost OpCode.abort = some 0
opcode_cost OpCode.abortmsg = some 0
opcode_cost OpCode.assert = some (2 ^ 0)
opcode_cost OpCode.assertmsg = some (2 ^ 0)
opcode_cost OpCode.throw = some (2 ^ 9)
opcode_cost OpCode.try = some (2 ^ 2)
opcode_cost OpCode.try_l = some (2 ^ 2)
opcode_cost OpCode.endtry = some (2 ^ 2)
opcode_cost OpCode.endtry_l = some (2 ^ 2)
opcode_cost OpCode.endfinally = some (2 ^ 2)
opcode_cost OpCode.ret = some 0
opcode_cost OpCode.syscall = some 0
opcode_cost OpCode.depth = some (2 ^ 1)
opcode_cost OpCode.drop = some (2 ^ 1)
opcode_cost OpCode.nip = some (2 ^ 1)
opcode_cost OpCode.xdrop = some (2 ^ 4)
opcode_cost OpCode.clear = some (2 ^ 4)
opcode_cost OpCode.dup = some (2 ^ 1)
opcode_cost OpCode.over = some (2 ^ 1)
opcode_cost OpCode.pick = some (2 ^ 1)
opcode_cost OpCode.tuck = some (2 ^ 1)
opcode_cost OpCode.swap = some (2 ^ 1)
opcode_cost OpCode.rot = some (2 ^ 1)
opcode_cost OpCode.roll = some (2 ^ 4)
opcode_cost OpCode.reverse3 = some (2 ^ 1)
opcode_cost OpCode.reverse4 = some (2 ^ 1)
opcode_cost OpCode.reversen = some (2 ^ 4)
opcode_cost OpCode.initsslot = some (2 ^ 4)
opcode_cost OpCode.initslot = some (2 ^ 6)
opcode_cost OpCode.ldsfld0 = some (2 ^ 1)
opcode_cost OpCode.ldsfld1 = some (2 ^ 1)
opcode_cost OpCode.ldsfld2 = some (2 ^ 1)
opcode_cost OpCode.ldsfld3 = some (2 ^ 1)
opcode_cost OpCode.ldsfld4 = some (2 ^ 1)
opcode_cost OpCode.ldsfld5 = some (2 ^ 1)
opcode_cost OpCode.ldsfld6 = some (2 ^ 1)
opcode_cost OpCode.ldsfld = some (2 ^ 1)
opcode_cost OpCode.stsfld0 = some (2 ^ 1)
opcode_cost OpCode.stsfld1 = some (2 ^ 1)
opcode_cost OpCode.stsfld2 = some (2 ^ 1)
opcode_cost OpCode.stsfld3 = some (2 ^ 1)
opcode_cost OpCode.stsfld4 = some (2 ^ 1)
opcode_cost OpCode.stsfld5 = some (2 ^ 1)
opcode_cost OpCode.stsfld6 = some (2 ^ 1)
opcode_cost OpCode.stsfld = some (2 ^ 1)
opcode_cost OpCode.ldloc0 = some (2 ^ 1)
opcode_cost OpCode.ldloc1 = some (2 ^ 1)
opcode_cost OpCode.ldloc2 = some (2 ^ 1)
opcode_cost OpCode.ldloc3 = some (2 ^ 1)
opcode_cost OpCode.ldloc4 = some (2 ^ 1)
opcode_cost OpCode.ldloc5 = some (2 ^ 1)
opcode_cost OpCode.ldloc6 = some (2 ^ 1)
opcode_cost OpCode.ldloc = some (2 ^ 1)
opcode_cost OpCode.stloc0 = some (2 ^ 1)
opcode_cost OpCode.stloc1 = some (2 ^ 1)
opcode_cost OpCode.stloc2 = some (2 ^ 1)
opcode_cost OpCode.stloc3 = some (2 ^ 1)
opcode_cost OpCode.stloc4 = some (2 ^ 1)
opcode_cost OpCode.stloc5 = some (2 ^ 1)
opcode_cost OpCode.stloc6 = some (2 ^ 1)
opcode_cost OpCode.stloc = some (2 ^ 1)
opcode_cost OpCode.ldarg0 = some (2 ^ 1)
opcode_cost OpCode.ldarg1 = some (2 ^ 1)
opcode_cost OpCode.ldarg2 = some (2 ^ 1)
opcode_cost OpCode.ldarg3 = some (2 ^ 1)
opcode_cost OpCode.ldarg4 = some (2 ^ 1)
opcode_cost OpCode.ldarg5 = some (2 ^ 1)
opcode_cost OpCode.ldarg6 = some (2 ^ 1)
opcode_cost OpCode.ldarg = some (2 ^ 1)
opcode_cost OpCode.starg0 = some (2 ^ 1)
opcode_cost OpCode.starg1 = some (2 ^ 1)
opcode_cost OpCode.starg2 = some (2 ^ 1)
opcode_cost OpCode.starg3 = some (2 ^ 1)
opcode_cost OpCode.starg4 = some (2 ^ 1)
opcode_cost OpCode.starg5 = some (2 ^ 1)
opcode_cost OpCode.starg6 = some (2 ^ 1)
opcode_cost OpCode.starg = some (2 ^ 1)
opcode_cost OpCode.newbuffer = some (2 ^ 8)
opcode_cost OpCode.memcpy = some (2 ^ 11)
opcode_cost OpCode.cat = some (2 ^ 11)
opcode_cost OpCode.substr = some (2 ^ 11)
opcode_cost OpCode.left = some (2 ^ 11)
opcode_cost OpCode.right = some (2 ^ 11)
opcode_cost OpCode.invert = some (2 ^ 2)
opcode_cost OpCode.and = some (2 ^ 3)
opcode_cost OpCode.or = some (2 ^ 3)
opcode_cost OpCode.xor = some (2 ^ 3)
opcode_cost OpCode.equal = some (2 ^ 5)
opcode_cost OpCode.notequal = some (2 ^ 5)
opcode_cost OpCode.sign = some (2 ^ 2)
opcode_cost OpCode.abs = some (2 ^ 2)
opcode_cost OpCode.negate = some (2 ^ 2)
opcode_cost OpCode.inc = some (2 ^ 2)
opcode_cost OpCode.dec = some (2 ^ 2)
opcode_cost OpCode.add = some (2 ^ 3)
opcode_cost OpCode.sub = some (2 ^ 3)
opcode_cost OpCode.mul = some (2 ^ 3)
opcode_cost OpCode.div = some (2 ^ 3)
opcode_cost OpCode.mod_op = some (2 ^ 3)
opcode_cost OpCode.pow = some (2 ^ 6)
opcode_cost OpCode.sqrt = some (2 ^ 6)
opcode_cost OpCode.modmul = some (2 ^ 5)
opcode_cost OpCode.modpow = some (2 ^ 11)
opcode_cost OpCode.shl = some (2 ^ 3)
opcode_cost OpCode.shr = some (2 ^ 3)
opcode_cost OpCode.not = some (2 ^ 2)
opcode_cost OpCode.booland = some (2 ^ 3)
opcode_cost OpCode.boolor = some (2 ^ 3)
opcode_cost OpCode.nz = some (2 ^ 2)
opcode_cost OpCode.numequal = some (2 ^ 3)
opcode_cost OpCode.numnotequal = some (2 ^ 3)
opcode_cost OpCode.lt = some (2 ^ 3)
opcode_cost OpCode.le = some (2 ^ 3)
opcode_cost OpCode.gt = some (2 ^ 3)
opcode_cost OpCode.ge = some (2 ^ 3)
opcode_cost OpCode.min = some (2 ^ 3)
opcode_cost OpCode.max = some (2 ^ 3)
opcode_cost OpCode.within = some (2 ^ 3)
opcode_cost OpCode.packmap = some (2 ^ 11)
opcode_cost OpCode.packstruct = some (2 ^ 11)
opcode_cost OpCode.pack = some (2 ^ 11)
opcode_cost OpCode.unpack = some (2 ^ 11)
opcode_cost OpCode.newarray0 = some (2 ^ 4)
opcode_cost OpCode.newarray = some (2 ^ 9)
opcode_cost OpCode.newarray_t = some (2 ^ 9)
opcode_cost OpCode.newstruct0 = some (2 ^ 4)
opcode_cost OpCode.newstruct = some (2 ^ 9)
opcode_cost OpCode.newmap = some (2 ^ 3)
opcode_cost OpCode.size = some (2 ^ 2)
opcode_cost OpCode.haskey = some (2 ^ 6)
opcode_cost OpCode.keys = some (2 ^ 4)
opcode_cost OpCode.values = some (2 ^ 13)
opcode_cost OpCode.pickitem = some (2 ^ 6)
opcode_cost OpCode.append = some (2 ^ 13)
opcode_cost OpCode.setitem = some (2 ^ 13)
opcode_cost OpCode.reverseitems = some (2 ^ 13)
opcode_cost OpCode.remove = some (2 ^ 4)
opcode_cost OpCode.clearitems = some (2 ^ 4)
opcode_cost OpCode.popitem = some (2 ^ 4)
opcode_cost OpCode.isnull = some (2 ^ 1)
opcode_cost OpCode.istype = some (2 ^ 1)
opcode_cost OpCode.convert = some (2 ^ 13)

-- The short form of a branch has the price of the long one.
pub opcode_cost-short :
    (op short : OpCode)
    → long_pc_branch_to_short_opcode op ≡ some short
    → opcode_cost short ≡ opcode_cost op
unfolding long_pc_branch_to_short_opcode opcode_cost
opcode_cost-short OpCode.jmp_l short h =
    let same : OpCode.jmp ≡ short = cc in ap opcode_cost (sym same)
opcode_cost-short OpCode.jmpif_l short h =
    let same : OpCode.jmpif ≡ short = cc in ap opcode_cost (sym same)
opcode_cost-short OpCode.jmpifnot_l short h =
    let same : OpCode.jmpifnot ≡ short = cc in ap opcode_cost (sym same)
opcode_cost-short OpCode.jmpeq_l short h =
    let same : OpCode.jmpeq ≡ short = cc in ap opcode_cost (sym same)
opcode_cost-short OpCode.jmpne_l short h =
    let same : OpCode.jmpne ≡ short = cc in ap opcode_cost (sym same)
opcode_cost-short OpCode.jmpgt_l short h =
    let same : OpCode.jmpgt ≡ short = cc in ap opcode_cost (sym same)
opcode_cost-short OpCode.jmpge_l short h =
    let same : OpCode.jmpge ≡ short = cc in ap opcode_cost (sym same)
opcode_cost-short OpCode.jmplt_l short h =
    let same : OpCode.jmplt ≡ short = cc in ap opcode_cost (sym same)
opcode_cost-short OpCode.jmple_l short h =
    let same : OpCode.jmple ≡ short = cc in ap opcode_cost (sym same)
opcode_cost-short OpCode.endtry_l short h =
    let same : OpCode.endtry ≡ short = cc in ap opcode_cost (sym same)
opcode_cost-short OpCode.pushint8 short h = cc
opcode_cost-short _ short h = cc
