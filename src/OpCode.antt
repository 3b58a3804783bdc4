-- ===== src/OpCode.antt =====
-- The opcodes of the NeoVM and their bytes (neo-compiler/src/target/opcode.rs): the enum, its
-- discriminants, the comparison of opcodes and the classes of instructions that change the
-- program counter.
pub mod TryFrom
pub mod Classes
use neo_lang.Prelude.{ℕ, Bool, List, [], ◌∷◌, ◌==◌}

pub data OpCode : Type 0 where
  pushint8 pushint16 pushint32 pushint64 pushint128 pushint256 pusht pushf pusha : OpCode
  pushnull pushdata1 pushdata2 pushdata4 pushm1 push0 push1 push2 push3 push4 push5 : OpCode
  push6 push7 push8 push9 push10 push11 push12 push13 push14 push15 push16 nop jmp : OpCode
  jmp_l jmpif jmpif_l jmpifnot jmpifnot_l jmpeq jmpeq_l jmpne jmpne_l jmpgt jmpgt_l : OpCode
  jmpge jmpge_l jmplt jmplt_l jmple jmple_l call call_l calla callt abort assert throw : OpCode
  try try_l endtry endtry_l endfinally ret syscall depth drop nip xdrop clear dup over : OpCode
  pick tuck swap rot roll reverse3 reverse4 reversen initsslot initslot ldsfld0 ldsfld1 : OpCode
  ldsfld2 ldsfld3 ldsfld4 ldsfld5 ldsfld6 ldsfld stsfld0 stsfld1 stsfld2 stsfld3 : OpCode
  stsfld4 stsfld5 stsfld6 stsfld ldloc0 ldloc1 ldloc2 ldloc3 ldloc4 ldloc5 ldloc6 ldloc : OpCode
  stloc0 stloc1 stloc2 stloc3 stloc4 stloc5 stloc6 stloc ldarg0 ldarg1 ldarg2 ldarg3 : OpCode
  ldarg4 ldarg5 ldarg6 ldarg starg0 starg1 starg2 starg3 starg4 starg5 starg6 starg : OpCode
  newbuffer memcpy cat substr left right invert and or xor equal notequal sign abs : OpCode
  negate inc dec add sub mul div mod_op pow sqrt modmul modpow shl shr not booland : OpCode
  boolor nz numequal numnotequal lt le gt ge min max within packmap packstruct pack : OpCode
  unpack newarray0 newarray newarray_t newstruct0 newstruct newmap size haskey keys : OpCode
  values pickitem append setitem reverseitems remove clearitems popitem isnull istype : OpCode
  convert abortmsg assertmsg : OpCode

-- `op as u8`.
unfoldable pub byte : OpCode → ℕ
byte pushint8 = 0x00
byte pushint16 = 0x01
byte pushint32 = 0x02
byte pushint64 = 0x03
byte pushint128 = 0x04
byte pushint256 = 0x05
byte pusht = 0x08
byte pushf = 0x09
byte pusha = 0x0a
byte pushnull = 0x0b
byte pushdata1 = 0x0c
byte pushdata2 = 0x0d
byte pushdata4 = 0x0e
byte pushm1 = 0x0f
byte push0 = 0x10
byte push1 = 0x11
byte push2 = 0x12
byte push3 = 0x13
byte push4 = 0x14
byte push5 = 0x15
byte push6 = 0x16
byte push7 = 0x17
byte push8 = 0x18
byte push9 = 0x19
byte push10 = 0x1a
byte push11 = 0x1b
byte push12 = 0x1c
byte push13 = 0x1d
byte push14 = 0x1e
byte push15 = 0x1f
byte push16 = 0x20
byte nop = 0x21
byte jmp = 0x22
byte jmp_l = 0x23
byte jmpif = 0x24
byte jmpif_l = 0x25
byte jmpifnot = 0x26
byte jmpifnot_l = 0x27
byte jmpeq = 0x28
byte jmpeq_l = 0x29
byte jmpne = 0x2a
byte jmpne_l = 0x2b
byte jmpgt = 0x2c
byte jmpgt_l = 0x2d
byte jmpge = 0x2e
byte jmpge_l = 0x2f
byte jmplt = 0x30
byte jmplt_l = 0x31
byte jmple = 0x32
byte jmple_l = 0x33
byte call = 0x34
byte call_l = 0x35
byte calla = 0x36
byte callt = 0x37
byte abort = 0x38
byte assert = 0x39
byte throw = 0x3a
byte try = 0x3b
byte try_l = 0x3c
byte endtry = 0x3d
byte endtry_l = 0x3e
byte endfinally = 0x3f
byte ret = 0x40
byte syscall = 0x41
byte depth = 0x43
byte drop = 0x45
byte nip = 0x46
byte xdrop = 0x48
byte clear = 0x49
byte dup = 0x4a
byte over = 0x4b
byte pick = 0x4d
byte tuck = 0x4e
byte swap = 0x50
byte rot = 0x51
byte roll = 0x52
byte reverse3 = 0x53
byte reverse4 = 0x54
byte reversen = 0x55
byte initsslot = 0x56
byte initslot = 0x57
byte ldsfld0 = 0x58
byte ldsfld1 = 0x59
byte ldsfld2 = 0x5a
byte ldsfld3 = 0x5b
byte ldsfld4 = 0x5c
byte ldsfld5 = 0x5d
byte ldsfld6 = 0x5e
byte ldsfld = 0x5f
byte stsfld0 = 0x60
byte stsfld1 = 0x61
byte stsfld2 = 0x62
byte stsfld3 = 0x63
byte stsfld4 = 0x64
byte stsfld5 = 0x65
byte stsfld6 = 0x66
byte stsfld = 0x67
byte ldloc0 = 0x68
byte ldloc1 = 0x69
byte ldloc2 = 0x6a
byte ldloc3 = 0x6b
byte ldloc4 = 0x6c
byte ldloc5 = 0x6d
byte ldloc6 = 0x6e
byte ldloc = 0x6f
byte stloc0 = 0x70
byte stloc1 = 0x71
byte stloc2 = 0x72
byte stloc3 = 0x73
byte stloc4 = 0x74
byte stloc5 = 0x75
byte stloc6 = 0x76
byte stloc = 0x77
byte ldarg0 = 0x78
byte ldarg1 = 0x79
byte ldarg2 = 0x7a
byte ldarg3 = 0x7b
byte ldarg4 = 0x7c
byte ldarg5 = 0x7d
byte ldarg6 = 0x7e
byte ldarg = 0x7f
byte starg0 = 0x80
byte starg1 = 0x81
byte starg2 = 0x82
byte starg3 = 0x83
byte starg4 = 0x84
byte starg5 = 0x85
byte starg6 = 0x86
byte starg = 0x87
byte newbuffer = 0x88
byte memcpy = 0x89
byte cat = 0x8b
byte substr = 0x8c
byte left = 0x8d
byte right = 0x8e
byte invert = 0x90
byte and = 0x91
byte or = 0x92
byte xor = 0x93
byte equal = 0x97
byte notequal = 0x98
byte sign = 0x99
byte abs = 0x9a
byte negate = 0x9b
byte inc = 0x9c
byte dec = 0x9d
byte add = 0x9e
byte sub = 0x9f
byte mul = 0xa0
byte div = 0xa1
byte mod_op = 0xa2
byte pow = 0xa3
byte sqrt = 0xa4
byte modmul = 0xa5
byte modpow = 0xa6
byte shl = 0xa8
byte shr = 0xa9
byte not = 0xaa
byte booland = 0xab
byte boolor = 0xac
byte nz = 0xb1
byte numequal = 0xb3
byte numnotequal = 0xb4
byte lt = 0xb5
byte le = 0xb6
byte gt = 0xb7
byte ge = 0xb8
byte min = 0xb9
byte max = 0xba
byte within = 0xbb
byte packmap = 0xbe
byte packstruct = 0xbf
byte pack = 0xc0
byte unpack = 0xc1
byte newarray0 = 0xc2
byte newarray = 0xc3
byte newarray_t = 0xc4
byte newstruct0 = 0xc5
byte newstruct = 0xc6
byte newmap = 0xc8
byte size = 0xca
byte haskey = 0xcb
byte keys = 0xcc
byte values = 0xcd
byte pickitem = 0xce
byte append = 0xcf
byte setitem = 0xd0
byte reverseitems = 0xd1
byte remove = 0xd2
byte clearitems = 0xd3
byte popitem = 0xd4
byte isnull = 0xd8
byte istype = 0xd9
byte convert = 0xdb
byte abortmsg = 0xe0
byte assertmsg = 0xe1

-- `a == b` of the derived `PartialEq`: the discriminants are distinct.
infix 50 ◌==op◌
unfoldable pub ◌==op◌ : OpCode → OpCode → Bool
a ==op b = byte a == byte b

-- Every opcode, in the order of the bytes.
unfoldable pub all_opcodes : List OpCode
all_opcodes =
    pushint8 ∷ pushint16 ∷ pushint32 ∷ pushint64 ∷ pushint128 ∷ pushint256 ∷ pusht ∷ pushf ∷ pusha
    ∷ pushnull ∷ pushdata1 ∷ pushdata2 ∷ pushdata4 ∷ pushm1 ∷ push0 ∷ push1 ∷ push2 ∷ push3 ∷ push4
    ∷ push5 ∷ push6 ∷ push7 ∷ push8 ∷ push9 ∷ push10 ∷ push11 ∷ push12 ∷ push13 ∷ push14 ∷ push15
    ∷ push16 ∷ nop ∷ jmp ∷ jmp_l ∷ jmpif ∷ jmpif_l ∷ jmpifnot ∷ jmpifnot_l ∷ jmpeq ∷ jmpeq_l ∷ jmpne
    ∷ jmpne_l ∷ jmpgt ∷ jmpgt_l ∷ jmpge ∷ jmpge_l ∷ jmplt ∷ jmplt_l ∷ jmple ∷ jmple_l ∷ call
    ∷ call_l ∷ calla ∷ callt ∷ abort ∷ assert ∷ throw ∷ try ∷ try_l ∷ endtry ∷ endtry_l ∷ endfinally
    ∷ ret ∷ syscall ∷ depth ∷ drop ∷ nip ∷ xdrop ∷ clear ∷ dup ∷ over ∷ pick ∷ tuck ∷ swap ∷ rot
    ∷ roll ∷ reverse3 ∷ reverse4 ∷ reversen ∷ initsslot ∷ initslot ∷ ldsfld0 ∷ ldsfld1 ∷ ldsfld2
    ∷ ldsfld3 ∷ ldsfld4 ∷ ldsfld5 ∷ ldsfld6 ∷ ldsfld ∷ stsfld0 ∷ stsfld1 ∷ stsfld2 ∷ stsfld3
    ∷ stsfld4 ∷ stsfld5 ∷ stsfld6 ∷ stsfld ∷ ldloc0 ∷ ldloc1 ∷ ldloc2 ∷ ldloc3 ∷ ldloc4 ∷ ldloc5
    ∷ ldloc6 ∷ ldloc ∷ stloc0 ∷ stloc1 ∷ stloc2 ∷ stloc3 ∷ stloc4 ∷ stloc5 ∷ stloc6 ∷ stloc ∷ ldarg0
    ∷ ldarg1 ∷ ldarg2 ∷ ldarg3 ∷ ldarg4 ∷ ldarg5 ∷ ldarg6 ∷ ldarg ∷ starg0 ∷ starg1 ∷ starg2
    ∷ starg3 ∷ starg4 ∷ starg5 ∷ starg6 ∷ starg ∷ newbuffer ∷ memcpy ∷ cat ∷ substr ∷ left ∷ right
    ∷ invert ∷ and ∷ or ∷ xor ∷ equal ∷ notequal ∷ sign ∷ abs ∷ negate ∷ inc ∷ dec ∷ add ∷ sub ∷ mul
    ∷ div ∷ mod_op ∷ pow ∷ sqrt ∷ modmul ∷ modpow ∷ shl ∷ shr ∷ not ∷ booland ∷ boolor ∷ nz
    ∷ numequal ∷ numnotequal ∷ lt ∷ le ∷ gt ∷ ge ∷ min ∷ max ∷ within ∷ packmap ∷ packstruct ∷ pack
    ∷ unpack ∷ newarray0 ∷ newarray ∷ newarray_t ∷ newstruct0 ∷ newstruct ∷ newmap ∷ size ∷ haskey
    ∷ keys ∷ values ∷ pickitem ∷ append ∷ setitem ∷ reverseitems ∷ remove ∷ clearitems ∷ popitem
    ∷ isnull ∷ istype ∷ convert ∷ abortmsg ∷ assertmsg ∷ []
