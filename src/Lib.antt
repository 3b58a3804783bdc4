-- ===== src/Lib.antt =====
-- neo-lang compiles contracts to scripts of the NeoVM. The library models parts of the compiler
-- (neo-compiler/src): the lexer, the expressions and types of the syntax tree, the intermediate
-- representation with its optimizer, the tables of the target, and the back end: opcodes and
-- instructions, the builder of scripts, the peephole optimizer, the linker of calls, the slots of
-- a function, the disassembler and the NEF container.
--
-- - OpCode: the enumeration of target/opcode.rs with its bytes; OpCode.Classes its classes;
--   OpCode.TryFrom the reader of a byte that the crate `num_enum` generates, as a record of laws.
-- - Instruction: `Instruction` of target/mod.rs and the byte offsets of a sequence of them.
-- - Builder: `Builder` of target/mod.rs as a list of instructions. A panic is `none`.
--   Builder.Pushes gives the meaning of the push instructions, Builder.Patches that of a patch.
-- - Disasm: `decode_script` and `decode_one` of disasm.rs. The loop has one unit of fuel for each
--   byte and one more; each round takes a byte at least.
-- - Nef: target/nef.rs: variable-length integers and byte arrays (Nef.VarInt), the file and its
--   reader (Nef.File), method tokens and the registry of target/method_token.rs (Nef.Tokens).
-- - Peephole: codegen/opt.rs. Slots and Relayout are the helpers, Passes the passes and the rounds
--   of `optimize`. A pass has one unit of fuel for each instruction and one more. Targets, Offsets, Jumps
--   and Shorten are about the branches, Loads about the merge of loads, Loop, Counts, Removed, Calls and
--   Ends about the loops and the patches of calls, Sites and Emission about the instructions that the
--   patches name, Emission with the emission of a call of codegen/ir_codegen/builder.rs.
-- - Link: the routines of codegen/mod.rs, their script and `link_call_l_patches`. Link.Table is
--   about the table of offsets, Patching, Lands and Succeeds about the calls, Script about the bytes.
-- - Slots: codegen/env.rs, the scopes and slots of a function.
-- - Ast: the operators, literals, types and expressions of syntax/ast.rs, with the opcodes of the
--   operators in target/opcode.rs. Ast.Types has the types' predicates.
-- - Lexer: `lex` of syntax/lexer.rs, with the tables of operators and keywords in Lexer.Words. The
--   loops are recursions on the rest of the source, so they need no fuel. Bounds, Rounds and
--   Spans are about where indices and spans point, Spelling, Texts and Reads about the text under
--   a span.
-- - Ir: the instructions, blocks and functions of ir/mod.rs; Ir.Builtin the table of
--   target/builtin.rs; Ir.Uses, Ir.Rewrite and Ir.Passes the passes of ir/opt.rs. Ir.Meaning and
--   Ir.Graph give blocks and graphs a meaning over a machine that is a parameter, Ir.Ssa is the
--   form of a block that the theorem on copies asks for. Ir.Replaced and Ir.CopyProp are about copies,
--   Ir.DeadCode, DeadBlocks and DeadFunction about dead code. The marking loop has one unit of fuel
--   for each value that is pushed: the roots, and the uses of each definition once. Ir.Fold is
--   the folding of constants, with Numbers and Panics about it; Ir.Keys and Ir.Cse are the common
--   subexpressions and the order of the passes, Ir.Stale about reads.
-- - Syscall: the system calls and the bindings of `runtime` of target/syscall.rs, in the tables
--   Syscall.Contract, Runtime, Storage and Table. Syscall.Steps and Names are about the bindings.
-- - Diagnostics: the spans and the source map of diagnostic/mod.rs.
-- - Cost: the table of prices of target/cost.rs.
-- - Prelude: lists over the native numbers, results, signed integers, little-endian bytes.
-- - Tests: concrete inputs.
--
-- The parser reads the lexer's tokens; a function is lowered to the intermediate representation,
-- whose passes change it before it is compiled with the builder. The builder's scripts pass the
-- peephole optimizer function by function, with a list of patches that name
-- the `CALL_L` instructions to link; the linked script goes into a `Nef3`, from which the
-- disassembler's script is read back.
--
-- Integers are natural numbers with their bounds stated, or integers whose range is tested where
-- the source converts; bytes are numbers. `usize` is taken to be 64 bits wide. A hash map is an
-- association list. Error messages are constructors.
--
-- Not modelled: SHA-256 (a parameter), the parser, the type checker, the lowering to the
-- intermediate representation, the code generator above the builder but for the
-- placeholder and the patch of a call, and input and output.
pub mod Prelude
pub mod OpCode
pub mod Instruction
pub mod Builder
pub mod Disasm
pub mod Nef
pub mod Peephole
pub mod Link
pub mod Slots
pub mod Ast
pub mod Lexer
pub mod Ir
pub mod Syscall
pub mod Diagnostics
pub mod Cost
pub mod Tests
