-- ===== src/Lib.antt =====
-- The tool chain assembles, links and runs programs for a 64-bit machine of its own. This library
-- models the instruction set, the analyzer and the lowering of syntax trees, the optimizer over the
-- intermediate representation, the assembler, the object files with the relocations that patch
-- instructions, the linker, the executable image and the virtual machine that validates, loads and
-- runs it.
--
-- How the parts interact: the analyzer reports what is wrong with a file's statements; the lowering
-- puts the statements of a file into the sections of a module; the optimizer rewrites its
-- instructions, which have no addresses yet, with the semantics layer for its constants; the assembler
-- gives every item an offset, encodes the items and leaves an object with symbols and relocations; the
-- linker merges the sections of objects into four regions, resolves their symbols and applies the
-- relocations with the encoder; the image that comes out is validated and mapped by the machine's
-- loader; each step fetches a word from the memory through its permissions, decodes it and executes it
-- with the semantics layer, which hands memory accesses to the address space and SYSCALL to a
-- provider.
--
-- Files, with the code they model:
--   Base with Tests, Lists, Pointwise and Int: numbers, tests, lists, results (`std::expected`), integers.
--   Word, Word/Bits: u64 and i64 arithmetic with its wrap-around (include/minitool/common/types.hpp).
--   ByteOrder: `store`, `load`, `signExtend`, `fitsSigned`, `fitsUnsigned`
--     (include/minitool/common/byte_order.hpp); its laws are in ByteOrder/Words and ByteOrder/Sign.
--   Checksum: `crc32` (src/common/checksum.cpp).
--   Isa/Opcode: the opcodes, formats and table (include/minitool/isa/opcode.hpp, src/isa/opcode.cpp).
--   Isa/Registers: register names and `parseRegister` (src/isa/registers.cpp).
--   Isa/Encoding: `encode`, `decode`, `encodeInto`, `decodeFrom`, `branchTarget`, `branchDisplacement`
--     (src/isa/encoding.cpp, include/minitool/isa/encoding.hpp).
--   Isa/Semantics: `computeFlags`, `evaluateBinary`, `evaluateUnary`, `branchTaken`
--     (src/isa/semantics.cpp).
--   Object/Relocation: `relocatedValue`, `applyRelocation` (src/object/relocation.cpp).
--   Object/Symbols: `SymbolTable` (include/minitool/assembler/symbol_table.hpp).
--   Object/Files: the object file in memory (include/minitool/object/object.hpp, src/object/object.cpp).
--   Linker: `LinkContext` (src/linker/linker.cpp): Merging for `mergeSections`, Resolving for
--     `resolveSymbols`, Patching for `applyRelocations`, Building for `buildExecutable` and `link`.
--   Assembler/Sema: `SemanticAnalyzer` (src/assembler/sema.cpp).
--   Assembler/Layout, Assembler/Emission: the first and the second pass of `AssemblyContext`
--     (src/assembler/assembler.cpp).
--   Executable: the image, its lookups and `validate` (src/executable/executable.cpp).
--   Vm/Memory: `VirtualMemory` (src/vm/memory.cpp).
--   Vm/Syscall: `DefaultSyscallProvider` (src/vm/syscall.cpp).
--   Vm/Cpu, Vm/Machine, Vm/Loader: `VirtualMachine` (src/vm/vm.cpp): the state with push and pop, then
--     `step`, `execute` and `run`, then `load`.
--   Ir: items, sections and modules of the intermediate representation (include/minitool/ir/ir.hpp,
--     src/ir/ir.cpp).
--   Ast: the syntax tree (include/minitool/ast/ast.hpp, src/ast/ast.cpp).
--   Ir/Lower: `lower`, from the syntax tree to a module (src/ir/lower.cpp).
--   Optimizer: `Optimizer` and `ControlFlow` (src/optimizer/optimizer.cpp): Queries for what is asked of
--     an instruction, Flow for the blocks of a section and their successors, Liveness for
--     `computeFlagLiveness`, Cells for the items with their marks and the counters, Peephole and
--     Folding for the passes, Passes for the remaining ones, `runPasses`, `optimizeSection` and `run`.
--   Names: the display names of enumerations.
--   Examples: the theorems at concrete inputs, with tests.
--
-- Conventions. A u64 is a number, with `% 2 ^ 64` where C++ wraps around; an i64 is an integer. A span
-- is a list of bytes and the position it starts at. Functions that change an object return it; where
-- they also fail, an error comes without the object if nothing was changed (memory, relocations), and
-- beside it if something may have been (machine, system calls, loader). The linker and the analyzer
-- give their diagnostics as constructors with locations; the maps of the standard library are
-- association lists, and its sort is one that keeps equal elements in their places, which the library
-- leaves open. Error messages are replaced by constructors. Host streams (`fwrite`, `fread`),
-- `toupper` and a provider other than the default are parameters. `run` recurses on the instructions
-- that its budget still allows, which is the bound that the source's loop has; loops over lists
-- recurse on the list. The liveness loop of the optimizer recurses on two rounds more than there are
-- blocks, since a round adds a live block, or only one more round follows it; a read past the end of
-- its vector is an outcome of its own, for which a round of passes has the result `none`.
-- `optimizeSection` recurses on its eight iterations.
--
-- Not modelled: texts of instructions, flags, reports and fault messages; the readers and writers of
-- files, the pipeline of the assembler, the lexer and the parser, the disassembler, the debugger, the
-- command line and the playground.
pub mod Base
pub mod Word
pub mod ByteOrder
pub mod Checksum
pub mod Isa
pub mod Executable
pub mod Object
pub mod Vm
pub mod Ast
pub mod Ir
pub mod Assembler
pub mod Linker
pub mod Optimizer
pub mod Names
pub mod Examples
