-- ===== src/Isa/Opcode.antt =====
-- include/minitool/isa/opcode.hpp and src/isa/opcode.cpp: the opcodes, their formats and the table
-- of their metadata.
pub mod Table
pub mod Mnemonics
use Prim.Native.Char.{code}
use Prim.Native.String
use mini_tool_chain.Base.{
  ℕ, ◌+◌, Bool, true, false, ◌&&◌, Option, none, some, List, [], ◌∷◌, ◌==◌, if◌then◌else◌, String,
  length,
}

-- The enumerators, and every other u8 that a cast can bring.
pub data Opcode : Type 0 where
  nop halt syscall mov movi load store lea push pop add sub mul div mod_op inc dec neg : Opcode
  and or xor not_op shl shr sar cmp test jmp je jne jg jl jge jle call ret : Opcode
  undefined : ℕ → Opcode

-- `static_cast<u8>(opcode)`
unfoldable pub opcode_value : Opcode → ℕ
opcode_value nop = 0x00
opcode_value halt = 0x01
opcode_value syscall = 0x02
opcode_value mov = 0x10
opcode_value movi = 0x11
opcode_value load = 0x12
opcode_value store = 0x13
opcode_value lea = 0x14
opcode_value push = 0x15
opcode_value pop = 0x16
opcode_value add = 0x20
opcode_value sub = 0x21
opcode_value mul = 0x22
opcode_value div = 0x23
opcode_value mod_op = 0x24
opcode_value inc = 0x25
opcode_value dec = 0x26
opcode_value neg = 0x27
opcode_value and = 0x30
opcode_value or = 0x31
opcode_value xor = 0x32
opcode_value not_op = 0x33
opcode_value shl = 0x34
opcode_value shr = 0x35
opcode_value sar = 0x36
opcode_value cmp = 0x40
opcode_value test = 0x41
opcode_value jmp = 0x50
opcode_value je = 0x51
opcode_value jne = 0x52
opcode_value jg = 0x53
opcode_value jl = 0x54
opcode_value jge = 0x55
opcode_value jle = 0x56
opcode_value call = 0x57
opcode_value ret = 0x58
opcode_value (undefined n) = n

-- Equality of two opcodes. An `undefined` number is none of the enumerators.
tag : Opcode → ℕ
unfolding opcode_value
tag (undefined n) = 256 + n
tag op = opcode_value op

same_opcode : Opcode → Opcode → Bool
unfolding tag
same_opcode a b = tag a == tag b

pub data Format : Type 0 where
  no_operand reg1 reg2 reg_imm mem jump sys_imm : Format

-- The code points of a text.
abbrev pub codes : String → List ℕ
codes String.[] = []
codes (String.◌∷◌ c s) = code c ∷ codes s

pub record OpcodeInfo : Type 0 where
  pub opcode : Opcode
  pub mnemonic : List ℕ
  pub format : Format
  pub writes_dst : Bool
  pub reads_dst : Bool
  pub writes_flags : Bool
  pub is_terminator : Bool
  pub is_branch : Bool

-- One row of the table, its fields in the order of the struct.
abbrev row : Opcode → String → Format → Bool → Bool → Bool → Bool → Bool → OpcodeInfo
row op text shape wd rd wf term branch = record {
  opcode = op;
  mnemonic = codes text;
  format = shape;
  writes_dst = wd;
  reads_dst = rd;
  writes_flags = wf;
  is_terminator = term;
  is_branch = branch;
}

-- `kOpcodes`
pub all_opcodes : List OpcodeInfo
all_opcodes =
    row nop "NOP" no_operand false false false false false
    ∷ row halt "HALT" no_operand false false false true false
    ∷ row syscall "SYSCALL" sys_imm false false false false false
    ∷ row mov "MOV" reg2 true false false false false
    ∷ row movi "MOVI" reg_imm true false false false false
    ∷ row load "LOAD" mem true false false false false
    ∷ row store "STORE" mem false true false false false
    ∷ row lea "LEA" reg_imm true false false false false
    ∷ row push "PUSH" reg1 false true false false false
    ∷ row pop "POP" reg1 true false false false false
    ∷ row add "ADD" reg2 true true true false false
    ∷ row sub "SUB" reg2 true true true false false
    ∷ row mul "MUL" reg2 true true true false false
    ∷ row div "DIV" reg2 true true true false false
    ∷ row mod_op "MOD" reg2 true true true false false
    ∷ row inc "INC" reg1 true true true false false
    ∷ row dec "DEC" reg1 true true true false false
    ∷ row neg "NEG" reg1 true true true false false
    ∷ row and "AND" reg2 true true true false false
    ∷ row or "OR" reg2 true true true false false
    ∷ row xor "XOR" reg2 true true true false false
    ∷ row not_op "NOT" reg1 true true false false false
    ∷ row shl "SHL" reg2 true true true false false
    ∷ row shr "SHR" reg2 true true true false false
    ∷ row sar "SAR" reg2 true true true false false
    ∷ row cmp "CMP" reg2 false true true false false
    ∷ row test "TEST" reg2 false true true false false
    ∷ row jmp "JMP" jump false false false true true
    ∷ row je "JE" jump false false false false true
    ∷ row jne "JNE" jump false false false false true
    ∷ row jg "JG" jump false false false false true
    ∷ row jl "JL" jump false false false false true
    ∷ row jge "JGE" jump false false false false true
    ∷ row jle "JLE" jump false false false false true
    ∷ row call "CALL" jump false false false false true
    ∷ row ret "RET" no_operand false false false true true
    ∷ []

find_in : List OpcodeInfo → Opcode → Option OpcodeInfo
find_in [] op = none
find_in (info ∷ rest) op = if same_opcode info.opcode op then some info else find_in rest op

unfoldable pub find_opcode : Opcode → Option OpcodeInfo
unfolding all_opcodes find_in same_opcode
find_opcode op = find_in all_opcodes op

cast_in : List OpcodeInfo → ℕ → Opcode
cast_in [] n = undefined n
cast_in (info ∷ rest) n = if opcode_value info.opcode == n then info.opcode else cast_in rest n

-- `static_cast<Opcode>(n)` of a u8: the enumerator with that number, if there is one.
unfoldable pub opcode_cast : ℕ → Opcode
unfolding all_opcodes cast_in opcode_value
opcode_cast n = cast_in all_opcodes n

unfoldable pub is_valid_opcode : Opcode → Bool
unfolding find_opcode
is_valid_opcode op = elim (find_opcode op) [ none ↦ false | some _ ↦ true ]

-- `toupper` of the C library is a parameter.
module _ (to_upper : ℕ → ℕ) where
  equal_upper : List ℕ → List ℕ → Bool
  equal_upper [] [] = true
  equal_upper (a ∷ text) (b ∷ name) = to_upper a == b && equal_upper text name
  equal_upper _ _ = false

  mnemonic_in : List OpcodeInfo → List ℕ → Option OpcodeInfo
  unfolding equal_upper
  mnemonic_in [] text = none
  mnemonic_in (info ∷ rest) text =
      if length info.mnemonic == length text && equal_upper text info.mnemonic
      then some info
      else mnemonic_in rest text

  unfoldable pub find_mnemonic : List ℕ → Option OpcodeInfo
  unfolding all_opcodes mnemonic_in
  find_mnemonic text = mnemonic_in all_opcodes text

-- Number of explicit operands of a format.
unfoldable pub operand_count : Format → ℕ
operand_count no_operand = 0
operand_count reg1 = 1
operand_count jump = 1
operand_count sys_imm = 1
operand_count reg2 = 2
operand_count reg_imm = 2
operand_count mem = 2
