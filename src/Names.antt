-- ===== src/Names.antt =====
-- The display names of formats, segment and relocation types and errors, from src/isa,
-- src/executable, src/object and src/vm. What a switch leaves to its end has no value of the type
-- here.
use mini_tool_chain.Base.{String}
use mini_tool_chain.Isa.Encoding.{
  EncodeError, invalid_register, immediate_out_of_range, non_canonical_operand, buffer_too_small,
  DecodeError, reserved_register_field_set, reserved_immediate_field_set, truncated,
}
use mini_tool_chain.Isa.Opcode.{Format, no_operand, reg1, reg2, reg_imm, mem, jump, sys_imm}
use mini_tool_chain.Executable.{SegmentType, text, rodata, data_segment, bss}
use mini_tool_chain.Vm.Cpu.{
  VmError, no_error, invalid_memory_access, permission_violation, illegal_instruction,
  division_by_zero_error, stack_overflow, stack_underflow, syscall_error, budget_exhausted,
  not_loaded,
}
use mini_tool_chain.Object.Relocation.{
  RelocationError, out_of_bounds, overflow, unaligned_instruction_field, not_an_instruction,
  RelocationType, abs32, abs64, pcrel32, imm48, pcrel48,
}
use mini_tool_chain.Vm.Memory.{
  MemoryErrorKind, unmapped, read_denied, write_denied, execute_denied, crosses_region_end,
  out_of_memory,
}

unfoldable pub encode_error_name : EncodeError → String
encode_error_name EncodeError.unknown_opcode = "unknown opcode"
encode_error_name invalid_register = "invalid register"
encode_error_name immediate_out_of_range = "immediate out of range"
encode_error_name non_canonical_operand = "non-canonical operand field"
encode_error_name buffer_too_small = "buffer too small"

unfoldable pub decode_error_name : DecodeError → String
decode_error_name DecodeError.unknown_opcode = "unknown opcode"
decode_error_name reserved_register_field_set = "reserved register field set"
decode_error_name reserved_immediate_field_set = "reserved immediate field set"
decode_error_name truncated = "truncated instruction"

unfoldable pub format_name : Format → String
format_name no_operand = "none"
format_name reg1 = "reg1"
format_name reg2 = "reg2"
format_name reg_imm = "regimm"
format_name mem = "mem"
format_name jump = "jump"
format_name sys_imm = "sysimm"

unfoldable pub segment_type_name : SegmentType → String
segment_type_name text = "text"
segment_type_name rodata = "rodata"
segment_type_name data_segment = "data"
segment_type_name bss = "bss"

unfoldable pub vm_error_name : VmError → String
vm_error_name no_error = "none"
vm_error_name invalid_memory_access = "invalid memory access"
vm_error_name permission_violation = "permission violation"
vm_error_name illegal_instruction = "illegal instruction"
vm_error_name division_by_zero_error = "division by zero"
vm_error_name stack_overflow = "stack overflow"
vm_error_name stack_underflow = "stack underflow"
vm_error_name syscall_error = "syscall error"
vm_error_name budget_exhausted = "instruction budget exhausted"
vm_error_name not_loaded = "no program loaded"

unfoldable pub relocation_error_name : RelocationError → String
relocation_error_name out_of_bounds = "relocation offset is outside its section"
relocation_error_name overflow = "relocated value does not fit the field"
relocation_error_name unaligned_instruction_field =
    "instruction-field relocation is not 8-byte aligned"
relocation_error_name not_an_instruction =
    "instruction-field relocation does not point at an instruction"

unfoldable pub relocation_type_name : RelocationType → String
relocation_type_name abs32 = "ABS32"
relocation_type_name abs64 = "ABS64"
relocation_type_name pcrel32 = "PCREL32"
relocation_type_name imm48 = "IMM48"
relocation_type_name pcrel48 = "PCREL48"

unfoldable pub memory_error_name : MemoryErrorKind → String
memory_error_name unmapped = "address is not mapped"
memory_error_name read_denied = "region is not readable"
memory_error_name write_denied = "region is not writable"
memory_error_name execute_denied = "region is not executable"
memory_error_name crosses_region_end = "access runs past the end of its region"
memory_error_name out_of_memory = "the heap is exhausted"
