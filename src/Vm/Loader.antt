-- ===== src/Vm/Loader.antt =====
-- `VirtualMachine::load` of src/vm/vm.cpp: the segments, the stack and the heap are mapped and the
-- CPU is reset.
pub mod Image
pub mod Success
use mini_tool_chain.Base.{
  ℕ, zero, suc, ◌+◌, ◌-◌, ◌*◌, ◌%◌, ◌^◌, bit_and, bit_or, Bool, true, false, not, ◌&&◌, ◌||◌,
  Option, none, some, List, [], ◌∷◌, ◌++◌, ltb, leb, ◌==◌, if◌then◌else◌, Expected, ok, err, String,
}
use mini_tool_chain.Word.{add64, to_u64}
use mini_tool_chain.Isa.Opcode.{
  Opcode, nop, halt, syscall, mov, movi, load, store, lea, push, pop, call, ret, find_opcode,
}
use mini_tool_chain.Isa.Registers.{register_count}
use mini_tool_chain.Isa.Encoding.{Instruction, DecodeError, decode, branch_target, instruction_size}
use mini_tool_chain.Isa.Semantics.{
  AluResult, AluError, division_by_zero, not_arithmetic, evaluate_binary, evaluate_unary,
  is_binary_alu, branch_taken, flags_mask,
}
use mini_tool_chain.Executable.{Executable, Segment, ValidationError, validate}
use mini_tool_chain.Vm.Memory.{
  VirtualMemory, permission_read, permission_write, MemoryResult, empty_memory, add_region,
  read_u64, write_u64, fetch_instruction,
}
use mini_tool_chain.Vm.Syscall.{SyscallContext, SyscallError, Outcome}
use mini_tool_chain.Vm.Cpu.{
  CpuState, initial_cpu, VmError, no_error, illegal_instruction, division_by_zero_error,
  syscall_error, budget_exhausted, not_loaded, VmFault, RunResult, VirtualMachine, Step, trap, done,
  set_register, register, fault_from_memory, push_value, pop_value, heap_base, heap_size,
  stack_size, stack_top_default,
}
use mini_tool_chain.Executable
use mini_tool_chain.Executable.{SegmentFlags, flag_read, flag_write, flag_exec}
use mini_tool_chain.Vm.Memory.{Permission, permission_none, permission_exec}

add_flag : Bool → Permission → Permission → Permission
add_flag wanted permission permissions =
    if wanted then bit_or permissions permission else permissions

unfoldable pub permissions_of : SegmentFlags → Permission
unfolding add_flag
permissions_of flags =
    let readable = add_flag (Executable.has_flag flags flag_read) permission_read permission_none in
    let writable = add_flag (Executable.has_flag flags flag_write) permission_write readable in
    let exec = Executable.has_flag flags flag_exec in
    add_flag exec permission_exec (add_flag exec permission_read writable)

pub data LoadError : Type 0 where
  invalid : ValidationError → LoadError
  cannot_map : String → LoadError
  stack_overlaps heap_overlaps : LoadError

-- The segments one after the other; what was mapped before a failure stays mapped.
pub map_segments : VirtualMemory → List Segment → VirtualMemory × Expected LoadError (Unit {0})
map_segments memory [] = (memory, ok tt)
map_segments memory (s ∷ rest) =
    let (added, memory') =
      add_region memory s.name s.virtual_address s.virtual_size (permissions_of s.flags)
        s.contents in
    let more : VirtualMemory × Expected LoadError (Unit {0}) = map_segments memory' rest in
    if added then more else (memory', err (cannot_map s.name))

-- The early returns, given the memory after each step and what the step answered.
image_mapped :
    VirtualMemory
    → VirtualMemory
    → VirtualMemory
    → Expected LoadError (Unit {0})
    → Bool
    → Bool
    → VirtualMemory × Expected LoadError (Unit {0})
image_mapped memory with_stack with_heap (err e) stack_added heap_added = (memory, err e)
image_mapped memory with_stack with_heap (ok _) stack_added heap_added =
    if not stack_added
    then (with_stack, err stack_overlaps)
    else if not heap_added
    then (with_heap, err heap_overlaps)
    else (with_heap, ok tt)

map_image : List Segment → VirtualMemory × Expected LoadError (Unit {0})
unfolding map_segments image_mapped
map_image segments =
    let (memory, mapped) = map_segments empty_memory segments in
    let (stack_added, with_stack) =
      add_region memory "stack" (stack_top_default - stack_size) stack_size
        (bit_or permission_read permission_write) [] in
    let (heap_added, with_heap) =
      add_region with_stack "heap" heap_base heap_size (bit_or permission_read permission_write)
        [] in
    image_mapped memory with_stack with_heap mapped stack_added heap_added

module _ {P : Type 0} where
  abbrev pub loaded_machine : VirtualMachine P → Executable → VirtualMemory → VirtualMachine P
  loaded_machine m exe memory' = record m {
    memory = memory';
    stack_top = stack_top_default;
    stack_limit = stack_top_default - stack_size;
    cpu = record initial_cpu { pc = exe.entry_point; sp = stack_top_default };
    loaded = true;
  }

  load_mapped :
      VirtualMachine P
      → Executable
      → VirtualMemory × Expected LoadError (Unit {0})
      → VirtualMachine P × Expected LoadError (Unit {0})
  load_mapped m exe (memory', err e) = (record m { memory = memory' }, err e)
  load_mapped m exe (memory', ok _) = (loaded_machine m exe memory', ok tt)

  load_validated :
      VirtualMachine P
      → Executable
      → Expected ValidationError (Unit {0})
      → VirtualMachine P × Expected LoadError (Unit {0})
  unfolding map_image load_mapped
  load_validated m exe (err e) = (m, err (invalid e))
  load_validated m exe (ok _) = load_mapped m exe (map_image exe.segments)

  unfoldable pub load_executable :
      VirtualMachine P → Executable → VirtualMachine P × Expected LoadError (Unit {0})
  unfolding load_validated
  load_executable m exe = load_validated m exe (validate exe)
