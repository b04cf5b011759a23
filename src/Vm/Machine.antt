-- ===== src/Vm/Machine.antt =====
-- src/vm/vm.cpp: execution and the run loop. The provider of system calls is any function
-- `invoke` over a state `P`.
pub mod Continues
pub mod CodeIntegrity
pub mod Registers
pub mod Arithmetic
pub mod Runs
use mini_tool_chain.Base.{
  ℕ, zero, suc, ◌+◌, ◌-◌, ◌*◌, ◌%◌, ◌^◌, bit_and, bit_or, Bool, true, false, not, ◌&&◌, ◌||◌,
  Option, none, some, List, [], ◌∷◌, ◌++◌, ltb, leb, ◌==◌, if◌then◌else◌, Expected, ok, err, String,
}
use mini_tool_chain.Word.{add64, to_u64}
use mini_tool_chain.Isa.Opcode.{
  Opcode, nop, halt, syscall, mov, movi, load, store, lea, push, pop, call, ret, find_opcode,
}
use mini_tool_chain.Isa.Registers.{register_count}
use mini_tool_chain.Isa.Encoding.{Instruction, DecodeError, decode, branch_target, instruction_size}
use mini_tool_chain.Isa.Semantics.{
  AluResult, AluError, division_by_zero, not_arithmetic, evaluate_binary, evaluate_unary,
  is_binary_alu, branch_taken, flags_mask,
}
use mini_tool_chain.Executable.{Executable, Segment, ValidationError, validate}
use mini_tool_chain.Vm.Memory.{
  VirtualMemory, permission_read, permission_write, MemoryResult, empty_memory, add_region,
  read_u64, write_u64, fetch_instruction,
}
use mini_tool_chain.Vm.Syscall.{SyscallContext, SyscallError, Outcome}
use mini_tool_chain.Vm.Cpu.{
  CpuState, initial_cpu, VmError, no_error, illegal_instruction, division_by_zero_error,
  syscall_error, budget_exhausted, not_loaded, VmFault, RunResult, VirtualMachine, Step, trap, done,
  set_register, register, fault_from_memory, push_value, pop_value, heap_base, heap_size,
  stack_size, stack_top_default,
}

is_branch_opcode : Opcode → Bool
is_branch_opcode op = elim (find_opcode op) [ none ↦ false | some info ↦ info.is_branch ]

alu_error : AluError → VmError
alu_error division_by_zero = division_by_zero_error
alu_error not_arithmetic = illegal_instruction

traced : ℕ → Instruction → Option (List (ℕ × Instruction)) → Option (List (ℕ × Instruction))
traced pc i none = none
traced pc i (some calls) = some (calls ++ ((pc, i) ∷ []))

module _ {P : Type 0} where
  abbrev pub jump_to : VirtualMachine P → ℕ → VirtualMachine P
  jump_to m target = record m { cpu = record m.cpu { pc = target } }

  pub stored : VirtualMachine P → ℕ → MemoryResult VirtualMemory → Step P (Unit {0})
  stored m pc (err f) = trap m (fault_from_memory m f) pc
  stored m pc (ok memory') = done (record m { memory = memory' })

  pub loaded_word : VirtualMachine P → ℕ → ℕ → MemoryResult ℕ → Step P (Unit {0})
  loaded_word m pc dst (err f) = trap m (fault_from_memory m f) pc
  loaded_word m pc dst (ok value) = done (set_register m dst value)

  pub called : ℕ → Step P (Unit {0}) → Step P (Unit {0})
  called target (m, err f) = (m, err f)
  called target (m, ok _) = done (jump_to m target)

  pub returned : Step P ℕ → Step P (Unit {0})
  returned (m, err f) = (m, err f)
  returned (m, ok address) = done (jump_to m address)

  pub popped_to : ℕ → Step P ℕ → Step P (Unit {0})
  popped_to dst (m, err f) = (m, err f)
  popped_to dst (m, ok value) = done (set_register m dst value)

  unfoldable pub write_flags : AluResult → VirtualMachine P → VirtualMachine P
  write_flags result m =
      if result.writes_flags
      then record m { cpu = record m.cpu { flags = bit_and result.flags flags_mask } }
      else m

  unfoldable pub alu_done :
      VirtualMachine P → ℕ → ℕ → Expected AluError AluResult → Step P (Unit {0})
  unfolding alu_error write_flags
  alu_done m pc dst (err e) = trap m (alu_error e) pc
  alu_done m pc dst (ok result) =
      done (write_flags result (if result.writes_value then set_register m dst result.value else m))

  -- What the switch leaves over: branches, and the arithmetic of the semantics layer.
  pub branch_or_alu : Instruction → ℕ → VirtualMachine P → Step P (Unit {0})
  branch_or_alu i pc m =
      let taken = branch_taken i.opcode m.cpu.flags in
      let result =
        if is_binary_alu i.opcode
        then evaluate_binary i.opcode (register m i.dst) (register m i.src)
        else evaluate_unary i.opcode (register m i.dst) in
      if is_branch_opcode i.opcode
      then done (if taken then jump_to m (branch_target pc i.imm) else m)
      else alu_done m pc i.dst result

  pub syscall_done : VirtualMachine P → ℕ → Outcome P → Step P (Unit {0})
  syscall_done m pc (provider, context, result) =
      let after = record m {
        cpu = record m.cpu { registers = context.registers };
        memory = context.memory;
        syscalls = provider;
      } in
      let stopped = record after.cpu { halted = true; exit_code = context.exit_code } in
      elim result [
        | err e ↦ trap after syscall_error pc
        | ok _ ↦ done (if context.halt then record after { cpu = stopped } else after)
      ]

  abbrev context_of : VirtualMachine P → SyscallContext
  context_of m = record {
    registers = m.cpu.registers;
    memory = m.memory;
    halt = false;
    exit_code = 0;
  }

  -- The state that execution of a decoded instruction starts from.
  abbrev advanced : VirtualMachine P → Instruction → VirtualMachine P
  advanced m i = record m {
    trace = traced m.cpu.pc i m.trace;
    cpu = record m.cpu {
      pc = add64 m.cpu.pc instruction_size;
      instruction_count = add64 m.cpu.instruction_count 1;
    };
  }

  abbrev pub run_result : VirtualMachine P → VmError → ℕ → ℕ → RunResult
  run_result m error exit_code pc = record {
    error = error;
    exit_code = exit_code;
    instructions = m.cpu.instruction_count;
    pc = pc;
  }

  module _ (invoke : P → ℕ → SyscallContext → Outcome P) where
    -- The switch; `i.opcode` is its first argument.
    unfoldable pub dispatch : Opcode → Instruction → ℕ → VirtualMachine P → Step P (Unit {0})
    dispatch nop i pc m = done m
    dispatch halt i pc m = done (record m { cpu = record m.cpu { halted = true } })
    dispatch syscall i pc m = syscall_done m pc (invoke m.syscalls (to_u64 i.imm) (context_of m))
    dispatch mov i pc m = done (set_register m i.dst (register m i.src))
    dispatch movi i pc m = done (set_register m i.dst (to_u64 i.imm))
    dispatch lea i pc m = done (set_register m i.dst (to_u64 i.imm))
    dispatch load i pc m =
        loaded_word m pc i.dst (read_u64 m.memory (add64 (register m i.src) (to_u64 i.imm)))
    dispatch store i pc m =
        stored m pc
          (write_u64 m.memory (add64 (register m i.dst) (to_u64 i.imm)) (register m i.src))
    dispatch push i pc m = push_value m (register m i.dst) pc
    dispatch pop i pc m = popped_to i.dst (pop_value m pc)
    dispatch call i pc m = called (branch_target pc i.imm) (push_value m m.cpu.pc pc)
    dispatch ret i pc m = returned (pop_value m pc)
    dispatch _ i pc m = branch_or_alu i pc m

    unfoldable pub execute : Instruction → ℕ → VirtualMachine P → Step P (Unit {0})
    unfolding dispatch branch_or_alu alu_done alu_error write_flags is_branch_opcode
    execute i pc m =
        if leb register_count i.dst || leb register_count i.src
        then trap m illegal_instruction pc
        else dispatch i.opcode i pc m

    step_decoded : VirtualMachine P → Expected DecodeError Instruction → Step P (Unit {0})
    step_decoded m (err e) = trap m illegal_instruction m.cpu.pc
    step_decoded m (ok i) = execute i m.cpu.pc (advanced m i)

    step_fetched : VirtualMachine P → MemoryResult ℕ → Step P (Unit {0})
    step_fetched m (err f) = trap m (fault_from_memory m f) m.cpu.pc
    step_fetched m (ok word) = step_decoded m (decode word)

    unfoldable pub step : VirtualMachine P → Step P (Unit {0})
    unfolding step_fetched step_decoded execute traced
    step m =
        if not m.loaded
        then trap m not_loaded m.cpu.pc
        else if m.cpu.halted
        then done m
        else if not (m.cpu.pc % instruction_size == 0)
        then trap m illegal_instruction m.cpu.pc
        else step_fetched m (fetch_instruction m.memory m.cpu.pc)

    -- The loop, with the instructions that the budget still allows.
    pub run_loop : ℕ → VirtualMachine P → VirtualMachine P × RunResult
    run_loop zero m =
        if m.cpu.halted
        then (m, run_result m no_error m.cpu.exit_code m.cpu.pc)
        else (m, run_result m budget_exhausted 0 m.cpu.pc)
    run_loop (suc left) m =
        let (m', stepped) = step m in
        let continued : VirtualMachine P × RunResult = elim stepped [
          | err f ↦ (m', run_result m' f.error 0 f.pc)
          | ok _ ↦ run_loop left m'
        ] in
        if m.cpu.halted then (m, run_result m no_error m.cpu.exit_code m.cpu.pc) else continued

    pub run : VirtualMachine P → ℕ → VirtualMachine P × RunResult
    run m budget =
        if not m.loaded
        then (m, record { error = not_loaded; exit_code = 0; instructions = 0; pc = 0 })
        else run_loop budget m
