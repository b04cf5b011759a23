-- ===== src/Vm/Machine/CodeIntegrity.antt =====
-- Running a program never changes what is not writable.
use mini_tool_chain.Base.{
  ℕ, zero, suc, ◌≡◌, refl, not, ◌%◌, ◌==◌, if◌then◌else◌, Expected, ok, err, All,
}
use mini_tool_chain.Isa.Opcode.{
  Opcode, nop, halt, syscall, mov, movi, lea, load, store, push, pop, call, ret,
}
use mini_tool_chain.Isa.Encoding.{Instruction, DecodeError, decode}
use mini_tool_chain.Vm.Memory.{MemoryResult, fetch_instruction}
use mini_tool_chain.Vm.Memory.Evolution.{Evolves-refl, IsWriteXorExec, fetch_instruction-Evolves}
use mini_tool_chain.Vm.Syscall.{SyscallContext, Outcome}
use mini_tool_chain.Vm.Syscall.Preserves.{ProviderLaws}
use mini_tool_chain.Vm.Cpu.{
  RunResult, VirtualMachine, Step, no_error, budget_exhausted, illegal_instruction, not_loaded,
  trap, done,
}
use mini_tool_chain.Vm.Machine.{
  context_of, advanced, dispatch, execute, step_decoded, step_fetched, step, run_loop, run,
  run_result,
}
use mini_tool_chain.Vm.Machine.Continues.{
  Continues, if-Continues, stored-Continues, push_value-Continues, pop_value-Continues,
  loaded_word-Continues, called-Continues, returned-Continues, popped_to-Continues,
  branch_or_alu-Continues, syscall_done-Continues, Continues-refl, Continues-trans,
  Continues-set_register,
}

module _ {P : Type 0} where
  module _ (invoke : P → ℕ → SyscallContext → Outcome P) (laws : ProviderLaws invoke) where
    dispatch-Continues :
        (op : Opcode) (i : Instruction) (pc : ℕ) (m : VirtualMachine P)
        → Continues m (dispatch invoke op i pc m).0
    unfolding dispatch
    dispatch-Continues nop i pc m = Continues-refl m
    dispatch-Continues halt i pc m = record {
      regions = Evolves-refl m.memory.regions;
      registers = refl;
    }
    dispatch-Continues syscall i pc m =
        syscall_done-Continues m pc _ (laws.preserves m.syscalls _ (context_of m))
    dispatch-Continues mov i pc m = Continues-set_register m i.dst _
    dispatch-Continues movi i pc m = Continues-set_register m i.dst _
    dispatch-Continues lea i pc m = Continues-set_register m i.dst _
    dispatch-Continues load i pc m = loaded_word-Continues m pc i.dst _
    dispatch-Continues store i pc m = stored-Continues m pc _ _
    dispatch-Continues push i pc m = push_value-Continues m _ pc
    dispatch-Continues pop i pc m = popped_to-Continues m i.dst _ (pop_value-Continues m pc)
    dispatch-Continues call i pc m = called-Continues m _ _ (push_value-Continues m _ pc)
    dispatch-Continues ret i pc m = returned-Continues m _ (pop_value-Continues m pc)
    dispatch-Continues _ i pc m = branch_or_alu-Continues i pc m

    execute-Continues :
        (i : Instruction) (pc : ℕ) (m : VirtualMachine P) → Continues m (execute invoke i pc m).0
    unfolding execute
    execute-Continues i pc m =
        if-Continues m _ (trap m illegal_instruction pc) (dispatch invoke i.opcode i pc m)
          (Continues-refl m) (dispatch-Continues i.opcode i pc m)

    step_decoded-Continues :
        (m : VirtualMachine P) (r : Expected DecodeError Instruction)
        → Continues m (step_decoded invoke m r).0
    unfolding step_decoded
    step_decoded-Continues m (err e) = Continues-refl m
    step_decoded-Continues m (ok i) =
        Continues-trans m (advanced m i) _
          (record { regions = Evolves-refl m.memory.regions; registers = refl })
          (execute-Continues i m.cpu.pc (advanced m i))

    step_fetched-Continues :
        (m : VirtualMachine P) (r : MemoryResult ℕ) → Continues m (step_fetched invoke m r).0
    unfolding step_fetched
    step_fetched-Continues m (err f) = Continues-refl m
    step_fetched-Continues m (ok word) = step_decoded-Continues m (decode word)

    -- With a provider that keeps its laws, one step, whatever comes of it, leaves the bytes of
    -- every region without write permission, the places, sizes and permissions of all regions, and
    -- the number of registers.
    pub step-Continues : (m : VirtualMachine P) → Continues m (step invoke m).0
    unfolding step
    step-Continues m =
        if-Continues m (not m.loaded) (trap m not_loaded m.cpu.pc) running (Continues-refl m) (
          if-Continues m m.cpu.halted (done m) aligned (Continues-refl m) (
            if-Continues m (not (m.cpu.pc % 8 == 0)) (trap m illegal_instruction m.cpu.pc) fetched
              (Continues-refl m) (step_fetched-Continues m (fetch_instruction m.memory m.cpu.pc))))
      where
        fetched : Step P (Unit {0})
        fetched = step_fetched invoke m (fetch_instruction m.memory m.cpu.pc)

        aligned : Step P (Unit {0})
        aligned = if not (m.cpu.pc % 8 == 0) then trap m illegal_instruction m.cpu.pc else fetched

        running : Step P (Unit {0})
        running = if m.cpu.halted then done m else aligned

    -- What the loop goes on to after a step.
    after_step : ℕ → Step P (Unit {0}) → VirtualMachine P × RunResult
    after_step left (q, err f) = (q, run_result q f.error 0 f.pc)
    after_step left (q, ok _) = run_loop invoke left q

    after_step-Continues :
        (left : ℕ) (m : VirtualMachine P) (s : Step P (Unit {0}))
        → ((q : VirtualMachine P) → Continues q (run_loop invoke left q).0)
        → Continues m s.0
        → Continues m (after_step left s).0
    unfolding after_step
    after_step-Continues left m (q, err f) rest c = c
    after_step-Continues left m (q, ok _) rest c = Continues-trans m q _ c (rest q)

    run_loop-Continues :
        (budget : ℕ) (m : VirtualMachine P) → Continues m (run_loop invoke budget m).0
    unfolding run_loop after_step
    run_loop-Continues zero m =
        if-Continues m m.cpu.halted (m, run_result m no_error m.cpu.exit_code m.cpu.pc)
          (m, run_result m budget_exhausted 0 m.cpu.pc) (Continues-refl m) (Continues-refl m)
    run_loop-Continues (suc left) m =
        if-Continues m m.cpu.halted (m, run_result m no_error m.cpu.exit_code m.cpu.pc)
          (after_step left (step invoke m)) (Continues-refl m)
          (after_step-Continues left m (step invoke m) (run_loop-Continues left) (step-Continues m))

    pub run-Continues : (m : VirtualMachine P) (budget : ℕ) → Continues m (run invoke m budget).0
    unfolding run
    run-Continues m budget =
        if-Continues m (not m.loaded) (m, not_started) (run_loop invoke budget m) (Continues-refl m)
          (run_loop-Continues budget m)
      where
        not_started : RunResult
        not_started = record { error = not_loaded; exit_code = 0; instructions = 0; pc = 0 }

    -- Code cannot be changed by running it: where no region is both writable and executable, an
    -- instruction fetch answers at every address after a run, of any length and result, as before.
    pub fetch_instruction-run :
        (m : VirtualMachine P) (budget address : ℕ)
        → All IsWriteXorExec m.memory.regions
        → fetch_instruction (run invoke m budget).0.memory address
          ≡ fetch_instruction m.memory address
    fetch_instruction-run m budget address wx =
        fetch_instruction-Evolves m.memory (run invoke m budget).0.memory address wx
          (run-Continues m budget).regions
