-- ===== src/Vm/Machine/Runs.antt =====
-- The run loop of src/vm/vm.cpp against the steps that it makes.
use mini_tool_chain.Base.{
  ℕ, zero, suc, ◌+◌, ◌-◌, ◌≤◌, ◌≡◌, refl, ap, ◌∙◌, arith, true, false, ok, err,
}
use mini_tool_chain.Vm.Syscall.{SyscallContext, Outcome}
use mini_tool_chain.Vm.Cpu.{VirtualMachine, VmFault, no_error}
use mini_tool_chain.Vm.Machine.{run_result, step, run_loop, run}

module _ {P : Type 0} (invoke : P → ℕ → SyscallContext → Outcome P) where
  -- `n` steps without a fault lead from one state to another, none of them made in a halted state.
  pub data Steps : ℕ → VirtualMachine P → VirtualMachine P → Type 0 where
    rest : {m : VirtualMachine P} → Steps 0 m m
    more :
        {n : ℕ} {m m₁ m' : VirtualMachine P}
        → m.cpu.halted ≡ false
        → step invoke m ≡ (m₁, ok tt)
        → Steps n m₁ m'
        → Steps (suc n) m m'

  halted_now :
      (budget : ℕ) (m : VirtualMachine P)
      → m.cpu.halted ≡ true
      → run_loop invoke budget m ≡ (m, run_result m no_error m.cpu.exit_code m.cpu.pc)
  unfolding run_loop
  halted_now zero m h = rw h refl
  halted_now (suc left) m h = rw h refl

  -- Steps without a fault use up as much of the budget.
  run_loop-Steps :
      (n left : ℕ) (m m' : VirtualMachine P)
      → Steps n m m'
      → run_loop invoke (n + left) m ≡ run_loop invoke left m'
  unfolding run_loop
  run_loop-Steps zero left m m' rest = ap (λ k. run_loop invoke k m) (omega arith)
  run_loop-Steps (suc n) left m m' (more {m₁} going next later) =
      let one_more : run_loop invoke (suc (n + left)) m ≡ run_loop invoke left m' =
        simp (going, next) (run_loop-Steps n left m₁ m' later) in
      let size : suc n + left ≡ suc (n + left) = omega arith in
      ap (λ k. run_loop invoke k m) size ∙ one_more

  run_loop-within :
      (n budget : ℕ) (m m' : VirtualMachine P)
      → Steps n m m'
      → n ≤ budget
      → run_loop invoke budget m ≡ run_loop invoke (budget - n) m'
  run_loop-within n budget m m' steps le =
      ap (λ k. run_loop invoke k m) (omega arith) ∙ run_loop-Steps n (budget - n) m m' steps

  module _ (n budget : ℕ) (m m' : VirtualMachine P) (ready : m.loaded ≡ true)
      (steps : Steps n m m') where
    -- A loaded machine that comes to a halt after some steps without a fault is run to that state
    -- by every budget that allows those steps, and the result is without error and has its exit
    -- code and its place.
    pub run-halts :
        m'.cpu.halted ≡ true
        → n ≤ budget
        → run invoke m budget ≡ (m', run_result m' no_error m'.cpu.exit_code m'.cpu.pc)
    unfolding run
    run-halts h le =
        simp ready (run_loop-within n budget m m' steps le ∙ halted_now (budget - n) m' h)

    -- A loaded machine that comes to a fault after some steps without one, by which it has not
    -- halted, is run to the state that the fault leaves by every budget above those steps, and the
    -- result has its error and place.
    pub run-faults :
        (m'' : VirtualMachine P) (f : VmFault)
        → m'.cpu.halted ≡ false
        → step invoke m' ≡ (m'', err f)
        → suc n ≤ budget
        → run invoke m budget ≡ (m'', run_result m'' f.error 0 f.pc)
    unfolding run run_loop
    run-faults m'' f going fault le =
        let one_left : budget - n ≡ suc (budget - suc n) = omega arith in
        let last : run_loop invoke (suc (budget - suc n)) m'
            ≡ (m'', run_result m'' f.error 0 f.pc) =
          simp (going, fault) refl in
        simp ready (
          run_loop-within n budget m m' steps (omega arith)
          ∙ ap (λ k. run_loop invoke k m') one_left
          ∙ last)
