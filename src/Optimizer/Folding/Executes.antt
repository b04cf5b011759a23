-- ===== src/Optimizer/Folding/Executes.antt =====
-- Constant folding of one instruction, against `VirtualMachine::execute` of src/vm/vm.cpp.
use mini_tool_chain.Base.{ℕ, ◌<◌, ◌≡◌, ◌≢◌, refl, Bool, some}
use mini_tool_chain.Isa.Opcode.{syscall}
use mini_tool_chain.Isa.Encoding as Isa
use mini_tool_chain.Vm.Syscall.{SyscallContext, Outcome}
use mini_tool_chain.Vm.Cpu.{VirtualMachine}
use mini_tool_chain.Vm.Machine.{execute}
use mini_tool_chain.Optimizer.Folding.{ConstantMap, fold_machine}
use mini_tool_chain.Optimizer.Folding.Sound.{Agrees, SameUnless, fold_opcode-same}
use mini_tool_chain.Optimizer.Folding.Constants.{fold_opcode-Agrees}

-- An instruction with registers in range, and its replacement by constant folding, where the known
-- constants are what the registers hold: their execution ends in the same state and with the same
-- result but for FLAGS, and in the same FLAGS too unless FLAGS was found dead behind the
-- instruction.
pub fold_machine-executes :
    {P : Type 0} (invoke : P → ℕ → SyscallContext → Outcome P) (dead : Bool)
    (i i' : Isa.Instruction) (c : ConstantMap) (pc : ℕ) (m : VirtualMachine P)
    → i.dst < 16
    → i.src < 16
    → Agrees c m
    → (fold_machine i.opcode dead i c).0 ≡ some i'
    → SameUnless dead (execute invoke i pc m) (execute invoke i' pc m)
fold_machine-executes invoke dead i i' c pc m dst src agrees h =
    fold_opcode-same invoke dead i c pc m dst src agrees i.opcode i' refl h

-- The constants that are known behind an instruction with registers in range, a system call
-- excepted, are what the registers hold behind its execution, where those known before it were what
-- they held before it.
pub fold_machine-Agrees :
    {P : Type 0} (invoke : P → ℕ → SyscallContext → Outcome P) (dead : Bool) (i : Isa.Instruction)
    (c : ConstantMap) (pc : ℕ) (m : VirtualMachine P)
    → i.dst < 16
    → i.src < 16
    → Agrees c m
    → i.opcode ≢ syscall
    → Agrees (fold_machine i.opcode dead i c).1 (execute invoke i pc m).0
fold_machine-Agrees invoke dead i c pc m dst src agrees no_call =
    fold_opcode-Agrees invoke dead i c pc m dst src agrees no_call i.opcode refl
