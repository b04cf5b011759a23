-- ===== src/Vm/Machine/Arithmetic.antt =====
-- Arithmetic instructions come to what the semantics layer says.
use mini_tool_chain.Base.{ℕ, ◌≡◌, ◌<◌, arith, refl, ◌||◌, true, false, leb}
use mini_tool_chain.Isa.Opcode.{
  Opcode, nop, halt, syscall, mov, movi, load, store, lea, push, pop, call, ret, find_opcode, jmp,
  je, jne, jg, jl, jge, jle, undefined,
}
use mini_tool_chain.Isa.Registers.{register_count}
use mini_tool_chain.Isa.Encoding.{Instruction}
use mini_tool_chain.Isa.Semantics.{is_binary_alu, is_unary_alu}
use mini_tool_chain.Vm.Syscall.{SyscallContext, Outcome}
use mini_tool_chain.Vm.Cpu.{VirtualMachine, register}
use mini_tool_chain.Vm.Machine.{alu_done, branch_or_alu, is_branch_opcode, dispatch, execute}
use mini_tool_chain.Vm.Machine.Registers.{result_of}

alu-not_branch :
    (op : Opcode) → (is_binary_alu op || is_unary_alu op) ≡ true → is_branch_opcode op ≡ false
unfolding is_branch_opcode find_opcode is_binary_alu is_unary_alu
alu-not_branch jmp h = cc h
alu-not_branch je h = cc h
alu-not_branch jne h = cc h
alu-not_branch jg h = cc h
alu-not_branch jl h = cc h
alu-not_branch jge h = cc h
alu-not_branch jle h = cc h
alu-not_branch call h = cc h
alu-not_branch ret h = cc h
alu-not_branch (undefined n) h = cc h
alu-not_branch _ h = refl

module _ {P : Type 0} where
  module _ (invoke : P → ℕ → SyscallContext → Outcome P) where
    alu-dispatch :
        (op : Opcode) (i : Instruction) (pc : ℕ) (m : VirtualMachine P)
        → (is_binary_alu op || is_unary_alu op) ≡ true
        → dispatch invoke op i pc m ≡ branch_or_alu i pc m
    unfolding dispatch is_binary_alu is_unary_alu
    alu-dispatch nop i pc m h = cc h
    alu-dispatch halt i pc m h = cc h
    alu-dispatch syscall i pc m h = cc h
    alu-dispatch mov i pc m h = cc h
    alu-dispatch movi i pc m h = cc h
    alu-dispatch lea i pc m h = cc h
    alu-dispatch load i pc m h = cc h
    alu-dispatch store i pc m h = cc h
    alu-dispatch push i pc m h = cc h
    alu-dispatch pop i pc m h = cc h
    alu-dispatch call i pc m h = cc h
    alu-dispatch ret i pc m h = cc h
    alu-dispatch _ i pc m h = refl

    -- Where no register is out of range, arithmetic comes to what the semantics layer says.
    module _ (i : Instruction) (pc : ℕ) (m : VirtualMachine P) (dst : i.dst < 16)
        (src : i.src < 16) where
      in_range : (leb register_count i.dst || leb register_count i.src) ≡ false
      in_range = ground arith

      pub execute-alu :
          (is_binary_alu i.opcode || is_unary_alu i.opcode) ≡ true
          → execute invoke i pc m
            ≡ alu_done m pc i.dst (result_of i.opcode (register m i.dst) (register m i.src))
      unfolding execute branch_or_alu
      execute-alu h = rw (in_range, alu-dispatch i.opcode i pc m h, alu-not_branch i.opcode h) refl

      pub execute-dispatch : execute invoke i pc m ≡ dispatch invoke i.opcode i pc m
      unfolding execute
      execute-dispatch = rw in_range refl
