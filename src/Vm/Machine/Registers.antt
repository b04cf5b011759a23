-- ===== src/Vm/Machine/Registers.antt =====
-- Which registers an instruction changes.
use mini_tool_chain.Base.{
  ℕ, ◌≡◌, ◌≢◌, ◌⊎◌, inl, inr, refl, ap, ◌∙◌, subst, ◌||◌, Bool, true, false, none, some, Expected,
  ok, err, set, if◌then◌else◌, leb, ltb, Bool-cases, ok-injective,
}
use mini_tool_chain.Word.{to_u64, add64, sub64}
use mini_tool_chain.Isa.Opcode.{
  Opcode, nop, halt, syscall, mov, movi, load, store, lea, push, pop, call, ret, find_opcode, cmp,
  test, jmp, je, jne, jg, jl, jge, jle, undefined,
}
use mini_tool_chain.Isa.Registers.{register_count}
use mini_tool_chain.Isa.Encoding.{Instruction}
use mini_tool_chain.Isa.Semantics.{
  AluResult, AluError, evaluate_binary, evaluate_unary, is_binary_alu, branch_taken,
}
use mini_tool_chain.Vm.Memory.{VirtualMemory, MemoryResult, read_u64, write_u64}
use mini_tool_chain.Vm.Syscall.{SyscallContext, Outcome}
use mini_tool_chain.Vm.Cpu.{
  VirtualMachine, Step, set_register, register, push_value, pushed, pop_value, popped,
}
use mini_tool_chain.Vm.Machine.{
  stored, loaded_word, called, returned, popped_to, write_flags, alu_done, branch_or_alu,
  is_branch_opcode, dispatch, execute,
}

-- `writes_dst` of the row of the opcode.
unfoldable pub writes_dst_of : Opcode → Bool
unfolding find_opcode
writes_dst_of op = elim (find_opcode op) [ none ↦ false | some info ↦ info.writes_dst ]

-- The result of the semantics layer in `branch_or_alu`.
abbrev pub result_of : Opcode → ℕ → ℕ → Expected AluError AluResult
result_of op a b = if is_binary_alu op then evaluate_binary op a b else evaluate_unary op a

-- A value that is written has a register to go to.
writes_value-writes_dst :
    (op : Opcode) (a b : ℕ) (r : AluResult)
    → result_of op a b ≡ ok r
    → r.writes_value ≡ true
    → writes_dst_of op ≡ true
unfolding writes_dst_of find_opcode evaluate_binary evaluate_unary is_binary_alu
writes_value-writes_dst nop a b r h w = cc h
writes_value-writes_dst halt a b r h w = cc h
writes_value-writes_dst syscall a b r h w = cc h
writes_value-writes_dst store a b r h w = cc h
writes_value-writes_dst push a b r h w = cc h
writes_value-writes_dst jmp a b r h w = cc h
writes_value-writes_dst je a b r h w = cc h
writes_value-writes_dst jne a b r h w = cc h
writes_value-writes_dst jg a b r h w = cc h
writes_value-writes_dst jl a b r h w = cc h
writes_value-writes_dst jge a b r h w = cc h
writes_value-writes_dst jle a b r h w = cc h
writes_value-writes_dst call a b r h w = cc h
writes_value-writes_dst ret a b r h w = cc h
writes_value-writes_dst (undefined n) a b r h w = cc h
writes_value-writes_dst cmp a b r h w = cc (ap (λ t. t.writes_value) (ok-injective _ r h) ∙ w)
writes_value-writes_dst test a b r h w = cc (ap (λ t. t.writes_value) (ok-injective _ r h) ∙ w)
writes_value-writes_dst _ a b r h w = refl

module _ {P : Type 0} where
  -- The registers behind an instruction: the same, or its destination has some value.
  abbrev pub Touched : Opcode → ℕ → VirtualMachine P → VirtualMachine P → Type 0
  Touched op dst m m' =
      (m'.cpu.registers ≡ m.cpu.registers)
      ⊎ ((v : ℕ) × (m'.cpu.registers ≡ set m.cpu.registers dst v) × (writes_dst_of op ≡ true))

  pub write_flags-registers :
      (r : AluResult) (m : VirtualMachine P) → (write_flags r m).cpu.registers ≡ m.cpu.registers
  unfolding write_flags
  write_flags-registers r m = elim (Bool-cases r.writes_flags) [
    | inl yes_it ↦ rw yes_it
    | inr no_it ↦ rw no_it
  ]

  alu_done-Touched :
      (op : Opcode) (dst pc : ℕ) (m : VirtualMachine P) (e : Expected AluError AluResult)
      → ((r : AluResult) → e ≡ ok r → r.writes_value ≡ true → writes_dst_of op ≡ true)
      → Touched op dst m (alu_done m pc dst e).0
  unfolding alu_done
  alu_done-Touched op dst pc m (err f) w = inl refl
  alu_done-Touched op dst pc m (ok r) w = elim (Bool-cases r.writes_value) [
    | inl written ↦ inr (
      r.value,
      rw written (write_flags-registers r (set_register m dst r.value)),
      w r refl written,
    )
    | inr unwritten ↦ inl (rw unwritten (write_flags-registers r m))
  ]

  branch_or_alu-Touched :
      (i : Instruction) (pc : ℕ) (m : VirtualMachine P)
      → Touched i.opcode i.dst m (branch_or_alu i pc m).0
  unfolding branch_or_alu
  branch_or_alu-Touched i pc m = elim (Bool-cases (is_branch_opcode i.opcode)) [
    | inl branch ↦ inl (
        rw branch (elim (Bool-cases (branch_taken i.opcode m.cpu.flags)) [
          | inl taken ↦ rw taken
          | inr passed ↦ rw passed
        ]))
    | inr other ↦ rw other (
        alu_done-Touched i.opcode i.dst pc m
          (result_of i.opcode (register m i.dst) (register m i.src))
          (writes_value-writes_dst i.opcode (register m i.dst) (register m i.src)))
  ]

  pushed-registers :
      (m : VirtualMachine P) (target pc : ℕ) (r : MemoryResult VirtualMemory)
      → (pushed m target pc r).0.cpu.registers ≡ m.cpu.registers
  unfolding pushed
  pushed-registers m target pc (err f) = refl
  pushed-registers m target pc (ok memory') = refl

  push_value-registers :
      (m : VirtualMachine P) (value pc : ℕ)
      → (push_value m value pc).0.cpu.registers ≡ m.cpu.registers
  unfolding push_value
  push_value-registers m value pc = elim (Bool-cases (ltb m.cpu.sp (add64 m.stack_limit 8))) [
    | inl full ↦ rw full
    | inr room ↦
        rw room
          (pushed-registers m (sub64 m.cpu.sp 8) pc (write_u64 m.memory (sub64 m.cpu.sp 8) value))
  ]

  popped-registers :
      (m : VirtualMachine P) (pc : ℕ) (r : MemoryResult ℕ)
      → (popped m pc r).0.cpu.registers ≡ m.cpu.registers
  unfolding popped
  popped-registers m pc (err f) = refl
  popped-registers m pc (ok value) = refl

  pop_value-registers :
      (m : VirtualMachine P) (pc : ℕ) → (pop_value m pc).0.cpu.registers ≡ m.cpu.registers
  unfolding pop_value
  pop_value-registers m pc = elim (Bool-cases (leb m.stack_top m.cpu.sp)) [
    | inl empty ↦ rw empty
    | inr some_left ↦ rw some_left (popped-registers m pc (read_u64 m.memory m.cpu.sp))
  ]

  stored-registers :
      (m : VirtualMachine P) (pc : ℕ) (r : MemoryResult VirtualMemory)
      → (stored m pc r).0.cpu.registers ≡ m.cpu.registers
  unfolding stored
  stored-registers m pc (err f) = refl
  stored-registers m pc (ok memory') = refl

  loaded_word-Touched :
      (m : VirtualMachine P) (pc dst : ℕ) (r : MemoryResult ℕ)
      → Touched load dst m (loaded_word m pc dst r).0
  unfolding loaded_word writes_dst_of find_opcode
  loaded_word-Touched m pc dst (err f) = inl refl
  loaded_word-Touched m pc dst (ok value) = inr (value, refl, refl)

  called-registers :
      (target : ℕ) (s : Step P (Unit {0})) → (called target s).0.cpu.registers ≡ s.0.cpu.registers
  unfolding called
  called-registers target (m, err f) = refl
  called-registers target (m, ok _) = refl

  returned-registers : (s : Step P ℕ) → (returned s).0.cpu.registers ≡ s.0.cpu.registers
  unfolding returned
  returned-registers (m, err f) = refl
  returned-registers (m, ok _) = refl

  popped_to-Touched :
      (dst : ℕ) (m : VirtualMachine P) (s : Step P ℕ)
      → s.0.cpu.registers ≡ m.cpu.registers
      → Touched pop dst m (popped_to dst s).0
  unfolding popped_to writes_dst_of find_opcode
  popped_to-Touched dst m (m', err f) same = inl same
  popped_to-Touched dst m (m', ok value) same = inr (value, ap (λ rs. set rs dst value) same, refl)

  module _ (invoke : P → ℕ → SyscallContext → Outcome P) where
    dispatch-Touched :
        (op : Opcode) (i : Instruction) (pc : ℕ) (m : VirtualMachine P)
        → i.opcode ≡ op
        → op ≢ syscall
        → Touched op i.dst m (dispatch invoke op i pc m).0
    unfolding dispatch writes_dst_of find_opcode
    dispatch-Touched nop i pc m e no_call = inl refl
    dispatch-Touched halt i pc m e no_call = inl refl
    dispatch-Touched syscall i pc m e no_call = absurd (no_call refl)
    dispatch-Touched mov i pc m e no_call = inr (register m i.src, refl, refl)
    dispatch-Touched movi i pc m e no_call = inr (to_u64 i.imm, refl, refl)
    dispatch-Touched lea i pc m e no_call = inr (to_u64 i.imm, refl, refl)
    dispatch-Touched load i pc m e no_call = loaded_word-Touched m pc i.dst _
    dispatch-Touched store i pc m e no_call = inl (stored-registers m pc _)
    dispatch-Touched push i pc m e no_call = inl (push_value-registers m (register m i.dst) pc)
    dispatch-Touched pop i pc m e no_call = popped_to-Touched i.dst m _ (pop_value-registers m pc)
    dispatch-Touched call i pc m e no_call =
        inl (called-registers _ (push_value m m.cpu.pc pc) ∙ push_value-registers m m.cpu.pc pc)
    dispatch-Touched ret i pc m e no_call =
        inl (returned-registers (pop_value m pc) ∙ pop_value-registers m pc)
    dispatch-Touched _ i pc m e no_call =
        subst (λ o. Touched o i.dst m (branch_or_alu i pc m).0) e (branch_or_alu-Touched i pc m)

    -- Whether it faults or not, the execution of an instruction other than SYSCALL leaves the
    -- registers as they were, or changes only the destination, which its opcode is listed to write.
    pub execute-Touched :
        (i : Instruction) (pc : ℕ) (m : VirtualMachine P)
        → i.opcode ≢ syscall
        → Touched i.opcode i.dst m (execute invoke i pc m).0
    unfolding execute
    execute-Touched i pc m no_call =
        elim (Bool-cases (leb register_count i.dst || leb register_count i.src)) [
          | inl bad ↦ inl (rw bad)
          | inr good ↦ rw good (dispatch-Touched i.opcode i pc m refl no_call)
        ]
