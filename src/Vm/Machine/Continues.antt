-- ===== src/Vm/Machine/Continues.antt =====
-- What the parts of `execute` keep: the regions evolve, and there are as many registers.
use mini_tool_chain.Base.{
  ℕ, ◌≡◌, refl, ◌∙◌, Bool, true, false, if◌then◌else◌, Expected, ok, err, inl, inr, Expected-cases,
  length, length-set,
}
use mini_tool_chain.Word.{sub64}
use mini_tool_chain.Isa.Encoding.{Instruction}
use mini_tool_chain.Isa.Semantics.{AluError, AluResult}
use mini_tool_chain.Vm.Memory.{VirtualMemory, MemoryResult, write_u64}
use mini_tool_chain.Vm.Memory.Evolution.{Evolves, Evolves-refl, Evolves-trans, write_u64-Evolves}
use mini_tool_chain.Vm.Syscall.{Outcome}
use mini_tool_chain.Vm.Syscall.Preserves.{Preserves}
use mini_tool_chain.Vm.Cpu.{
  VirtualMachine, Step, set_register, push_value, pushed, pop_value, popped,
}
use mini_tool_chain.Vm.Machine.{
  stored, loaded_word, called, returned, popped_to, write_flags, alu_done, branch_or_alu,
  syscall_done, context_of,
}

-- The machine `q` after something was done to `m`: the regions have evolved, and there are as many
-- registers.
pub record Continues {P : Type 0} (m q : VirtualMachine P) : Type 0 where
  pub regions : Evolves m.memory.regions q.memory.regions
  pub registers : length q.cpu.registers ≡ length m.cpu.registers

module _ {P : Type 0} where
  pub Continues-refl : (m : VirtualMachine P) → Continues m m
  Continues-refl m = record { regions = Evolves-refl m.memory.regions; registers = refl }

  pub Continues-trans : (m q p : VirtualMachine P) → Continues m q → Continues q p → Continues m p
  Continues-trans m q p f g = record {
    regions = Evolves-trans m.memory.regions q.memory.regions p.memory.regions f.regions g.regions;
    registers = g.registers ∙ f.registers;
  }

  pub Continues-set_register :
      (m : VirtualMachine P) (i value : ℕ) → Continues m (set_register m i value)
  Continues-set_register m i value = record {
    regions = Evolves-refl m.memory.regions;
    registers = length-set m.cpu.registers i value;
  }

  -- Whatever a branch picks.
  pub if-Continues :
      {A : Type 0} (m : VirtualMachine P) (b : Bool) (x y : VirtualMachine P × A)
      → Continues m x.0
      → Continues m y.0
      → Continues m (if b then x else y).0
  if-Continues m true x y f g = f
  if-Continues m false x y f g = g

  pub written-Continues :
      (m : VirtualMachine P) (address value : ℕ) (memory' : VirtualMemory)
      → write_u64 m.memory address value ≡ ok memory'
      → Continues m (record m { memory = memory' })
  written-Continues m address value memory' h = record {
    regions = write_u64-Evolves m.memory address memory' value h;
    registers = refl;
  }

  pub stored-Continues :
      (m : VirtualMachine P) (pc address value : ℕ)
      → Continues m (stored m pc (write_u64 m.memory address value)).0
  unfolding stored
  stored-Continues m pc address value = elim (Expected-cases (write_u64 m.memory address value)) [
    | inl (memory', h) ↦ rw h (written-Continues m address value memory' h)
    | inr (f, h) ↦ rw h (Continues-refl m)
  ]

  pub push_value-Continues :
      (m : VirtualMachine P) (value pc : ℕ) → Continues m (push_value m value pc).0
  unfolding push_value pushed
  push_value-Continues m value pc = if-Continues m _ _ _ (Continues-refl m) attempt
    where
      target : ℕ
      target = sub64 m.cpu.sp 8

      attempt : Continues m (pushed m target pc (write_u64 m.memory target value)).0
      attempt = elim (Expected-cases (write_u64 m.memory target value)) [
        | inl (memory', h) ↦ rw h (record {
          regions = write_u64-Evolves m.memory target memory' value h;
          registers = refl;
        })
        | inr (f, h) ↦ rw h (Continues-refl m)
      ]

  popped-Continues :
      (m : VirtualMachine P) (pc : ℕ) (r : MemoryResult ℕ) → Continues m (popped m pc r).0
  unfolding popped
  popped-Continues m pc (ok value) = record {
    regions = Evolves-refl m.memory.regions;
    registers = refl;
  }
  popped-Continues m pc (err f) = Continues-refl m

  pub pop_value-Continues : (m : VirtualMachine P) (pc : ℕ) → Continues m (pop_value m pc).0
  unfolding pop_value
  pop_value-Continues m pc = if-Continues m _ _ _ (Continues-refl m) (popped-Continues m pc _)

  pub loaded_word-Continues :
      (m : VirtualMachine P) (pc dst : ℕ) (r : MemoryResult ℕ)
      → Continues m (loaded_word m pc dst r).0
  unfolding loaded_word
  loaded_word-Continues m pc dst (ok value) = Continues-set_register m dst value
  loaded_word-Continues m pc dst (err f) = Continues-refl m

  pub called-Continues :
      (m : VirtualMachine P) (target : ℕ) (s : Step P (Unit {0}))
      → Continues m s.0
      → Continues m (called target s).0
  unfolding called
  called-Continues m target (q, ok _) f = record { regions = f.regions; registers = f.registers }
  called-Continues m target (q, err e) f = f

  pub returned-Continues :
      (m : VirtualMachine P) (s : Step P ℕ) → Continues m s.0 → Continues m (returned s).0
  unfolding returned
  returned-Continues m (q, ok _) f = record { regions = f.regions; registers = f.registers }
  returned-Continues m (q, err e) f = f

  pub popped_to-Continues :
      (m : VirtualMachine P) (dst : ℕ) (s : Step P ℕ)
      → Continues m s.0
      → Continues m (popped_to dst s).0
  unfolding popped_to
  popped_to-Continues m dst (q, ok value) f =
      Continues-trans m q _ f (Continues-set_register q dst value)
  popped_to-Continues m dst (q, err e) f = f

  -- A choice of two machines.
  choice-Continues :
      (m : VirtualMachine P) (b : Bool) (x y : VirtualMachine P)
      → Continues m x
      → Continues m y
      → Continues m (if b then x else y)
  choice-Continues m true x y f g = f
  choice-Continues m false x y f g = g

  alu_done-Continues :
      (m : VirtualMachine P) (pc dst : ℕ) (r : Expected AluError AluResult)
      → Continues m (alu_done m pc dst r).0
  unfolding alu_done write_flags
  alu_done-Continues m pc dst (err e) = Continues-refl m
  alu_done-Continues m pc dst (ok r) = Continues-trans m q _ value (flagged q)
    where
      q : VirtualMachine P
      q = if r.writes_value then set_register m dst r.value else m

      value : Continues m q
      value =
          choice-Continues m r.writes_value _ _ (Continues-set_register m dst r.value)
            (Continues-refl m)

      flagged : (p : VirtualMachine P) → Continues p (write_flags r p)
      flagged p =
          choice-Continues p r.writes_flags _ _
            (record { regions = Evolves-refl p.memory.regions; registers = refl })
            (Continues-refl p)

  pub branch_or_alu-Continues :
      (i : Instruction) (pc : ℕ) (m : VirtualMachine P) → Continues m (branch_or_alu i pc m).0
  unfolding branch_or_alu
  branch_or_alu-Continues i pc m =
      if-Continues m _ _ _
        (choice-Continues m _ _ _
          (record { regions = Evolves-refl m.memory.regions; registers = refl }) (Continues-refl m))
        (alu_done-Continues m pc i.dst _)

  pub syscall_done-Continues :
      (m : VirtualMachine P) (pc : ℕ) (outcome : Outcome P)
      → Preserves (context_of m) outcome
      → Continues m (syscall_done m pc outcome).0
  unfolding syscall_done
  syscall_done-Continues m pc (provider, context, err e) f = record {
    regions = f.regions;
    registers = f.registers;
  }
  syscall_done-Continues m pc (provider, context, ok _) f =
      choice-Continues m context.halt _ _ (record { regions = f.regions; registers = f.registers })
        (record { regions = f.regions; registers = f.registers })
