-- ===== src/Examples/Optimizer.antt =====
-- Sections for the optimizer, and what its theorems say of them.
use mini_tool_chain.Base.{
  ℕ, ◌+◌, ◌%◌, ◌^◌, ◌≡◌, refl, arith, inl, inr, Bool, true, false, List, [], ◌∷◌, Option, none,
  some, some-injective, String, ok, replicate, get_elem?, All-get_elem?,
}
use mini_tool_chain.Base.Int.{pos}
use mini_tool_chain.Isa.Opcode.{Opcode, halt, movi, add, je, cmp}
use mini_tool_chain.Isa.Encoding as Isa
use mini_tool_chain.Vm.Memory.{empty_memory}
use mini_tool_chain.Vm.Syscall.{SyscallContext, Outcome}
use mini_tool_chain.Vm.Cpu.{VirtualMachine, initial_cpu}
use mini_tool_chain.Vm.Machine.{execute}
use mini_tool_chain.Vm.Machine.Registers.{Touched, execute-Touched}
use mini_tool_chain.Ir.{
  Item, instruction, label, SourceLocation, Section, Module, text_section, instruction_count,
}
use mini_tool_chain.Optimizer.Liveness.{Node, flag_liveness, settled}
use mini_tool_chain.Optimizer.Liveness.Solution.{LiveOut, flag_liveness_sound}
use mini_tool_chain.Optimizer.Liveness.Settles.{InRange, flag_liveness-settles}
use mini_tool_chain.Optimizer.Flow.Ranges.{ends_in_label}
use mini_tool_chain.Optimizer.Cells.{OptStats, new_stats, o1}
use mini_tool_chain.Optimizer.Cells.Steps.{removals}
use mini_tool_chain.Optimizer.Folding.{ConstantMap, no_constants, set_constant, fold_machine}
use mini_tool_chain.Optimizer.Folding.Sound.{constant-set, Agrees, SameUnless}
use mini_tool_chain.Optimizer.Folding.Constants.{no_constants-Agrees}
use mini_tool_chain.Optimizer.Folding.Executes.{fold_machine-executes, fold_machine-Agrees}
use mini_tool_chain.Optimizer.Passes.{run_passes, run}
use mini_tool_chain.Optimizer.Passes.Layout.{outlines, run-instruction_count, run-outlines}
use mini_tool_chain.Optimizer.Passes.Total.{run_passes-total}

abbrev nowhere : SourceLocation
nowhere = record { file = 0; line = 1; column = 1; span = 0 }

abbrev plain : Opcode → ℕ → ℕ → ℕ → Item
plain op dst src imm = instruction (record {
  machine = record { opcode = op; dst = dst; src = src; imm = pos imm };
  symbol = none;
  location = nowhere;
})

abbrev branch_to : Opcode → String → Item
branch_to op name = instruction (record {
  machine = record { opcode = op; dst = 0; src = 0; imm = pos 0 };
  symbol = some (record { name = name; addend = pos 0 });
  location = nowhere;
})

abbrev label_at : String → Item
label_at name = label (record { name = name; is_local = false; location = nowhere })

-- Five is the sum of two and three.
abbrev sum_items : List Item
sum_items =
    plain movi 1 0 2 ∷ plain movi 2 0 3 ∷ plain add 1 2 0 ∷ plain cmp 1 2 0 ∷ plain halt 0 0 0 ∷ []

-- A branch to a label at the end of the section.
abbrev end_items : List Item
end_items = plain cmp 1 2 0 ∷ branch_to je "end" ∷ label_at "end" ∷ []

abbrev stats_of : Option (List Item × OptStats × Bool) → Option ℕ
stats_of none = none
stats_of (some (_, stats, _)) = some stats.constants_folded

sum_test : stats_of (run_passes sum_items new_stats) ≡ some 1
unfolding run_passes
sum_test = refl

-- The branch leads to a block that there is none of.
end_test : run_passes end_items new_stats ≡ none
unfolding run_passes
end_test = refl

abbrev code_section : Section
code_section = record {
  kind = text_section;
  name = ".text";
  alignment = 8;
  items = label_at "start" ∷ sum_items;
}

abbrev sum_module : Module
sum_module = record {
  source_name = "sum.asm";
  sections = code_section ∷ [];
  globals = [];
  externs = [];
  weaks = [];
}

abbrev sum_result : Option (Module × OptStats) → Module × OptStats
sum_result none = (sum_module, new_stats)
sum_result (some r) = r

sum_optimized : run o1 sum_module ≡ some (sum_result (run o1 sum_module))
unfolding run
sum_optimized = refl

run-instruction_count_example :
    let r = sum_result (run o1 sum_module) in
    (r.1.instructions_before ≡ instruction_count sum_module)
    × (r.1.instructions_after ≡ instruction_count r.0)
    × ((r.1.instructions_after + removals r.1) % 2 ^ 32 ≡ r.1.instructions_before % 2 ^ 32)
run-instruction_count_example =
    run-instruction_count o1 sum_module (sum_result (run o1 sum_module)).0
      (sum_result (run o1 sum_module)).1 sum_optimized

run-outlines_example :
    outlines (sum_result (run o1 sum_module)).0.sections ≡ outlines sum_module.sections
run-outlines_example =
    run-outlines o1 sum_module (sum_result (run o1 sum_module)).0 (sum_result (run o1 sum_module)).1
      sum_optimized

sum_ends : ends_in_label false sum_items ≡ false
unfolding ends_in_label
sum_ends = refl

run_passes-total_example :
    (r : List Item × OptStats × Bool) × (run_passes sum_items new_stats ≡ some r)
run_passes-total_example = run_passes-total sum_items new_stats sum_ends

-- A block that goes to a reader of FLAGS by way of one that does nothing, and itself.
abbrev passing : Node
passing = record { reads = false; writes = false; unknown = false; successors = 1 ∷ [] }

abbrev reading : Node
reading = record { reads = true; writes = false; unknown = false; successors = 1 ∷ 2 ∷ [] }

abbrev last_block : Node
last_block = record { reads = false; writes = true; unknown = false; successors = [] }

abbrev blocks : List Node
blocks = passing ∷ reading ∷ last_block ∷ []

blocks-settled : flag_liveness blocks ≡ settled (true ∷ true ∷ false ∷ [])
unfolding flag_liveness
blocks-settled = refl

flag_liveness_sound_example : ¬ LiveOut blocks 2
flag_liveness_sound_example =
    flag_liveness_sound blocks (true ∷ true ∷ false ∷ []) 2 blocks-settled refl

blocks-InRange : (i : ℕ) (node : Node) → get_elem? blocks i ≡ some node → InRange 3 node
blocks-InRange i node at =
    All-get_elem? (InRange 3) blocks i node
      ((omega arith, tt), ((omega arith, (omega arith, tt)), (tt, tt))) at

flag_liveness-settles_example : (outs : List Bool) × (flag_liveness blocks ≡ settled outs)
flag_liveness-settles_example = flag_liveness-settles blocks blocks-InRange

-- A machine that holds 2 and 3 in its first registers, with a provider that does nothing.
abbrev machine : VirtualMachine (Unit {0})
machine = record {
  cpu = record initial_cpu { registers = 0 ∷ 2 ∷ 3 ∷ replicate 13 0 };
  memory = empty_memory;
  syscalls = tt;
  trace = none;
  loaded = true;
  stack_top = 0;
  stack_limit = 0;
}

abbrev idle : Unit {0} → ℕ → SyscallContext → Outcome (Unit {0})
idle p number context = (p, context, ok tt)

abbrev addition : Isa.Instruction
addition = record { opcode = add; dst = 1; src = 2; imm = pos 0 }

abbrev folded_addition : Isa.Instruction
folded_addition = record { opcode = movi; dst = 1; src = 0; imm = pos 5 }

abbrev both_known : ConstantMap
both_known = set_constant (set_constant no_constants 1 2) 2 3

both_known-Agrees : Agrees both_known machine
both_known-Agrees = record {
  sized = refl;
  known = λ r v found. elim (constant-set (set_constant no_constants 1 2) 2 r v (some 3) found) [
    | inl (here, value) ↦
        let three : 3 ≡ v = some-injective 3 v value in (rw here three, rw (← three) (omega arith))
    | inr (apart, old) ↦ elim (constant-set no_constants 1 r v (some 2) old) [
      | inl (here, value) ↦
          let two : 2 ≡ v = some-injective 2 v value in (rw here two, rw (← two) (omega arith))
      | inr (apart', old') ↦ (no_constants-Agrees machine refl).known r v old'
    ]
  ];
}

addition-folds : (fold_machine addition.opcode false addition both_known).0 ≡ none
unfolding fold_machine
addition-folds = refl

-- Where FLAGS is dead, the sum is loaded.
addition-folds_dead :
    (fold_machine addition.opcode true addition both_known).0 ≡ some folded_addition
unfolding fold_machine
addition-folds_dead = refl

fold_machine-executes_example :
    SameUnless true (execute idle addition 0 machine) (execute idle folded_addition 0 machine)
fold_machine-executes_example =
    fold_machine-executes idle true addition folded_addition both_known 0 machine (omega arith)
      (omega arith) both_known-Agrees addition-folds_dead

fold_machine-Agrees_example :
    Agrees
      (fold_machine addition.opcode true addition both_known).1
      (execute idle addition 0 machine).0
fold_machine-Agrees_example =
    fold_machine-Agrees idle true addition both_known 0 machine (omega arith) (omega arith)
      both_known-Agrees (λ e. cc e)

execute-Touched_example : Touched add 1 machine (execute idle addition 0 machine).0
execute-Touched_example = execute-Touched idle addition 0 machine (λ e. cc e)
