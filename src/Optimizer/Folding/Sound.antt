-- ===== src/Optimizer/Folding/Sound.antt =====
-- Constant folding against the execution of the virtual CPU.
use mini_tool_chain.Base.{
  ℕ, zero, suc, ◌<◌, ◌≡◌, ◌≢◌, ◌⊎◌, inl, inr, refl, sym, ap, ◌∙◌, arith, Bool, true, false, not,
  ◌&&◌, ◌||◌, [], ◌∷◌, Option, none, some, some-injective, Expected, ok, err, Bool-cases, length,
  set,
}
use mini_tool_chain.Word.{IsU64, to_u64-to_i64}
use mini_tool_chain.Isa.Opcode.{Opcode, mov, movi, lea}
use mini_tool_chain.Isa.Encoding as Isa
use mini_tool_chain.Isa.Semantics.{
  AluResult, AluError, evaluate_binary, evaluate_unary, is_binary_alu, is_unary_alu,
}
use mini_tool_chain.Isa.Semantics.Results.{evaluate_binary-IsU64, evaluate_unary-IsU64}
use mini_tool_chain.Vm.Syscall.{SyscallContext, Outcome}
use mini_tool_chain.Vm.Cpu.{VirtualMachine, Step, done, set_register, register}
use mini_tool_chain.Vm.Machine.{write_flags, alu_done, dispatch, execute}
use mini_tool_chain.Vm.Machine.Registers.{result_of}
use mini_tool_chain.Vm.Machine.Arithmetic.{execute-alu, execute-dispatch}
use mini_tool_chain.Optimizer.Folding.{
  ConstantMap, constant, is_representable, load_constant, fold_move, fold_evaluated, fold_operands,
  fold_other, fold_machine,
}

-- An entry of the map that was written to.
pub constant-set :
    (c : ConstantMap) (i r v : ℕ) (x : Option ℕ)
    → constant (set c i x) r ≡ some v
    → ((r ≡ i) × (x ≡ some v)) ⊎ ((i ≢ r) × (constant c r ≡ some v))
constant-set [] i r v x h = cc h
constant-set (y ∷ c) zero zero v x h = inl (refl, h)
constant-set (y ∷ c) zero (suc r) v x h = inr ((λ e. absurd (omega arith)), h)
constant-set (y ∷ c) (suc i) zero v x h = inr ((λ e. absurd (omega arith)), h)
constant-set (y ∷ c) (suc i) (suc r) v x h = elim (constant-set c i r v x h) [
  | inl (e, found) ↦ inl (omega arith, found)
  | inr (apart, found) ↦ inr ((λ e. apart (omega arith)), found)
]

flags_unwritten :
    (writes dead fits : Bool)
    → dead ≡ false
    → ((not writes || dead) && fits) ≡ true
    → writes ≡ false
flags_unwritten false dead fits live h = refl
flags_unwritten true false fits live h = cc h
flags_unwritten true true fits live h = cc live

module _ {P : Type 0} where
  -- The sixteen registers hold what the map says, and those are u64 values.
  pub record Agrees (c : ConstantMap) (m : VirtualMachine P) : Type 0 where
    pub sized : length m.cpu.registers ≡ 16
    pub known : (r v : ℕ) → constant c r ≡ some v → (register m r ≡ v) × IsU64 v

  -- FLAGS of a step forgotten.
  abbrev pub without_flags : Step P (Unit {0}) → Step P (Unit {0})
  without_flags (m, r) = (record m { cpu = record m.cpu { flags = 0 } }, r)

  write_flags-without :
      (r : AluResult) (m : VirtualMachine P)
      → without_flags (done (write_flags r m)) ≡ without_flags (done m)
  unfolding write_flags
  write_flags-without r m = elim (Bool-cases r.writes_flags) [
    | inl yes_it ↦ rw yes_it
    | inr no_it ↦ rw no_it
  ]

  write_flags-none :
      (r : AluResult) (m : VirtualMachine P) → r.writes_flags ≡ false → write_flags r m ≡ m
  unfolding write_flags
  write_flags-none r m h = rw h refl

  -- Two steps that come to the same but for FLAGS, and, where those may be read, to the same.
  abbrev pub SameUnless : Bool → Step P (Unit {0}) → Step P (Unit {0}) → Type 0
  SameUnless dead s s' = (without_flags s ≡ without_flags s') × (dead ≡ false → s ≡ s')

  module _ (invoke : P → ℕ → SyscallContext → Outcome P) (dead : Bool) (i : Isa.Instruction)
      (c : ConstantMap) (pc : ℕ) (m : VirtualMachine P) (dst : i.dst < 16) (src : i.src < 16)
      (agrees : Agrees c m) where
    load_constant-executes :
        (v : ℕ) → IsU64 v → execute invoke (load_constant i v) pc m ≡ done (set_register m i.dst v)
    unfolding dispatch
    load_constant-executes v h =
        execute-dispatch invoke (load_constant i v) pc m dst (omega arith)
        ∙ ap (λ w. done (set_register m i.dst w)) (to_u64-to_i64 v h)

    fold_move-same :
        (i' : Isa.Instruction) (known : Option ℕ)
        → i.opcode ≡ mov
        → constant c i.src ≡ known
        → (fold_move i c known).0 ≡ some i'
        → SameUnless dead (execute invoke i pc m) (execute invoke i' pc m)
    unfolding fold_move dispatch
    fold_move-same i' none op look h = cc h
    fold_move-same i' (some v) op look h = elim (Bool-cases (is_representable v)) [
      | inr wide ↦ cc (rw wide at h)
      | inl fits ↦
          let made : load_constant i v ≡ i' = some-injective _ i' (rw fits at h) in
          let value = agrees.known i.src v look in
          let moved : execute invoke i pc m ≡ done (set_register m i.dst v) =
            execute-dispatch invoke i pc m dst src
            ∙ ap (λ o. dispatch invoke o i pc m) op
            ∙ ap (λ w. done (set_register m i.dst w)) value.0 in
          let same =
            moved ∙ sym (load_constant-executes v value.1) ∙ ap (λ j. execute invoke j pc m) made in
          (ap without_flags same, λ e. same)
    ]

    fold_evaluated-same :
        (i' : Isa.Instruction) (e : Expected AluError AluResult)
        → execute invoke i pc m ≡ alu_done m pc i.dst e
        → ((r : AluResult) → e ≡ ok r → IsU64 r.value)
        → (fold_evaluated dead i c e).0 ≡ some i'
        → SameUnless dead (execute invoke i pc m) (execute invoke i' pc m)
    unfolding fold_evaluated alu_done
    fold_evaluated-same i' (err f) runs bound h = cc h
    fold_evaluated-same i' (ok r) runs bound h = elim (Bool-cases r.writes_value) [
      | inr no_value ↦ cc (rw no_value at h)
      | inl value ↦ elim (Bool-cases ((not r.writes_flags || dead) && is_representable r.value)) [
        | inr kept ↦ cc (rw (value, kept) at h)
        | inl folds ↦
            let made : load_constant i r.value ≡ i' =
              some-injective _ i' (rw (value, folds) at h) in
            let after : execute invoke i' pc m ≡ done (set_register m i.dst r.value) =
              sym (ap (λ j. execute invoke j pc m) made)
              ∙ load_constant-executes r.value (bound r refl) in
            let before : execute invoke i pc m
                ≡ done (write_flags r (set_register m i.dst r.value)) =
              rw value at runs in
            (
              ap without_flags before
                  ∙ write_flags-without r (set_register m i.dst r.value)
                  ∙ sym (ap without_flags after),
              λ live.
                  before
                  ∙ ap done (
                      write_flags-none r (set_register m i.dst r.value)
                        (flags_unwritten r.writes_flags dead (is_representable r.value) live folds))
                  ∙ sym after,
            )
      ]
    ]

    -- An evaluation of known operands is the one that the virtual CPU makes.
    pub folded_runs :
        (e : Expected AluError AluResult)
        → (is_binary_alu i.opcode || is_unary_alu i.opcode) ≡ true
        → result_of i.opcode (register m i.dst) (register m i.src) ≡ e
        → execute invoke i pc m ≡ alu_done m pc i.dst e
    folded_runs e alu made = execute-alu invoke i pc m dst src alu ∙ ap (alu_done m pc i.dst) made

    binary-same :
        (i' : Isa.Instruction) (lhs rhs : Option ℕ)
        → is_binary_alu i.opcode ≡ true
        → constant c i.dst ≡ lhs
        → constant c i.src ≡ rhs
        → (fold_operands dead i c lhs rhs).0 ≡ some i'
        → SameUnless dead (execute invoke i pc m) (execute invoke i' pc m)
    unfolding fold_operands
    binary-same i' none rhs bin l r h = cc h
    binary-same i' (some a) none bin l r h = cc h
    binary-same i' (some a) (some b) bin l r h =
        let lhs = agrees.known i.dst a l in
        let rhs = agrees.known i.src b r in
        fold_evaluated-same i' (evaluate_binary i.opcode a b)
          (folded_runs (evaluate_binary i.opcode a b) (rw bin refl) (rw (lhs.0, rhs.0, bin) refl))
          (λ res made. evaluate_binary-IsU64 a b res lhs.1 rhs.1 i.opcode made) (rw bin at h)

    unary-same :
        (i' : Isa.Instruction) (lhs : Option ℕ)
        → is_binary_alu i.opcode ≡ false
        → is_unary_alu i.opcode ≡ true
        → constant c i.dst ≡ lhs
        → (fold_operands dead i c lhs (some 0)).0 ≡ some i'
        → SameUnless dead (execute invoke i pc m) (execute invoke i' pc m)
    unfolding fold_operands
    unary-same i' none not_bin un l h = cc h
    unary-same i' (some a) not_bin un l h =
        let lhs = agrees.known i.dst a l in
        fold_evaluated-same i' (evaluate_unary i.opcode a)
          (folded_runs (evaluate_unary i.opcode a) (rw (not_bin, un) refl)
            (rw (lhs.0, not_bin) refl))
          (λ res made. evaluate_unary-IsU64 i.opcode a res made) (rw not_bin at h)

    fold_other-same :
        (i' : Isa.Instruction)
        → (fold_other dead i c).0 ≡ some i'
        → SameUnless dead (execute invoke i pc m) (execute invoke i' pc m)
    unfolding fold_other
    fold_other-same i' h = elim (Bool-cases (is_binary_alu i.opcode)) [
      | inl bin ↦
          binary-same i' (constant c i.dst) (constant c i.src) bin refl refl
            (rw (bin, fold_other) at h)
      | inr not_bin ↦ elim (Bool-cases (is_unary_alu i.opcode)) [
        | inl un ↦
            unary-same i' (constant c i.dst) not_bin un refl (rw (not_bin, un, fold_other) at h)
        | inr not_un ↦ cc (rw (not_bin, not_un, fold_other) at h)
      ]
    ]

    pub fold_opcode-same :
        (op : Opcode) (i' : Isa.Instruction)
        → i.opcode ≡ op
        → (fold_machine op dead i c).0 ≡ some i'
        → SameUnless dead (execute invoke i pc m) (execute invoke i' pc m)
    unfolding fold_machine
    fold_opcode-same mov i' e h = fold_move-same i' (constant c i.src) e refl h
    fold_opcode-same movi i' e h = cc h
    fold_opcode-same lea i' e h = cc h
    fold_opcode-same _ i' e h = fold_other-same i' h
