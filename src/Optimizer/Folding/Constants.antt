-- ===== src/Optimizer/Folding/Constants.antt =====
-- `ConstantMap` against the registers of the virtual CPU.
use mini_tool_chain.Base.{
  ℕ, zero, suc, ◌<◌, ◌≡◌, ◌≢◌, inl, inr, refl, ap, ◌∙◌, Bool, true, false, ◌&&◌, Option, none, some,
  some-injective, Expected, ok, err, ==_iff, Bool-cases, Option-cases, length, length-set, get_or,
  set, get_or-set_self, get_or-set_ne, replicate,
}
use mini_tool_chain.Word.{IsU64, to_u64}
use mini_tool_chain.Isa.Opcode.{Opcode, mov, movi, lea, syscall, find_opcode}
use mini_tool_chain.Isa.Encoding as Isa
use mini_tool_chain.Isa.Semantics.{
  AluResult, AluError, evaluate_binary, evaluate_unary, is_binary_alu, is_unary_alu,
}
use mini_tool_chain.Isa.Semantics.Results.{
  to_u64-IsU64, evaluate_binary-IsU64, evaluate_unary-IsU64,
}
use mini_tool_chain.Vm.Syscall.{SyscallContext, Outcome}
use mini_tool_chain.Vm.Cpu.{VirtualMachine, done, set_register}
use mini_tool_chain.Vm.Machine.{alu_done, dispatch, execute}
use mini_tool_chain.Vm.Machine.Registers.{
  Touched, writes_dst_of, write_flags-registers, execute-Touched,
}
use mini_tool_chain.Vm.Machine.Arithmetic.{execute-dispatch}
use mini_tool_chain.Optimizer.Queries.{writes_register}
use mini_tool_chain.Optimizer.Folding.{
  ConstantMap, no_constants, constant, set_constant, clear_constant, clear_written, fold_move,
  fold_evaluated, fold_operands, fold_other, fold_machine,
}
use mini_tool_chain.Optimizer.Folding.Sound.{constant-set, Agrees, folded_runs}

writes_register-writes_dst_of :
    (i : Isa.Instruction) → writes_register i i.dst ≡ writes_dst_of i.opcode
unfolding writes_register writes_dst_of
writes_register-writes_dst_of i = elim (Option-cases (find_opcode i.opcode)) [
  | inl missing ↦ rw (missing, writes_register, writes_dst_of) refl
  | inr (info, found) ↦
      rw (found, writes_register, writes_dst_of, (==_iff i.dst i.dst).1 refl)
        (and_true info.writes_dst)
]
  where
    and_true : (b : Bool) → (b && true) ≡ b
    and_true true = refl
    and_true false = refl

module _ {P : Type 0} where
  keep-Agrees :
      (c : ConstantMap) (m m' : VirtualMachine P)
      → Agrees c m
      → m'.cpu.registers ≡ m.cpu.registers
      → Agrees c m'
  keep-Agrees c m m' a same = record {
    sized = ap length same ∙ a.sized;
    known = λ r v h. let k = a.known r v h in (ap (λ rs. get_or rs r 0) same ∙ k.0, k.1);
  }

  set-Agrees :
      (c : ConstantMap) (m m' : VirtualMachine P) (dst v : ℕ)
      → dst < 16
      → Agrees c m
      → m'.cpu.registers ≡ set m.cpu.registers dst v
      → IsU64 v
      → Agrees (set_constant c dst v) m'
  set-Agrees c m m' dst v h a same bound = record {
    sized = ap length same ∙ length-set m.cpu.registers dst v ∙ a.sized;
    known = λ r w found. elim (constant-set c dst r w (some v) found) [
      | inl (here, value) ↦
          let equal : v ≡ w = some-injective v w value in
          (
            rw (here, same, ← equal) (get_or-set_self m.cpu.registers dst v 0 (rw (a.sized) h)),
            rw (← equal) bound,
          )
      | inr (apart, old) ↦
          let k = a.known r w old in
          (ap (λ rs. get_or rs r 0) same ∙ get_or-set_ne m.cpu.registers dst r v 0 apart ∙ k.0, k.1)
    ];
  }

  clear-Agrees :
      (c : ConstantMap) (m m' : VirtualMachine P) (op : Opcode) (dst : ℕ)
      → Agrees c m
      → Touched op dst m m'
      → Agrees (clear_constant c dst) m'
  clear-Agrees c m m' op dst a touched = record {
    sized = elim touched [
      | inl same ↦ ap length same ∙ a.sized
      | inr (v, same, w) ↦ ap length same ∙ length-set m.cpu.registers dst v ∙ a.sized
    ];
    known = λ r w found. elim (constant-set c dst r w none found) [
      | inl (here, value) ↦ cc value
      | inr (apart, old) ↦
          let k = a.known r w old in
          (
            elim touched [
              | inl same ↦ ap (λ rs. get_or rs r 0) same ∙ k.0
              | inr (v, same, u) ↦
                  ap (λ rs. get_or rs r 0) same
                  ∙ get_or-set_ne m.cpu.registers dst r v 0 apart
                  ∙ k.0
            ],
            k.1,
          )
    ];
  }

  clear_written-Agrees :
      (i : Isa.Instruction) (c : ConstantMap) (m m' : VirtualMachine P)
      → Agrees c m
      → Touched i.opcode i.dst m m'
      → Agrees (clear_written i c) m'
  unfolding clear_written
  clear_written-Agrees i c m m' a touched = elim (Bool-cases (writes_register i i.dst)) [
    | inl written ↦ rw written (clear-Agrees c m m' i.opcode i.dst a touched)
    | inr unwritten ↦ rw unwritten (elim touched [
      | inl same ↦ keep-Agrees c m m' a same
      | inr (v, same, w) ↦ cc (unwritten, writes_register-writes_dst_of i, w)
    ])
  ]

  module _ (invoke : P → ℕ → SyscallContext → Outcome P) (dead : Bool) (i : Isa.Instruction)
      (c : ConstantMap) (pc : ℕ) (m : VirtualMachine P) (dst : i.dst < 16) (src : i.src < 16)
      (agrees : Agrees c m) (no_call : i.opcode ≢ syscall) where
    touched : Touched i.opcode i.dst m (execute invoke i pc m).0
    touched = execute-Touched invoke i pc m no_call

    -- The destination got the value.
    got :
        (v : ℕ)
        → (execute invoke i pc m).0.cpu.registers ≡ set m.cpu.registers i.dst v
        → IsU64 v
        → Agrees (set_constant c i.dst v) (execute invoke i pc m).0
    got v same bound = set-Agrees c m (execute invoke i pc m).0 i.dst v dst agrees same bound

    constant_loaded :
        (op : Opcode)
        → i.opcode ≡ op
        → ((j : Isa.Instruction)
            → dispatch invoke op j pc m ≡ done (set_register m j.dst (to_u64 j.imm)))
        → Agrees (set_constant c i.dst (to_u64 i.imm)) (execute invoke i pc m).0
    constant_loaded op e runs =
        got (to_u64 i.imm)
          (ap (λ s. s.0.cpu.registers)
            (execute-dispatch invoke i pc m dst src
              ∙ ap (λ o. dispatch invoke o i pc m) e
              ∙ runs i))
          (to_u64-IsU64 i.imm)

    fold_move-Agrees :
        (known : Option ℕ)
        → i.opcode ≡ mov
        → constant c i.src ≡ known
        → Agrees (fold_move i c known).1 (execute invoke i pc m).0
    unfolding fold_move dispatch
    fold_move-Agrees none e look = clear-Agrees c m _ i.opcode i.dst agrees touched
    fold_move-Agrees (some v) e look =
        let value = agrees.known i.src v look in
        got v
          (ap (λ s. s.0.cpu.registers)
              (execute-dispatch invoke i pc m dst src ∙ ap (λ o. dispatch invoke o i pc m) e)
            ∙ ap (set m.cpu.registers i.dst) value.0)
          value.1

    fold_evaluated-Agrees :
        (e : Expected AluError AluResult)
        → execute invoke i pc m ≡ alu_done m pc i.dst e
        → ((r : AluResult) → e ≡ ok r → IsU64 r.value)
        → Agrees (fold_evaluated dead i c e).1 (execute invoke i pc m).0
    unfolding fold_evaluated alu_done
    fold_evaluated-Agrees (err f) runs bound = clear-Agrees c m _ i.opcode i.dst agrees touched
    fold_evaluated-Agrees (ok r) runs bound = elim (Bool-cases r.writes_value) [
      | inr no_value ↦ rw no_value (
          keep-Agrees c m _ agrees
            (ap (λ s. s.0.cpu.registers) (rw no_value at runs) ∙ write_flags-registers r m))
      | inl value ↦ rw value (
          got r.value
            (ap (λ s. s.0.cpu.registers) (rw value at runs)
              ∙ write_flags-registers r (set_register m i.dst r.value))
            (bound r refl))
    ]

    unknown : Agrees (clear_written i c) (execute invoke i pc m).0
    unknown = clear_written-Agrees i c m (execute invoke i pc m).0 agrees touched

    binary-Agrees :
        (lhs rhs : Option ℕ)
        → is_binary_alu i.opcode ≡ true
        → constant c i.dst ≡ lhs
        → constant c i.src ≡ rhs
        → Agrees (fold_operands dead i c lhs rhs).1 (execute invoke i pc m).0
    unfolding fold_operands
    binary-Agrees none rhs bin l r = unknown
    binary-Agrees (some a) none bin l r = unknown
    binary-Agrees (some a) (some b) bin l r =
        let lhs = agrees.known i.dst a l in
        let rhs = agrees.known i.src b r in
        rw bin (
          fold_evaluated-Agrees (evaluate_binary i.opcode a b)
            (folded_runs invoke dead i c pc m dst src agrees (evaluate_binary i.opcode a b)
              (rw bin refl) (rw (lhs.0, rhs.0, bin) refl))
            (λ res made. evaluate_binary-IsU64 a b res lhs.1 rhs.1 i.opcode made))

    unary-Agrees :
        (lhs : Option ℕ)
        → is_binary_alu i.opcode ≡ false
        → is_unary_alu i.opcode ≡ true
        → constant c i.dst ≡ lhs
        → Agrees (fold_operands dead i c lhs (some 0)).1 (execute invoke i pc m).0
    unfolding fold_operands
    unary-Agrees none not_bin un l = unknown
    unary-Agrees (some a) not_bin un l =
        let lhs = agrees.known i.dst a l in
        rw not_bin (
          fold_evaluated-Agrees (evaluate_unary i.opcode a)
            (folded_runs invoke dead i c pc m dst src agrees (evaluate_unary i.opcode a)
              (rw (not_bin, un) refl) (rw (lhs.0, not_bin) refl))
            (λ res made. evaluate_unary-IsU64 i.opcode a res made))

    fold_other-Agrees : Agrees (fold_other dead i c).1 (execute invoke i pc m).0
    unfolding fold_other
    fold_other-Agrees = elim (Bool-cases (is_binary_alu i.opcode)) [
      | inl bin ↦
          rw (bin, fold_other) (binary-Agrees (constant c i.dst) (constant c i.src) bin refl refl)
      | inr not_bin ↦ elim (Bool-cases (is_unary_alu i.opcode)) [
        | inl un ↦ rw (not_bin, un, fold_other) (unary-Agrees (constant c i.dst) not_bin un refl)
        | inr not_un ↦ rw (not_bin, not_un, fold_other) unknown
      ]
    ]

    pub fold_opcode-Agrees :
        (op : Opcode)
        → i.opcode ≡ op
        → Agrees (fold_machine op dead i c).1 (execute invoke i pc m).0
    unfolding fold_machine dispatch
    fold_opcode-Agrees movi e = constant_loaded movi e (λ j. refl)
    fold_opcode-Agrees lea e = constant_loaded lea e (λ j. refl)
    fold_opcode-Agrees mov e = fold_move-Agrees (constant c i.src) e refl
    fold_opcode-Agrees _ e = fold_other-Agrees

no_constants-none : (n r : ℕ) → constant (replicate n none) r ≡ none
no_constants-none zero r = refl
no_constants-none (suc n) zero = refl
no_constants-none (suc n) (suc r) = no_constants-none n r

-- The map that a block starts with.
pub no_constants-Agrees :
    {P : Type 0} (m : VirtualMachine P) → length m.cpu.registers ≡ 16 → Agrees no_constants m
no_constants-Agrees m h = record {
  sized = h;
  known = λ r v found. cc (no_constants-none 16 r, found);
}
