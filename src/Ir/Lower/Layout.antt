-- ===== src/Ir/Lower/Layout.antt =====
-- Every statement keeps items in the sections that they are allowed in.
use mini_tool_chain.Base.{
  ℕ, ◌≡◌, refl, subst, true, false, not, List, [], ◌∷◌, ◌++◌, Option, none, some, some-injective,
  if◌then◌else◌, All, ok, ok-injective, String, Bool-cases, Option-cases, inl, inr,
}
use mini_tool_chain.Base.Int.{pos}
use mini_tool_chain.Word.{to_u64}
use mini_tool_chain.Isa.Opcode.{find_mnemonic}
use mini_tool_chain.Ast.{
  InstructionNode, DirectiveType, section_directive, global_directive, extern_directive,
  weak_directive, asciz_directive, align_directive, space_directive, DirectiveNode, Statement,
  instruction_node, label_node, directive_node, Program,
}
use mini_tool_chain.Ir.{
  SectionKind, text_section, bss_section, same_kind, Instruction, instruction, bytes, align, Module,
  section_kind_from_name,
}
use mini_tool_chain.Ir.Lower.{
  invalid_section_reference, Lowerer, report, emit, lower_data, enter_section, fill_of, lower_space,
  with_first, lower_directive, operand_fields, fresh, emitted, lower_instruction, lower_statement,
  lower_statements, empty_module, new_lowerer, lower,
}
use mini_tool_chain.Ir.Lower.Places.{
  is_allowed, IsPlaced, ArePlaced, section_for-ArePlaced, emit-ArePlaced, lower_data-ArePlaced,
  lower_space-ArePlaced, enter_section-ArePlaced, with_first-ArePlaced, label_allowed,
  align_allowed, data_allowed,
}

lower_asciz-ArePlaced :
    (d : DirectiveNode) (l l' : Lowerer)
    → ArePlaced l
    → (if same_kind l.current_kind bss_section
        then some (report l d.location invalid_section_reference)
        else with_first d.operands (λ o. emit (bytes (o.text ++ (0 ∷ [])) d.location) l))
      ≡ some l'
    → ArePlaced l'
unfolding report
lower_asciz-ArePlaced d l l' h made = elim (Bool-cases (same_kind l.current_kind bss_section)) [
  | inl bss ↦ subst ArePlaced (some-injective _ l' (rw bss at made)) h
  | inr other ↦
      with_first-ArePlaced d.operands (λ o. emit (bytes (o.text ++ (0 ∷ [])) d.location) l) l'
        (λ o.
          emit-ArePlaced (bytes (o.text ++ (0 ∷ [])) d.location) l
            (data_allowed l.current_kind (o.text ++ (0 ∷ [])) 0
              (record { name = ""; addend = pos 0 }) d.location other).0
            h)
        (rw other at made)
]

lower_directive-ArePlaced :
    (type : DirectiveType) (d : DirectiveNode) (l l' : Lowerer)
    → d.type ≡ type
    → ArePlaced l
    → lower_directive d l ≡ some l'
    → ArePlaced l'
unfolding lower_directive
lower_directive-ArePlaced section_directive d l l' e h made =
    with_first-ArePlaced d.operands (λ o. enter_section d (section_kind_from_name o.symbol) l) l'
      (λ o. enter_section-ArePlaced d (section_kind_from_name o.symbol) l h)
      (rw (e, lower_directive) at made)
lower_directive-ArePlaced global_directive d l l' e h made =
    subst ArePlaced (some-injective _ l' (rw (e, lower_directive) at made)) h
lower_directive-ArePlaced extern_directive d l l' e h made =
    subst ArePlaced (some-injective _ l' (rw (e, lower_directive) at made)) h
lower_directive-ArePlaced weak_directive d l l' e h made =
    subst ArePlaced (some-injective _ l' (rw (e, lower_directive) at made)) h
lower_directive-ArePlaced asciz_directive d l l' e h made =
    lower_asciz-ArePlaced d l l' h (rw (e, lower_directive) at made)
lower_directive-ArePlaced align_directive d l l' e h made =
    with_first-ArePlaced d.operands (λ o. emit (align (to_u64 o.immediate) d.location) l) l'
      (λ o.
        emit-ArePlaced (align (to_u64 o.immediate) d.location) l
          (align_allowed l.current_kind (to_u64 o.immediate) d.location) h)
      (rw (e, lower_directive) at made)
lower_directive-ArePlaced space_directive d l l' e h made =
    with_first-ArePlaced d.operands (λ o. lower_space d (to_u64 o.immediate) (fill_of d.operands) l)
      l' (λ o. lower_space-ArePlaced d (to_u64 o.immediate) (fill_of d.operands) l h)
      (rw (e, lower_directive) at made)
lower_directive-ArePlaced _ d l l' e h made =
    subst ArePlaced (some-injective (lower_data d l) l' (rw (e, lower_directive) at made))
      (lower_data-ArePlaced d l h)

instruction_allowed :
    (kind : SectionKind) (i : Instruction)
    → not (same_kind kind text_section) ≡ false
    → is_allowed kind (instruction i) ≡ true
unfolding is_allowed same_kind
instruction_allowed text_section i h = refl
instruction_allowed _ i h = cc h

emitted-ArePlaced :
    (l l' : Lowerer) (made_of : Option Instruction)
    → not (same_kind l.current_kind text_section) ≡ false
    → ArePlaced l
    → emitted l made_of ≡ some l'
    → ArePlaced l'
unfolding emitted
emitted-ArePlaced l l' none kind h made = cc made
emitted-ArePlaced l l' (some i) kind h made =
    subst ArePlaced (some-injective (emit (instruction i) l) l' made)
      (emit-ArePlaced (instruction i) l (instruction_allowed l.current_kind i kind) h)

module _ (to_upper : ℕ → ℕ) where
  lower_instruction-ArePlaced :
      (n : InstructionNode) (l l' : Lowerer)
      → ArePlaced l
      → lower_instruction to_upper n l ≡ some l'
      → ArePlaced l'
  unfolding lower_instruction report
  lower_instruction-ArePlaced n l l' h made =
      elim (Option-cases (find_mnemonic to_upper n.mnemonic)) [
        | inl unknown ↦
            subst ArePlaced (some-injective _ l' (rw (unknown, lower_instruction) at made)) h
        | inr (info, found) ↦ elim (Bool-cases (not (same_kind l.current_kind text_section))) [
          | inl elsewhere ↦
              subst ArePlaced
                (some-injective _ l' (rw (found, elsewhere, lower_instruction) at made)) h
          | inr in_text ↦
              emitted-ArePlaced l l'
                (operand_fields info.format n.operands (fresh info.opcode n.location)) in_text h
                (rw (found, in_text, lower_instruction) at made)
        ]
      ]

  lower_statement-ArePlaced :
      (s : Statement) (l l' : Lowerer)
      → ArePlaced l
      → lower_statement to_upper s l ≡ some l'
      → ArePlaced l'
  unfolding lower_statement
  lower_statement-ArePlaced (label_node n) l l' h made =
      subst ArePlaced (some-injective _ l' made) (
        emit-ArePlaced _ l
          (label_allowed l.current_kind
            (record { name = n.name; is_local = n.is_local; location = n.location }))
          h)
  lower_statement-ArePlaced (directive_node d) l l' h made =
      lower_directive-ArePlaced d.type d l l' refl h made
  lower_statement-ArePlaced (instruction_node n) l l' h made =
      lower_instruction-ArePlaced n l l' h made

  lower_statements-ArePlaced :
      (ss : List Statement) (l l' : Lowerer)
      → ArePlaced l
      → lower_statements to_upper ss l ≡ some l'
      → ArePlaced l'
  unfolding lower_statements
  lower_statements-ArePlaced [] l l' h made = subst ArePlaced (some-injective l l' made) h
  lower_statements-ArePlaced (s ∷ rest) l l' h made =
      elim (Option-cases (lower_statement to_upper s l)) [
        | inl thrown ↦ cc (rw (thrown, lower_statements) at made)
        | inr (l₁, found) ↦
            lower_statements-ArePlaced rest l₁ l' (lower_statement-ArePlaced s l l₁ h found)
              (rw (found, lower_statements) at made)
      ]

  -- In a module that the lowering gives, instructions stand only in sections of kind .text, and
  -- sections of kind .bss hold neither bytes nor symbol values, and no space filled with other than
  -- zeros.
  pub lower-IsPlaced :
      (program : Program) (name : String) (m : Module)
      → lower to_upper program name ≡ some (ok m)
      → All IsPlaced m.sections
  unfolding lower
  lower-IsPlaced program name m made =
      elim (Option-cases (lower_statements to_upper program.statements (new_lowerer name))) [
        | inl thrown ↦ cc (rw (thrown, lower) at made)
        | inr (l, found) ↦ elim (Bool-cases l.failed) [
          | inl failed ↦ cc (rw (found, failed, lower) at made)
          | inr fine ↦
              subst (λ q. All IsPlaced q.sections)
                (ok-injective l.module_ m
                  (some-injective _ (ok m) (rw (found, fine, lower) at made)))
                (lower_statements-ArePlaced program.statements (new_lowerer name) l
                  (section_for-ArePlaced (empty_module name) text_section tt) found)
        ]
      ]
