-- ===== src/Assembler/Sema/Directives.antt =====
-- `checkDirective` of src/assembler/sema.cpp.
use package.text.Mathlib.Text.{◌==◌ as str_eq}
use mini_tool_chain.Base.{
  ℕ, ◌+◌, ◌-◌, bit_and, Bool, true, false, not, ◌&&◌, ◌||◌, List, [], ◌∷◌, ◌++◌, String, ◌==◌,
  if◌then◌else◌,
}
use mini_tool_chain.Base.Int.{pos, leb_ℤ, ltb_ℤ, pos_part, neg_part}
use mini_tool_chain.Word.{to_u64}
use mini_tool_chain.Ir.Lower.{is_symbol}
use mini_tool_chain.Ast.{
  Operand, section_directive, global_directive, extern_directive, weak_directive, asciz_directive,
  align_directive, space_directive, data_directive_width, DirectiveNode,
}
use mini_tool_chain.Assembler.Sema.Operands.{
  integer_overflow, invalid_directive, invalid_section_reference, invalid_relocation, Report,
  report_if, fits_in_width, is_immediate, is_string, is_value,
}

unfoldable pub is_known_section : String → Bool
is_known_section name =
    str_eq ".text" name || (str_eq ".rodata" name || (str_eq ".data" name || str_eq ".bss" name))

-- What is reported of each operand.
abbrev pub each : (Operand → List Report) → List Operand → List Report
each check [] = []
each check (o ∷ rest) = check o ++ each check rest

abbrev pub is_empty : List Operand → Bool
is_empty [] = true
is_empty (o ∷ rest) = false

check_name : Operand → List Report
check_name o =
    report_if (not (is_symbol o.type) || not (pos_part o.immediate + neg_part o.immediate == 0))
      invalid_directive o.location

check_names : DirectiveNode → List Report
unfolding check_name
check_names d =
    if is_empty d.operands then (invalid_directive, d.location) ∷ [] else each check_name d.operands

check_datum : ℕ → Operand → List Report
unfolding fits_in_width
check_datum width o =
    if not (is_value o.type)
    then (invalid_directive, o.location) ∷ []
    else if is_symbol o.type && (not (width == 8) && not (width == 4))
    then (invalid_relocation, o.location) ∷ []
    else report_if (is_immediate o.type && not (fits_in_width o.immediate width)) integer_overflow
        o.location

check_data : DirectiveNode → List Report
unfolding check_datum data_directive_width
check_data d =
    if is_empty d.operands
    then (invalid_directive, d.location) ∷ []
    else each (check_datum (data_directive_width d.type)) d.operands

check_section_name : Operand → List Report
unfolding is_known_section
check_section_name o =
    if not (is_symbol o.type)
    then (invalid_directive, o.location) ∷ []
    else report_if (not (is_known_section o.symbol)) invalid_section_reference o.location

check_alignment : Operand → List Report
check_alignment o =
    let value = to_u64 o.immediate in
    if not (is_immediate o.type) || leb_ℤ o.immediate (pos 0)
    then (invalid_directive, o.location) ∷ []
    else report_if (not (bit_and value (value - 1) == 0)) invalid_directive o.location

check_size : Operand → List Report
check_size o =
    report_if (not (is_immediate o.type) || ltb_ℤ o.immediate (pos 0)) invalid_directive o.location

check_fill : Operand → List Report
unfolding fits_in_width
check_fill o =
    report_if (not (is_immediate o.type) || not (fits_in_width o.immediate 1)) invalid_directive
      o.location

-- The directives with one operand, and .space with one or two.
with_one : DirectiveNode → (Operand → List Report) → List Operand → List Report
with_one d check (o ∷ []) = check o
with_one d check _ = (invalid_directive, d.location) ∷ []

check_space : DirectiveNode → List Operand → List Report
unfolding check_size check_fill
check_space d (o ∷ []) = check_size o
check_space d (o ∷ fill ∷ []) = check_size o ++ check_fill fill
check_space d _ = (invalid_directive, d.location) ∷ []

unfoldable pub check_directive : DirectiveNode → List Report
unfolding check_names check_data with_one check_section_name check_alignment check_space
check_directive d = elim d.type [
  | section_directive ↦ with_one d check_section_name d.operands
  | global_directive ↦ check_names d
  | extern_directive ↦ check_names d
  | weak_directive ↦ check_names d
  | asciz_directive ↦
      with_one d (λ o. report_if (not (is_string o.type)) invalid_directive o.location) d.operands
  | align_directive ↦ with_one d check_alignment d.operands
  | space_directive ↦ check_space d d.operands
  | _ ↦ check_data d
]
