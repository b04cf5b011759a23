-- ===== src/Assembler/Emission.antt =====
-- The second half of src/assembler/assembler.cpp: every item is encoded, with a relocation where a
-- symbol stands, and `assemble`.
pub mod Sizes
use mini_tool_chain.Base.{
  ℕ, ◌^◌, ◌%◌, Bool, true, false, not, ◌&&◌, ◌||◌, List, [], ◌∷◌, ◌++◌, Option, none, some, String,
  ◌==◌, if◌then◌else◌, length, get_or, set, replicate, Expected, ok, err,
}
use mini_tool_chain.Base.Int.{ℤ, pos}
use mini_tool_chain.Isa.Opcode.{Opcode, Format, jump, OpcodeInfo, find_opcode, codes}
use mini_tool_chain.Isa.Encoding.{EncodeError, encode_into, instruction_size}
use mini_tool_chain.Isa.Encoding as Isa
use mini_tool_chain.Ir.{
  SectionKind, section_has_data, SourceLocation, SymbolRef, Instruction, Item, instruction, label,
  bytes, symbol_value, space, align, Module, find_section,
}
use mini_tool_chain.Object.Relocation.{Relocation, RelocationType, abs32, abs64, imm48, pcrel48}
use mini_tool_chain.Object.Symbols.{Symbol, SymbolBinding, local, extern, new_symbol, find_or_add}
use mini_tool_chain.Object.Files.{Section, DebugEntry, ObjectFile}
use mini_tool_chain.Linker.Merging.{resize}
use mini_tool_chain.Linker.Resolving.{is_local}
use mini_tool_chain.Assembler.Layout.{
  AssemblyError, undefined_symbol, invalid_operand, internal_error, Assembly, no_location, report,
  align_up, with_symbol, with_table, default_section, items_of, collect_sections, layout_sections,
  apply_bindings,
}

relocation_of : Option OpcodeInfo → RelocationType
relocation_of none = imm48
relocation_of (some info) = elim info.format [ jump ↦ pcrel48 | _ ↦ imm48 ]

unfoldable pub relocation_for_instruction : Opcode → RelocationType
unfolding relocation_of
relocation_for_instruction op = relocation_of (find_opcode op)

-- A name that starts with ".L".
is_local_label : List ℕ → Bool
is_local_label (c ∷ d ∷ rest) = c == b'.' && d == b'L'
is_local_label _ = false

unfoldable pub reference_symbol : Assembly → SymbolRef → SourceLocation → Assembly × ℕ
unfolding is_local_label report
reference_symbol a r at =
    let (table, index) = find_or_add a.object.symbols r.name in
    let s = get_or table.symbols index (new_symbol r.name) in
    (
      if not s.defined && is_local s.binding
          then (if is_local_label (codes r.name)
              then report (with_table a table) at undefined_symbol
              else with_symbol a table index (record s { binding = extern }))
          else with_table a table,
      index,
    )

abbrev with_relocation : Assembly → Relocation → Assembly
with_relocation a r = record a {
  object = record a.object { relocations = a.object.relocations ++ (r ∷ []) };
}

-- A reference to the symbol from an offset of a section.
pub relocated : Assembly → ℕ → ℕ → RelocationType → SymbolRef → SourceLocation → Assembly
unfolding reference_symbol
relocated a section offset kind r at =
    let (a', index) = reference_symbol a r at in
    with_relocation a' (record {
      section = section;
      offset = offset;
      kind = kind;
      symbol = index;
      addend = r.addend;
    })

-- The bytes of a section so far, and the assembly.
pub record Emitted : Type 0 where
  pub contents : List ℕ
  pub assembly : Assembly

-- The bytes with room for the word, and the word in them if it was encoded.
pub encoded : ℕ → ℕ → SourceLocation → List ℕ → Assembly → Expected EncodeError (List ℕ) → Emitted
unfolding report
encoded section offset at room a (err e) = record {
  contents = room;
  assembly = report a at invalid_operand;
}
encoded section offset at room a (ok written) =
    let entry : DebugEntry = record {
      section = section;
      file = 0;
      offset = offset;
      line = at.line;
      column = at.column;
    } in
    record {
      contents = written;
      assembly = record a {
        object = record a.object { debug_info = a.object.debug_info ++ (entry ∷ []) };
      };
    }

referenced : ℕ → ℕ → Instruction → Option SymbolRef → Assembly → Assembly × Isa.Instruction
unfolding relocated relocation_for_instruction
referenced section offset i none a = (a, i.machine)
referenced section offset i (some r) a = (
  relocated a section offset (relocation_for_instruction i.machine.opcode) r i.location,
  record i.machine { imm = pos 0 },
)

pub emit_instruction : ℕ → Instruction → Emitted → Emitted
unfolding referenced encoded resize
emit_instruction section i e =
    let offset = length e.contents in
    let (a, machine) = referenced section offset i i.symbol e.assembly in
    let room = e.contents ++ replicate instruction_size 0 in
    encoded section offset i.location room a (encode_into room offset instruction_size machine)

unfoldable pub emit_item : ℕ → Item → Emitted → Emitted
unfolding emit_instruction relocated align_up resize
emit_item section (label l) e = e
emit_item section (instruction i) e = emit_instruction section i e
emit_item section (bytes b at) e = record e { contents = e.contents ++ b }
emit_item section (symbol_value width r at) e = record {
  contents = e.contents ++ replicate width 0;
  assembly =
      relocated e.assembly section (length e.contents) (if width == 4 then abs32 else abs64) r at;
}
emit_item section (space size fill at) e = record e { contents = e.contents ++ replicate size fill }
emit_item section (align alignment at) e = record e {
  contents = resize e.contents (align_up (length e.contents) alignment);
}

unfoldable pub emit_items : ℕ → List Item → Emitted → Emitted
unfolding emit_item
emit_items section [] e = e
emit_items section (item ∷ rest) e = emit_items section rest (emit_item section item e)

any_nonzero : List ℕ → Bool
any_nonzero [] = false
any_nonzero (b ∷ rest) = not (b == 0) || any_nonzero rest

-- The bytes become those of the section, or are dropped if it stores none.
pub finish_section : Bool → ℕ → Emitted → Assembly
unfolding any_nonzero report
finish_section holds_data index e =
    let s = get_or e.assembly.object.sections index default_section in
    let contents = if holds_data then e.contents else [] in
    let a = record e.assembly {
      object = record e.assembly.object {
        sections = set e.assembly.object.sections index (record s { contents = contents });
      };
    } in
    let wrong = if holds_data then not (length e.contents == s.size) else any_nonzero e.contents in
    if wrong then report a no_location internal_error else a

unfoldable pub emit_sections : Module → List (SectionKind × ℕ) → Assembly → Assembly
unfolding emit_items items_of finish_section section_has_data
emit_sections m [] a = a
emit_sections m ((kind, index) ∷ rest) a = emit_sections m rest (
    finish_section (section_has_data kind) index
      (emit_items index (items_of (find_section m kind)) (record { contents = []; assembly = a })))

answered :
    Assembly
    → List (AssemblyError × SourceLocation)
    → Expected (List (AssemblyError × SourceLocation)) ObjectFile
answered a [] = ok a.object
answered a (e ∷ rest) = err (e ∷ rest)

unfoldable pub assemble : Module → Expected (List (AssemblyError × SourceLocation)) ObjectFile
unfolding collect_sections layout_sections apply_bindings emit_sections answered
assemble m =
    let collected = collect_sections m in
    let bound = apply_bindings m (layout_sections m collected.kinds collected) in
    let a = emit_sections m collected.kinds bound in answered a a.errors
