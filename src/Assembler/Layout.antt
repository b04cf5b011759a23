-- ===== src/Assembler/Layout.antt =====
-- The first half of src/assembler/assembler.cpp: the sections are collected, every item gets its
-- offset, labels become symbols, and the bindings are applied. `section_index_` and
-- `ordered_kinds_` are one list.
use mini_tool_chain.Base.{
  ℕ, ◌-◌, ◌%◌, ◌^◌, max, bit_or, true, List, [], ◌∷◌, ◌++◌, Option, none, some, String, leb, ◌==◌,
  if◌then◌else◌, length, get_or, set,
}
use mini_tool_chain.Word.{add64}
use mini_tool_chain.Isa.Encoding.{instruction_size}
use mini_tool_chain.Ir.{
  SectionKind, text_section, rodata_section, data_section, bss_section, section_name,
  SourceLocation, Label, Item, instruction, label, bytes, symbol_value, space, align, Module,
  find_section,
}
use mini_tool_chain.Ir as Ir
use mini_tool_chain.Object.Symbols.{
  Symbol, SymbolBinding, local, global, weak, extern, function_symbol, object_symbol, SymbolTable,
  empty_table, new_symbol, find_or_add,
}
use mini_tool_chain.Object.Files.{
  SectionType, text, rodata, bss, same_section_type, SectionFlags, Section, ObjectFile,
}

-- The codes of `diag::ErrorCode` that the assembly reports.
pub data AssemblyError : Type 0 where
  duplicate_symbol visibility_conflict undefined_symbol invalid_operand internal_error :
      AssemblyError

pub record Assembly : Type 0 where
  pub object : ObjectFile
  pub kinds : List (SectionKind × ℕ)
  pub errors : List (AssemblyError × SourceLocation)

abbrev pub no_location : SourceLocation
no_location = record { file = 0xffffffff; line = 0; column = 0; span = 0 }

unfoldable pub report : Assembly → SourceLocation → AssemblyError → Assembly
report a at error = record a { errors = a.errors ++ ((error, at) ∷ []) }

unfoldable pub align_up : ℕ → ℕ → ℕ
align_up value alignment =
    let remainder = value % alignment in
    if leb alignment 1
    then value
    else if remainder == 0
    then value
    else add64 value (alignment - remainder)

unfoldable pub section_type_of : SectionKind → SectionType
section_type_of text_section = text
section_type_of rodata_section = rodata
section_type_of data_section = SectionType.data_section
section_type_of bss_section = bss

unfoldable pub section_flags_of : SectionKind → SectionFlags
section_flags_of text_section = bit_or 1 4
section_flags_of rodata_section = 1
section_flags_of data_section = bit_or 1 2
section_flags_of bss_section = bit_or 1 2

collected : SectionKind → List Item → ℕ → Assembly → Assembly
unfolding section_type_of section_flags_of section_name
collected kind [] alignment a = a
collected kind (item ∷ items) alignment a =
    let index = length a.object.sections % 2 ^ 32 in
    record a {
      object = record a.object {
        sections =
            a.object.sections
            ++ (record {
              name = section_name kind;
              kind = section_type_of kind;
              flags = section_flags_of kind;
              alignment = alignment;
              contents = [];
              size = 0;
              index = index;
            }
                ∷ []);
      };
      kinds = a.kinds ++ ((kind, index) ∷ []);
    }

collect : SectionKind → Option Ir.Section → Assembly → Assembly
unfolding collected
collect kind none a = a
collect kind (some s) a = collected kind s.items s.alignment a

unfoldable pub collect_sections : Module → Assembly
unfolding collect
collect_sections m =
    let start : Assembly = record {
      object = record {
        version = 1;
        sections = [];
        symbols = empty_table;
        relocations = [];
        debug_info = [];
        source_files = m.source_name ∷ [];
      };
      kinds = [];
      errors = [];
    } in
    collect bss_section (find_section m bss_section) (
      collect data_section (find_section m data_section) (
        collect rodata_section (find_section m rodata_section)
          (collect text_section (find_section m text_section) start)))

-- The symbol at an index of the table, rewritten in place.
abbrev pub with_symbol : Assembly → SymbolTable → ℕ → Symbol → Assembly
with_symbol a table index s = record a {
  object = record a.object { symbols = record table { symbols = set table.symbols index s } };
}

abbrev pub with_table : Assembly → SymbolTable → Assembly
with_table a table = record a { object = record a.object { symbols = table } }

-- A default Section; the index is that of a collected section.
abbrev pub default_section : Section
default_section = record {
  name = "";
  kind = SectionType.null;
  flags = 0;
  alignment = 1;
  contents = [];
  size = 0;
  index = 0;
}

unfoldable pub define_label : Assembly → Label → ℕ → ℕ → Assembly
unfolding report
define_label a l section offset =
    let (table, index) = find_or_add a.object.symbols l.name in
    let s = get_or table.symbols index (new_symbol l.name) in
    let kind = (get_or a.object.sections section default_section).kind in
    if s.defined
    then report (with_table a table) l.location duplicate_symbol
    else with_symbol a table index (record s {
      defined = true;
      section = section;
      value = offset;
      binding = local;
      kind = if same_section_type kind text then function_symbol else object_symbol;
    })

-- The offset, the largest alignment and the assembly, after the items.
pub record Placed : Type 0 where
  pub offset : ℕ
  pub max_alignment : ℕ
  pub assembly : Assembly

abbrev moved : Placed → ℕ → Placed
moved p by = record p { offset = add64 p.offset by }

unfoldable pub place_item : ℕ → Item → Placed → Placed
unfolding align_up define_label
place_item section (label l) p = record p { assembly = define_label p.assembly l section p.offset }
place_item section (instruction i) p = moved p instruction_size
place_item section (bytes b at) p = moved p (length b)
place_item section (symbol_value width s at) p = moved p width
place_item section (space size fill at) p = moved p size
place_item section (align alignment at) p = record p {
  offset = align_up p.offset alignment;
  max_alignment = max p.max_alignment alignment;
}

unfoldable pub place_items : ℕ → List Item → Placed → Placed
unfolding place_item
place_items section [] p = p
place_items section (item ∷ rest) p = place_items section rest (place_item section item p)

-- The items of the section of a kind; the kind was collected.
unfoldable pub items_of : Option Ir.Section → List Item
items_of none = []
items_of (some s) = s.items

placed_section : ℕ → Placed → Assembly
placed_section index p =
    let s = get_or p.assembly.object.sections index default_section in
    record p.assembly {
      object = record p.assembly.object {
        sections =
            set p.assembly.object.sections index
              (record s { size = p.offset; alignment = p.max_alignment });
      };
    }

unfoldable pub layout_sections : Module → List (SectionKind × ℕ) → Assembly → Assembly
unfolding place_items items_of placed_section
layout_sections m [] a = a
layout_sections m ((kind, index) ∷ rest) a =
    let start : Placed = record {
      offset = 0;
      max_alignment = (get_or a.object.sections index default_section).alignment;
      assembly = a;
    } in
    layout_sections m rest
      (placed_section index (place_items index (items_of (find_section m kind)) start))

bind_names : SymbolBinding → List String → Assembly → Assembly
bind_names binding [] a = a
bind_names binding (name ∷ rest) a =
    let (table, index) = find_or_add a.object.symbols name in
    let s = get_or table.symbols index (new_symbol name) in
    bind_names binding rest (with_symbol a table index (record s { binding = binding }))

bind_externs : List String → Assembly → Assembly
unfolding report
bind_externs [] a = a
bind_externs (name ∷ rest) a =
    let (table, index) = find_or_add a.object.symbols name in
    let s = get_or table.symbols index (new_symbol name) in
    bind_externs rest (
      if s.defined
      then report (with_table a table) no_location visibility_conflict
      else with_symbol a table index (record s { binding = extern }))

unfoldable pub apply_bindings : Module → Assembly → Assembly
unfolding bind_names bind_externs
apply_bindings m a =
    bind_externs m.externs (bind_names weak m.weaks (bind_names global m.globals a))
