-- ===== src/Examples/Linking.antt =====
-- Three small objects, linked: code that takes the address of a word, and two definitions of that
-- word.
use mathlib.Core.Option
use mini_tool_chain.Base.{
  ℕ, ◌≡◌, refl, arith, Bool, true, false, List, [], ◌∷◌, none, some, String, All, Expected, ok, err,
  length, get_elem?,
}
use mini_tool_chain.Base.Int.{pos}
use mini_tool_chain.Executable.{Executable, find_segment, validate}
use mini_tool_chain.Executable.Valid.{IsValid}
use mini_tool_chain.Vm.Memory.{empty_memory}
use mini_tool_chain.Vm.Cpu.{VirtualMachine, initial_cpu}
use mini_tool_chain.Vm.Loader.{load_executable}
use mini_tool_chain.Object.Relocation.{
  Relocation, imm48, apply_relocation, relocation_width, relocated_value,
}
use mini_tool_chain.Object.Symbols.{
  Symbol, SymbolBinding, global, weak, extern, object_symbol, empty_table, add_symbol,
}
use mini_tool_chain.Object.Symbols.Laws.{IsAdded, empty_table-IsIndexed, add_symbol-IsAdded}
use mini_tool_chain.Object.Files.{
  SectionType, text, data_section, same_section_type, Section, ObjectFile,
}
use mini_tool_chain.Linker.Merging.{
  default_options, LinkError, Region, init_regions, LaidOut, Placement, merge_sections,
}
use mini_tool_chain.Linker.Merging.Places.{Lies}
use mini_tool_chain.Linker.Merging.Merged.{HasU64Alignments, merge_sections-Lies}
use mini_tool_chain.ByteOrder.{load, store, sign_extend, fits_signed, fits_unsigned}
use mini_tool_chain.Isa.Opcode.{find_opcode, opcode_cast, opcode_value}
use mini_tool_chain.Isa.Encoding.{
  decode_from, decode, decode_as, decode_fields, fields_of, immediate_of, branch_displacement,
  encode_into, encode, encode_fields, immediate_field,
}
use mini_tool_chain.Linker.Patching.{reference_address}
use mini_tool_chain.Linker.Resolving.{
  address_of, emplace, str_ltb, replace, Definition, Resolution, no_resolution, find_definition,
  resolve_symbols,
}
use mini_tool_chain.Linker.Resolving.Chosen.{chosen, candidates}
use mini_tool_chain.Linker.Resolving.References
use mini_tool_chain.Linker.Resolving.References.{references, resolve_symbols-chosen}
use mini_tool_chain.Linker.Building.{link}
use mini_tool_chain.Linker.Building.Loads.{init_regions-IsRegion, link-loads}

abbrev symbol : String → SymbolBinding → ℕ → Bool → Symbol
symbol name binding value defined = record {
  name = name;
  binding = binding;
  kind = object_symbol;
  section = 0;
  value = value;
  size = 8;
  defined = defined;
}

abbrev object : Section → List Symbol → List Relocation → ObjectFile
object s symbols relocations = record {
  version = 1;
  sections = s ∷ [];
  symbols = record { symbols = symbols; index = [] };
  relocations = relocations;
  debug_info = [];
  source_files = [];
}

abbrev section : SectionType → ℕ → List ℕ → Section
section kind alignment contents = record {
  name = "";
  kind = kind;
  flags = 1;
  alignment = alignment;
  contents = contents;
  size = length contents;
  index = 0;
}

-- `_start: movi r1, word; halt`
abbrev code : ObjectFile
code =
    object
      (section text 8 (0 ∷ 0 ∷ 0 ∷ 0 ∷ 0 ∷ 0 ∷ 0x10 ∷ 0x11 ∷ 0 ∷ 0 ∷ 0 ∷ 0 ∷ 0 ∷ 0 ∷ 0 ∷ 1 ∷ []))
      (symbol "_start" global 0 true ∷ symbol "word" extern 0 false ∷ [])
      (record { section = 0; offset = 0; kind = imm48; symbol = 1; addend = pos 0 } ∷ [])

abbrev fallback : ObjectFile
fallback = object (section data_section 8 (1 ∷ 2 ∷ 3 ∷ [])) (symbol "word" weak 0 true ∷ []) []

abbrev strong_word : ObjectFile
strong_word = object (section data_section 4 (7 ∷ 7 ∷ [])) (symbol "word" global 1 true ∷ []) []

abbrev objects : List ObjectFile
objects = code ∷ fallback ∷ strong_word ∷ []

abbrev no_image : Executable
no_image = record {
  version = 0;
  entry_point = 0;
  segments = [];
  symbols = [];
  debug_info = [];
  source_files = [];
}

abbrev image_of : Expected LinkError Executable → Executable
image_of (ok exe) = exe
image_of (err _) = no_image

abbrev is_error : {A : Type 0} → Expected LinkError A → Bool
is_error (ok _) = false
is_error (err _) = true

objects-linked : link objects default_options ≡ ok (image_of (link objects default_options))
unfolding link merge_sections same_section_type resolve_symbols address_of find_definition emplace
    str_ltb replace reference_address apply_relocation relocation_width relocated_value fits_signed
    fits_unsigned decode_from decode decode_as decode_fields fields_of find_opcode opcode_cast
    opcode_value immediate_of sign_extend branch_displacement encode_into encode encode_fields
    immediate_field load store validate find_segment
objects-linked = refl

duplicate_test : is_error (link (strong_word ∷ objects) default_options) ≡ true
unfolding link same_section_type address_of emplace str_ltb
duplicate_test = refl

abbrev blank : VirtualMachine ℕ
blank = record {
  cpu = initial_cpu;
  memory = empty_memory;
  syscalls = 0;
  trace = none;
  loaded = false;
  stack_top = 0;
  stack_limit = 0;
}

objects-U64 : All HasU64Alignments objects
objects-U64 = omega arith

link-loads_example :
    IsValid (image_of (link objects default_options))
    × ((load_executable blank (image_of (link objects default_options))).1 ≡ ok tt)
link-loads_example =
    link-loads blank objects default_options (image_of (link objects default_options)) objects-U64
      (omega arith) objects-linked

abbrev rows_of : Expected LinkError (List Region × List LaidOut) → List Region × List LaidOut
rows_of (ok r) = r
rows_of (err _) = ([], [])

abbrev merged : List Region × List LaidOut
merged = rows_of (merge_sections (init_regions default_options) objects)

objects-merged : merge_sections (init_regions default_options) objects ≡ ok merged
unfolding merge_sections same_section_type
objects-merged = refl

-- The last section stands behind the other one, at offset 4.
merge_sections-Lies_example :
    (l : LaidOut) × (p : Placement) × (get_elem? merged.1 2 ≡ some l)
    × (l.object ≡ strong_word)
    × (get_elem? l.placements 0 ≡ some p)
    × Lies merged.0 (section data_section 4 (7 ∷ 7 ∷ [])) p
unfolding same_section_type
merge_sections-Lies_example =
    merge_sections-Lies (init_regions default_options) merged.0 objects merged.1
      (init_regions-IsRegion default_options) objects-U64 objects-merged 2 0 strong_word
      (section data_section 4 (7 ∷ 7 ∷ [])) refl refl refl

abbrev resolution_of : Expected LinkError Resolution → Resolution
resolution_of (ok r) = r
resolution_of (err _) = no_resolution

abbrev resolution : Resolution
resolution = resolution_of (resolve_symbols merged.0 merged.1)

objects-resolved : resolve_symbols merged.0 merged.1 ≡ ok resolution
unfolding resolve_symbols merge_sections same_section_type address_of find_definition emplace
    str_ltb replace
objects-resolved = refl

resolve_symbols-chosen_example :
    find_definition resolution.definitions "word"
    ≡ References.or_else
        (chosen (candidates merged.0 0 "word" merged.1))
        (references 0 "word" merged.1)
resolve_symbols-chosen_example =
    resolve_symbols-chosen merged.0 merged.1 resolution "word" objects-resolved

-- The strong definition, one byte behind offset 4 of .data.
word_test :
    Option.map (λ (d : Definition). d.address) (find_definition resolution.definitions "word")
    ≡ some 0x200005
unfolding resolve_symbols merge_sections same_section_type address_of find_definition emplace
    str_ltb replace
word_test = refl

abbrev start : Symbol
start = symbol "_start" global 0 true

add_symbol-IsAdded_example : IsAdded empty_table start (add_symbol empty_table start)
add_symbol-IsAdded_example =
    add_symbol-IsAdded empty_table start (omega arith) empty_table-IsIndexed
