-- ===== src/Ir.antt =====
-- include/minitool/ir/ir.hpp and src/ir/ir.cpp: the intermediate representation that the optimizer
-- works on. `sectionFor` gives back the module with the index of the section in place of a
-- reference.
pub mod Sections
pub mod Lower
use text.Mathlib.Text.{◌==◌ as str_eq}
use mini_tool_chain.Base.{
  ℕ, zero, suc, ◌+◌, Bool, true, false, List, [], ◌∷◌, ◌++◌, Option, none, some, String, ◌==◌,
  if◌then◌else◌,
}
use mini_tool_chain.Base.Int.{ℤ}
use mini_tool_chain.Isa.Encoding as Isa

pub data SectionKind : Type 0 where
  text_section rodata_section data_section bss_section : SectionKind

kind_value : SectionKind → ℕ
kind_value text_section = 0
kind_value rodata_section = 1
kind_value data_section = 2
kind_value bss_section = 3

unfoldable pub same_kind : SectionKind → SectionKind → Bool
unfolding kind_value
same_kind a b = kind_value a == kind_value b

unfoldable pub section_name : SectionKind → String
section_name text_section = ".text"
section_name rodata_section = ".rodata"
section_name data_section = ".data"
section_name bss_section = ".bss"

unfoldable pub section_kind_from_name : String → Option SectionKind
section_kind_from_name name =
    if str_eq name ".text"
    then some text_section
    else if str_eq name ".rodata"
    then some rodata_section
    else if str_eq name ".data"
    then some data_section
    else if str_eq name ".bss"
    then some bss_section
    else none

unfoldable pub section_has_data : SectionKind → Bool
section_has_data bss_section = false
section_has_data _ = true

pub record SourceLocation : Type 0 where
  pub file : ℕ
  pub line : ℕ
  pub column : ℕ
  pub span : ℕ

pub record SymbolRef : Type 0 where
  pub name : String
  pub addend : ℤ

pub record Instruction : Type 0 where
  pub machine : Isa.Instruction
  pub symbol : Option SymbolRef
  pub location : SourceLocation

unfoldable pub is_symbolic : Instruction → Bool
is_symbolic i = elim i.symbol [ none ↦ false | some _ ↦ true ]

pub record Label : Type 0 where
  pub name : String
  pub is_local : Bool
  pub location : SourceLocation

-- The alternatives of the variant; the last location is that of the item.
pub data Item : Type 0 where
  instruction : Instruction → Item
  label : Label → Item
  bytes : List ℕ → SourceLocation → Item
  symbol_value : ℕ → SymbolRef → SourceLocation → Item
  space : ℕ → ℕ → SourceLocation → Item
  align : ℕ → SourceLocation → Item

unfoldable pub item_location : Item → SourceLocation
item_location (instruction i) = i.location
item_location (label l) = l.location
item_location (bytes _ at) = at
item_location (symbol_value _ _ at) = at
item_location (space _ _ at) = at
item_location (align _ at) = at

pub record Section : Type 0 where
  pub kind : SectionKind
  pub name : String
  pub alignment : ℕ
  pub items : List Item

pub record Module : Type 0 where
  pub source_name : String
  pub sections : List Section
  pub globals : List String
  pub externs : List String
  pub weaks : List String

new_section : SectionKind → Section
unfolding section_name
new_section kind = record { kind = kind; name = section_name kind; alignment = 8; items = [] }

-- The index of the first section of the kind, behind `at` others, and the sections with it.
section_in : ℕ → List Section → SectionKind → ℕ × List Section
unfolding same_kind new_section
section_in at [] kind = (at, new_section kind ∷ [])
section_in at (s ∷ rest) kind =
    let (found, rest') = section_in (suc at) rest kind in
    if same_kind s.kind kind then (at, s ∷ rest) else (found, s ∷ rest')

unfoldable pub section_for : Module → SectionKind → ℕ × Module
unfolding section_in
section_for m kind =
    let (found, sections') = section_in 0 m.sections kind in
    (found, record m { sections = sections' })

find_in : List Section → SectionKind → Option Section
unfolding same_kind
find_in [] kind = none
find_in (s ∷ rest) kind = if same_kind s.kind kind then some s else find_in rest kind

unfoldable pub find_section : Module → SectionKind → Option Section
unfolding find_in
find_section m kind = find_in m.sections kind

unfoldable pub is_instruction : Item → Bool
is_instruction (instruction _) = true
is_instruction _ = false

unfoldable pub is_label : Item → Bool
is_label (label _) = true
is_label _ = false

unfoldable pub count_items : List Item → ℕ
unfolding is_instruction
count_items [] = 0
count_items (item ∷ rest) = (if is_instruction item then 1 else 0) + count_items rest

unfoldable pub count_sections : List Section → ℕ
count_sections [] = 0
count_sections (s ∷ rest) = count_items s.items + count_sections rest

unfoldable pub instruction_count : Module → ℕ
instruction_count m = count_sections m.sections
