-- ===== src/Object/Files.antt =====
-- The object file of include/minitool/object/object.hpp and `findSection` of src/object/object.cpp.
use package.text.Mathlib.Text.{◌==◌ as str_eq}
use mini_tool_chain.Base.{
  ℕ, Bool, Option, none, some, List, [], ◌∷◌, String, bit_and, leb, ◌==◌, if◌then◌else◌,
}
use mini_tool_chain.Object.Symbols.{SymbolTable}
use mini_tool_chain.Object.Relocation.{Relocation}

pub data SectionType : Type 0 where
  null text rodata data_section bss : SectionType

pub section_type_value : SectionType → ℕ
section_type_value null = 0
section_type_value text = 1
section_type_value rodata = 2
section_type_value data_section = 3
section_type_value bss = 4

-- The `==` of the type.
unfoldable pub same_section_type : SectionType → SectionType → Bool
unfolding section_type_value
same_section_type a b = section_type_value a == section_type_value b

unfoldable pub section_type_name : SectionType → String
section_type_name null = "null"
section_type_name text = "text"
section_type_name rodata = "rodata"
section_type_name data_section = "data"
section_type_name bss = "bss"

unfoldable pub is_valid_section_type : ℕ → Bool
is_valid_section_type value = leb value 4

-- A set of flags is its number: 1 to occupy memory, 2 to write and 4 to execute.
abbrev pub SectionFlags : Type 0
SectionFlags = ℕ

abbrev pub has_section_flag : SectionFlags → SectionFlags → Bool
has_section_flag flags flag = bit_and flags flag == flag

pub record Section : Type 0 where
  pub name : String
  pub kind : SectionType
  pub flags : SectionFlags
  pub alignment : ℕ
  pub contents : List ℕ
  pub size : ℕ
  pub index : ℕ

pub record DebugEntry : Type 0 where
  pub section : ℕ
  pub file : ℕ
  pub offset : ℕ
  pub line : ℕ
  pub column : ℕ

pub record ObjectFile : Type 0 where
  pub version : ℕ
  pub sections : List Section
  pub symbols : SymbolTable
  pub relocations : List Relocation
  pub debug_info : List DebugEntry
  pub source_files : List String

unfoldable pub find_section : List Section → String → Option Section
find_section [] name = none
find_section (section ∷ rest) name =
    if str_eq section.name name then some section else find_section rest name
