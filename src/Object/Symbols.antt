-- ===== src/Object/Symbols.antt =====
-- include/minitool/assembler/symbol_table.hpp: the symbols of one object in a stable order, with an
-- index from names. The index is the standard library's hash map, here an association list.
pub mod Laws
use package.text.Mathlib.Text.{◌==◌ as str_eq}
use mini_tool_chain.Base.{
  ℕ, ◌%◌, ◌^◌, Bool, true, false, Option, none, some, List, [], ◌∷◌, ◌++◌, String, length,
  get_elem?, set, if◌then◌else◌,
}

abbrev pub undefined_section : ℕ
undefined_section = 0xffffffff

pub data SymbolBinding : Type 0 where
  local global weak extern : SymbolBinding

pub data SymbolType : Type 0 where
  no_type object_symbol function_symbol section_symbol : SymbolType

pub record Symbol : Type 0 where
  pub name : String
  pub binding : SymbolBinding
  pub kind : SymbolType
  pub section : ℕ
  pub value : ℕ
  pub size : ℕ
  pub defined : Bool

-- The symbol that a first mention makes.
abbrev pub new_symbol : String → Symbol
new_symbol name = record {
  name = name;
  binding = local;
  kind = no_type;
  section = undefined_section;
  value = 0;
  size = 0;
  defined = false;
}

pub record SymbolTable : Type 0 where
  pub symbols : List Symbol
  pub index : List (String × ℕ)

abbrev pub empty_table : SymbolTable
empty_table = record { symbols = []; index = [] }

unfoldable pub index_of : List (String × ℕ) → String → Option ℕ
index_of [] name = none
index_of ((key, position) ∷ rest) name =
    if str_eq key name then some position else index_of rest name

-- The table with the symbol, and its index, given what the index says of its name.
added : SymbolTable → Symbol → Option ℕ → SymbolTable × ℕ
added t symbol (some position) = (record t { symbols = set t.symbols position symbol }, position)
added t symbol none =
    let position = length t.symbols % 2 ^ 32 in
    (
      record { symbols = t.symbols ++ (symbol ∷ []); index = (symbol.name, position) ∷ t.index },
      position,
    )

unfoldable pub add_symbol : SymbolTable → Symbol → SymbolTable × ℕ
unfolding added
add_symbol t symbol = added t symbol (index_of t.index symbol.name)

found_or_added : SymbolTable → String → Option ℕ → SymbolTable × ℕ
found_or_added t name (some position) = (t, position)
found_or_added t name none = add_symbol t (new_symbol name)

unfoldable pub find_or_add : SymbolTable → String → SymbolTable × ℕ
unfolding found_or_added
find_or_add t name = found_or_added t name (index_of t.index name)

symbol_at : List Symbol → Option ℕ → Option Symbol
symbol_at symbols none = none
symbol_at symbols (some position) = get_elem? symbols position

unfoldable pub find_symbol : SymbolTable → String → Option Symbol
unfolding symbol_at
find_symbol t name = symbol_at t.symbols (index_of t.index name)
