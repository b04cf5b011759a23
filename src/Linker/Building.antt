-- ===== src/Linker/Building.antt =====
-- The last stage of src/linker/linker.cpp, the image with its symbols and debug entries, and
-- `link`.
pub mod Loads
use mini_tool_chain.Base.{
  ℕ, ◌%◌, ◌^◌, Bool, true, false, not, ◌&&◌, ◌||◌, Option, none, some, List, [], ◌∷◌, ◌++◌, String,
  ltb, leb, ◌==◌, if◌then◌else◌, Expected, ok, err, ◌>>=◌, reject_if, length, get_or,
}
use mini_tool_chain.Executable.{
  Executable, Segment, SymbolEntry, SymbolKind, function, object, no_kind, DebugEntry,
  ValidationError, validate,
}
use mini_tool_chain.Object.Symbols.{
  SymbolType, no_type, object_symbol, function_symbol, section_symbol, index_of,
}
use mini_tool_chain.Object.Files
use mini_tool_chain.Object.Files.{ObjectFile}
use mini_tool_chain.Linker.Merging.{
  LinkOptions, LinkError, no_objects, no_entry, invalid_executable, Region, init_regions, unplaced,
  LaidOut, merge_sections,
}
use mini_tool_chain.Linker.Resolving.{
  Definition, Definitions, Resolution, str_ltb, find_definition, default_region, placed_address,
  resolve_symbols,
}
use mini_tool_chain.Linker.Patching.{apply_relocations}

unfoldable pub symbol_kind : SymbolType → SymbolKind
symbol_kind function_symbol = function
symbol_kind object_symbol = object
symbol_kind _ = no_kind

abbrev pub segment_of : Region → Segment
segment_of r = record {
  kind = r.segment;
  flags = r.flags;
  name = r.name;
  virtual_address = r.base;
  virtual_size = r.size;
  contents = if r.zero_filled then [] else r.contents;
}

unfoldable pub build_segments : List Region → List Segment
build_segments [] = []
build_segments (r ∷ rest) =
    let segments = build_segments rest in if r.size == 0 then segments else segment_of r ∷ segments

abbrev pub symbol_entry : String → Definition → SymbolEntry
symbol_entry name d = record {
  name = name;
  address = d.address;
  size = d.size;
  kind = symbol_kind d.kind;
}

global_entries : Definitions → List SymbolEntry
unfolding symbol_kind
global_entries [] = []
global_entries ((name, d) ∷ rest) = symbol_entry name d ∷ global_entries rest

is_defined : Option Definition → Bool
is_defined none = false
is_defined (some d) = true

local_entries : Definitions → List (String × Definition) → List SymbolEntry
unfolding is_defined symbol_kind
local_entries ds [] = []
local_entries ds ((name, d) ∷ rest) =
    let entries = local_entries ds rest in
    if is_defined (find_definition ds name) then entries else symbol_entry name d ∷ entries

-- A sort by an order; elements that are equal in it keep their places, which the standard library's
-- sort leaves open.
module _ {A : Type 0} (less : A → A → Bool) where
  insert_by : A → List A → List A
  insert_by x [] = x ∷ []
  insert_by x (y ∷ rest) = if less x y then x ∷ y ∷ rest else y ∷ insert_by x rest

  sort_onto : List A → List A → List A
  unfolding insert_by
  sort_onto sorted [] = sorted
  sort_onto sorted (x ∷ rest) = sort_onto (insert_by x sorted) rest

symbol_less : SymbolEntry → SymbolEntry → Bool
symbol_less a b = if a.address == b.address then str_ltb a.name b.name else ltb a.address b.address

unfoldable pub build_symbols : Bool → Resolution → List SymbolEntry
unfolding global_entries local_entries sort_onto symbol_less
build_symbols keep_local_symbols r =
    let locals = if keep_local_symbols then local_entries r.definitions r.locals else [] in
    sort_onto symbol_less [] (global_entries r.definitions ++ locals)

-- The files and entries so far, and `file_index`.
pub record DebugInfo : Type 0 where
  files : List String
  entries : List DebugEntry
  file_index : List (String × ℕ)

with_entry : DebugInfo → ℕ → ℕ → ℕ → ℕ → DebugInfo
with_entry info address file line column = record info {
  entries =
      info.entries
      ++ (record { address = address; file = file; line = line; column = column } ∷ []);
}

-- The file's index, a new one if it is not known, and the entry.
add_entry : DebugInfo → String → ℕ → ℕ → ℕ → Option ℕ → DebugInfo
unfolding with_entry
add_entry info file address line column (some index) = with_entry info address index line column
add_entry info file address line column none =
    let index = length info.files % 2 ^ 32 in
    with_entry
      (record info {
        files = info.files ++ (file ∷ []);
        file_index = (file, index) ∷ info.file_index;
      })
      address index line column

debug_entry : List Region → LaidOut → DebugInfo → Files.DebugEntry → DebugInfo
unfolding add_entry
debug_entry regions laid info e =
    let p = get_or laid.placements e.section unplaced in
    let file = get_or laid.object.source_files e.file "" in
    let missing =
      leb (length laid.object.sections) e.section || leb (length laid.object.source_files) e.file in
    if missing || not p.placed
    then info
    else add_entry info file (placed_address regions p e.offset) e.line e.column
        (index_of info.file_index file)

debug_entries : List Region → LaidOut → DebugInfo → List Files.DebugEntry → DebugInfo
unfolding debug_entry
debug_entries regions laid info [] = info
debug_entries regions laid info (e ∷ rest) =
    debug_entries regions laid (debug_entry regions laid info e) rest

gather_debug : List Region → DebugInfo → List LaidOut → DebugInfo
unfolding debug_entries
gather_debug regions info [] = info
gather_debug regions info (laid ∷ rest) =
    gather_debug regions (debug_entries regions laid info laid.object.debug_info) rest

debug_less : DebugEntry → DebugEntry → Bool
debug_less a b = ltb a.address b.address

unfoldable pub build_debug_info : List Region → List LaidOut → List DebugEntry × List String
unfolding gather_debug sort_onto debug_less
build_debug_info regions laid =
    let none_yet : DebugInfo = record { files = []; entries = []; file_index = [] } in
    let info = gather_debug regions none_yet laid in
    (sort_onto debug_less [] info.entries, info.files)

-- The image before it is validated.
pub image_of : LinkOptions → List Region → List LaidOut → Resolution → ℕ → Executable
unfolding build_segments build_symbols build_debug_info
image_of o regions laid r entry_point =
    let (debug, files) = build_debug_info regions laid in
    record {
      version = 1;
      entry_point = entry_point;
      segments = build_segments regions;
      symbols = build_symbols o.keep_local_symbols r;
      debug_info = debug;
      source_files = files;
    }

pub validated : Executable → Expected ValidationError (Unit {0}) → Expected LinkError Executable
validated exe (ok _) = ok exe
validated exe (err e) = err (invalid_executable e)

pub build_from :
    LinkOptions
    → List Region
    → List LaidOut
    → Resolution
    → Option Definition
    → Expected LinkError Executable
unfolding validated image_of validate
build_from o regions laid r none = err (no_entry o.entry)
build_from o regions laid r (some d) =
    let exe = image_of o regions laid r d.address in validated exe (validate exe)

unfoldable pub build_executable :
    LinkOptions → List Region → List LaidOut → Resolution → Expected LinkError Executable
unfolding build_from find_definition
build_executable o regions laid r =
    build_from o regions laid r (find_definition r.definitions o.entry)

-- `run` of a link with objects.
pub link_all : LinkOptions → List ObjectFile → Expected LinkError Executable
unfolding merge_sections resolve_symbols apply_relocations build_executable
link_all o objects = do
  (regions, laid) ← merge_sections (init_regions o) objects
  r ← resolve_symbols regions laid
  regions' ← apply_relocations regions r.definitions laid
  build_executable o regions' laid r

unfoldable pub link : List ObjectFile → LinkOptions → Expected LinkError Executable
unfolding link_all
link [] o = err no_objects
link (first ∷ rest) o = link_all o (first ∷ rest)
