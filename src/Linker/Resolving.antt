-- ===== src/Linker/Resolving.antt =====
-- The second stage of src/linker/linker.cpp: the definitions of the objects are gathered, and every
-- reference is looked up among them.
pub mod Maps
pub mod Chosen
pub mod References
use package.text.Mathlib.Text.{◌==◌ as str_eq}
use Prim.Native.Char.{code}
use mini_tool_chain.Base.{
  ℕ, suc, Bool, true, false, not, ◌&&◌, ◌||◌, Option, none, some, List, [], ◌∷◌, ◌++◌, String, ltb,
  leb, ◌==◌, if◌then◌else◌, Expected, ok, err, ◌>>=◌, reject_if, length, get_or,
}
use mini_tool_chain.Word.{add64}
use mini_tool_chain.Executable.{SegmentType}
use mini_tool_chain.Object.Symbols.{
  Symbol, SymbolBinding, SymbolType, local, global, weak, extern, no_type,
}
use mini_tool_chain.Object.Files.{SectionType, ObjectFile}
use mini_tool_chain.Linker.Merging.{
  LinkError, unknown_section, not_laid_out, duplicate_symbol, undefined_reference, Region,
  new_region, Placement, unplaced, LaidOut,
}

pub record Definition : Type 0 where
  pub address : ℕ
  pub size : ℕ
  pub binding : SymbolBinding
  pub kind : SymbolType
  pub object : ℕ

-- The `<` of texts, by their characters in order.
unfoldable pub str_ltb : String → String → Bool
str_ltb String.[] String.[] = false
str_ltb String.[] (String.◌∷◌ d t) = true
str_ltb (String.◌∷◌ c s) String.[] = false
str_ltb (String.◌∷◌ c s) (String.◌∷◌ d t) =
    ltb (code c) (code d) || (code c == code d && str_ltb s t)

-- The standard library's ordered map from names.
abbrev pub Definitions : Type 0
Definitions = List (String × Definition)

unfoldable pub find_definition : Definitions → String → Option Definition
find_definition [] name = none
find_definition ((key, d) ∷ rest) name =
    if str_eq key name then some d else find_definition rest name

-- `emplace` of a name that is not there.
unfoldable pub emplace : Definitions → String → Definition → Definitions
emplace [] name d = (name, d) ∷ []
emplace ((key, e) ∷ rest) name d =
    if str_ltb name key then (name, d) ∷ (key, e) ∷ rest else (key, e) ∷ emplace rest name d

unfoldable pub replace : Definitions → String → Definition → Definitions
replace [] name d = []
replace ((key, e) ∷ rest) name d =
    if str_eq key name then (key, d) ∷ rest else (key, e) ∷ replace rest name d

-- The definitions, and `local_names_` and `locals_` as one list.
pub record Resolution : Type 0 where
  pub definitions : Definitions
  pub locals : List (String × Definition)

abbrev pub no_resolution : Resolution
no_resolution = record { definitions = []; locals = [] }

abbrev pub is_local : SymbolBinding → Bool
is_local local = true
is_local _ = false

abbrev pub is_global : SymbolBinding → Bool
is_global global = true
is_global _ = false

abbrev pub is_weak : SymbolBinding → Bool
is_weak weak = true
is_weak _ = false

-- A default Region; a placement that says `placed` has an index in range.
abbrev pub default_region : Region
default_region = new_region SectionType.text SegmentType.text 4 "" 0 false

abbrev pub placed_address : List Region → Placement → ℕ → ℕ
placed_address regions p value =
    add64 (add64 (get_or regions p.region default_region).base p.offset) value

unfoldable pub address_of : List Region → LaidOut → Symbol → Expected LinkError ℕ
address_of regions laid s =
    let sections = length laid.object.sections in
    let p = get_or laid.placements s.section unplaced in
    reject_if (leb sections s.section) (unknown_section s.name s.section sections)
      (reject_if (not p.placed) (not_laid_out s.name) (ok (placed_address regions p s.value)))

abbrev pub definition_of : Symbol → ℕ → ℕ → Definition
definition_of s address object = record {
  address = address;
  size = s.size;
  binding = s.binding;
  kind = s.kind;
  object = object;
}

-- A definition that is not local, given what the map has under its name.
pub define_global :
    Resolution → String → Definition → Option Definition → Expected LinkError Resolution
define_global r name d none = ok (record r { definitions = emplace r.definitions name d })
define_global r name d (some existing) =
    reject_if (is_global existing.binding && is_global d.binding) (duplicate_symbol name) (
      ok (
        if is_weak existing.binding && is_global d.binding
        then record r { definitions = replace r.definitions name d }
        else r))

pub define : Resolution → String → Definition → Expected LinkError Resolution
unfolding define_global
define r name d =
    if is_local d.binding
    then ok (record r { locals = r.locals ++ ((name, d) ∷ []) })
    else define_global r name d (find_definition r.definitions name)

unfoldable pub define_symbol :
    List Region → LaidOut → ℕ → Resolution → Symbol → Expected LinkError Resolution
unfolding define
define_symbol regions laid object r s =
    if not s.defined
    then ok r
    else (address_of regions laid s >>= λ address. define r s.name (definition_of s address object))

unfoldable pub define_symbols :
    List Region → LaidOut → ℕ → Resolution → List Symbol → Expected LinkError Resolution
unfolding define_symbol
define_symbols regions laid object r [] = ok r
define_symbols regions laid object r (s ∷ rest) = do
  r' ← define_symbol regions laid object r s
  define_symbols regions laid object r' rest

-- The first loop over the objects, from the index of the first one.
unfoldable pub define_objects :
    List Region → ℕ → Resolution → List LaidOut → Expected LinkError Resolution
unfolding define_symbols
define_objects regions object r [] = ok r
define_objects regions object r (laid ∷ rest) = do
  r' ← define_symbols regions laid object r laid.object.symbols.symbols
  define_objects regions (suc object) r' rest

-- The definition of a weak reference that nothing defines.
abbrev pub weak_reference : Symbol → ℕ → Definition
weak_reference s object = record {
  address = 0;
  size = 0;
  binding = weak;
  kind = s.kind;
  object = object;
}

pub require : Definitions → Symbol → ℕ → Option Definition → Expected LinkError Definitions
require ds s object (some d) = ok ds
require ds s object none =
    if is_weak s.binding
    then ok (emplace ds s.name (weak_reference s object))
    else err (undefined_reference s.name object)

unfoldable pub require_symbol : Definitions → Symbol → ℕ → Expected LinkError Definitions
unfolding require
require_symbol ds s object =
    if s.defined then ok ds else require ds s object (find_definition ds s.name)

unfoldable pub require_symbols : Definitions → List Symbol → ℕ → Expected LinkError Definitions
unfolding require_symbol
require_symbols ds [] object = ok ds
require_symbols ds (s ∷ rest) object = do
  ds' ← require_symbol ds s object
  require_symbols ds' rest object

-- The second loop over the objects.
unfoldable pub require_objects : Definitions → ℕ → List LaidOut → Expected LinkError Definitions
unfolding require_symbols
require_objects ds object [] = ok ds
require_objects ds object (laid ∷ rest) = do
  ds' ← require_symbols ds laid.object.symbols.symbols object
  require_objects ds' (suc object) rest

unfoldable pub resolve_symbols : List Region → List LaidOut → Expected LinkError Resolution
unfolding define_objects require_objects
resolve_symbols regions laid = do
  r ← define_objects regions 0 no_resolution laid
  ds ← require_objects r.definitions 0 laid
  ok (record r { definitions = ds })
