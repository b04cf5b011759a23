-- ===== src/Linker/Patching.antt =====
-- The third stage of src/linker/linker.cpp: the relocations of the objects are applied to the
-- regions.
pub mod Layout
use mini_tool_chain.Base.{
  ℕ, Bool, true, false, not, ◌&&◌, ◌||◌, Option, none, some, List, [], ◌∷◌, String, leb,
  if◌then◌else◌, Expected, ok, err, ◌>>=◌, reject_if, length, get_or, set,
}
use mini_tool_chain.Word.{add64}
use mini_tool_chain.Object.Symbols.{Symbol, new_symbol}
use mini_tool_chain.Object.Relocation.{Relocation, RelocationError, apply_relocation}
use mini_tool_chain.Linker.Merging.{
  LinkError, dangling_relocation, relocation_not_laid_out, no_relocations_in, undefined_symbol,
  bad_relocation, Region, Placement, unplaced, LaidOut,
}
use mini_tool_chain.Linker.Resolving.{
  Definition, Definitions, find_definition, is_local, default_region, address_of,
}

global_address : String → Option Definition → Expected LinkError ℕ
global_address name none = err (undefined_symbol name)
global_address name (some d) = ok d.address

-- The address that a relocation's symbol stands for.
unfoldable pub reference_address :
    List Region → Definitions → LaidOut → Symbol → Expected LinkError ℕ
unfolding global_address
reference_address regions ds laid s =
    if s.defined && is_local s.binding
    then address_of regions laid s
    else global_address s.name (find_definition ds s.name)

-- The region with the patched bytes.
pub patched_region :
    List Region
    → ℕ
    → Region
    → Relocation
    → String
    → Expected RelocationError (List ℕ)
    → Expected LinkError (List Region)
patched_region regions at region merged name (err e) =
    err (bad_relocation merged.kind name region.name merged.offset e)
patched_region regions at region merged name (ok bytes) =
    ok (set regions at (record region { contents = bytes }))

-- A relocation that is within the tables of its object, with the placement of its section.
pub relocate_placed :
    List Region
    → Definitions
    → LaidOut
    → Relocation
    → Placement
    → Region
    → Expected LinkError (List Region)
unfolding patched_region
relocate_placed regions ds laid r p region =
    let symbol = get_or laid.object.symbols.symbols r.symbol (new_symbol "") in
    let merged = record r { offset = add64 p.offset r.offset } in
    reject_if (not p.placed) relocation_not_laid_out (
      reject_if region.zero_filled (no_relocations_in region.name) (
        reference_address regions ds laid symbol >>= λ address.
        patched_region regions p.region region merged symbol.name
          (apply_relocation region.contents region.base merged address)))

unfoldable pub relocate :
    List Region → Definitions → LaidOut → Relocation → Expected LinkError (List Region)
unfolding relocate_placed
relocate regions ds laid r =
    let p = get_or laid.placements r.section unplaced in
    reject_if
      (leb (length laid.object.sections) r.section
        || leb (length laid.object.symbols.symbols) r.symbol)
      dangling_relocation
      (relocate_placed regions ds laid r p (get_or regions p.region default_region))

unfoldable pub relocate_object :
    List Region → Definitions → LaidOut → List Relocation → Expected LinkError (List Region)
unfolding relocate
relocate_object regions ds laid [] = ok regions
relocate_object regions ds laid (r ∷ rest) = do
  regions' ← relocate regions ds laid r
  relocate_object regions' ds laid rest

unfoldable pub apply_relocations :
    List Region → Definitions → List LaidOut → Expected LinkError (List Region)
unfolding relocate_object
apply_relocations regions ds [] = ok regions
apply_relocations regions ds (laid ∷ rest) = do
  regions' ← relocate_object regions ds laid laid.object.relocations
  apply_relocations regions' ds rest
