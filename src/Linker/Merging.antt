-- ===== src/Linker/Merging.antt =====
-- The first stage of src/linker/linker.cpp: sections of one type are put one behind the other.
pub mod Bytes
pub mod Growth
pub mod Places
pub mod Merged
use mini_tool_chain.Base.{
  ℕ, zero, suc, ◌+◌, ◌-◌, ◌%◌, ◌^◌, bit_or, Bool, true, false, not, ◌||◌, Option, none, some, List,
  [], ◌∷◌, ◌++◌, String, ltb, leb, ◌==◌, if◌then◌else◌, Expected, ok, err, ◌>>=◌, reject_if, length,
  get_elem?, set, take, replicate,
}
use mini_tool_chain.Word.{add64}
use mini_tool_chain.Executable.{
  SegmentType, SegmentFlags, flag_read, flag_write, flag_exec, ValidationError,
}
use mini_tool_chain.Object.Relocation.{RelocationType, RelocationError}
use mini_tool_chain.Object.Files.{
  SectionType, null, text, rodata, data_section, bss, same_section_type, Section, ObjectFile,
}

abbrev pub text_base : ℕ
text_base = 0x10000

abbrev pub rodata_base : ℕ
rodata_base = 0x100000

abbrev pub data_base : ℕ
data_base = 0x200000

abbrev pub bss_base : ℕ
bss_base = 0x300000

abbrev pub region_size : ℕ
region_size = 0xF0000

pub record LinkOptions : Type 0 where
  pub entry : String
  pub text_at : ℕ
  pub rodata_at : ℕ
  pub data_at : ℕ
  pub bss_at : ℕ
  pub keep_local_symbols : Bool

abbrev pub default_options : LinkOptions
default_options = record {
  entry = "_start";
  text_at = text_base;
  rodata_at = rodata_base;
  data_at = data_base;
  bss_at = bss_base;
  keep_local_symbols = true;
}

pub data LinkError : Type 0 where
  no_objects : LinkError
  no_output_region grows_past not_laid_out duplicate_symbol undefined_symbol no_entry :
      String → LinkError
  unknown_section : String → ℕ → ℕ → LinkError
  undefined_reference : String → ℕ → LinkError
  dangling_relocation relocation_not_laid_out : LinkError
  no_relocations_in : String → LinkError
  bad_relocation : RelocationType → String → String → ℕ → RelocationError → LinkError
  invalid_executable : ValidationError → LinkError

-- u64 arithmetic: the sum wraps around.
unfoldable pub align_up : ℕ → ℕ → ℕ
align_up value alignment =
    let remainder = value % alignment in
    if leb alignment 1
    then value
    else if remainder == 0
    then value
    else add64 value (alignment - remainder)

pub record Region : Type 0 where
  pub kind : SectionType
  pub segment : SegmentType
  pub flags : SegmentFlags
  pub name : String
  pub base : ℕ
  pub size : ℕ
  pub contents : List ℕ
  pub zero_filled : Bool

abbrev pub new_region : SectionType → SegmentType → SegmentFlags → String → ℕ → Bool → Region
new_region kind segment flags name base zero_filled = record {
  kind = kind;
  segment = segment;
  flags = flags;
  name = name;
  base = base;
  size = 0;
  contents = [];
  zero_filled = zero_filled;
}

pub record Placement : Type 0 where
  pub placed : Bool
  pub region : ℕ
  pub offset : ℕ

abbrev pub unplaced : Placement
unplaced = record { placed = false; region = 0; offset = 0 }

-- An object with the placements of its sections: a row of `placements_`.
pub record LaidOut : Type 0 where
  pub object : ObjectFile
  pub placements : List Placement

abbrev pub init_regions : LinkOptions → List Region
init_regions o =
    new_region text SegmentType.text (bit_or flag_read flag_exec) ".text" o.text_at false
    ∷ new_region rodata SegmentType.rodata flag_read ".rodata" o.rodata_at false
    ∷ new_region data_section SegmentType.data_segment (bit_or flag_read flag_write) ".data"
        o.data_at false
    ∷ new_region bss SegmentType.bss (bit_or flag_read flag_write) ".bss" o.bss_at true
    ∷ []

-- The number of regions where none has the type.
unfoldable pub region_index_for : List Region → SectionType → ℕ
region_index_for [] kind = 0
region_index_for (r ∷ rest) kind =
    if same_section_type r.kind kind then 0 else suc (region_index_for rest kind)

-- `resize` of a vector: it is cut, or filled up with zeros.
unfoldable pub resize : List ℕ → ℕ → List ℕ
resize bytes n = take n bytes ++ replicate (n - length bytes) 0

unfoldable pub grown : Region → Section → ℕ → Region
unfolding resize
grown r s offset = record r {
  contents =
      if r.zero_filled
      then r.contents
      else resize (resize r.contents offset ++ s.contents) (add64 offset s.size);
  size = add64 offset s.size;
}

pub place_in :
    List Region → ℕ → Section → Option Region → Expected LinkError (List Region × Placement)
unfolding grown align_up
place_in regions at s none = err (no_output_region s.name)
place_in regions at s (some r) =
    let offset = align_up r.size s.alignment in
    reject_if (ltb region_size offset || ltb (region_size - offset) s.size) (grows_past r.name) (
      ok
        (set regions at (grown r s offset), record { placed = true; region = at; offset = offset }))

unfoldable pub place_section : List Region → Section → Expected LinkError (List Region × Placement)
unfolding place_in region_index_for
place_section regions s =
    let at = region_index_for regions s.kind in
    if same_section_type s.kind null
    then ok (regions, unplaced)
    else place_in regions at s (get_elem? regions at)

unfoldable pub merge_object :
    List Region → List Section → Expected LinkError (List Region × List Placement)
unfolding place_section
merge_object regions [] = ok (regions, [])
merge_object regions (s ∷ rest) = do
  (regions', p) ← place_section regions s
  (regions'', ps) ← merge_object regions' rest
  ok (regions'', p ∷ ps)

unfoldable pub merge_sections :
    List Region → List ObjectFile → Expected LinkError (List Region × List LaidOut)
unfolding merge_object
merge_sections regions [] = ok (regions, [])
merge_sections regions (o ∷ rest) = do
  (regions', ps) ← merge_object regions o.sections
  (regions'', laid) ← merge_sections regions' rest
  ok (regions'', record { object = o; placements = ps } ∷ laid)
