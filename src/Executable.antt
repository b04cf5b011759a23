-- ===== src/Executable.antt =====
-- include/minitool/executable/executable.hpp and src/executable/executable.cpp: the memory image
-- that the machine loads, and its validation. An error is a constructor in place of its message.
pub mod Valid
use Prim.Native.String
use package.text.Mathlib.Text.{◌==◌ as str_eq}
use mini_tool_chain.Base.{
  ℕ, ◌-◌, ◌%◌, ◌^◌, bit_and, Bool, true, false, not, ◌&&◌, ◌||◌, Option, none, some, List, [], ◌∷◌,
  String, ltb, leb, ◌==◌, if◌then◌else◌, Expected, ok, err, ◌>>=◌, ◌>>◌, reject_if, length,
}
use mini_tool_chain.Word.{add64}

pub data SegmentType : Type 0 where
  text rodata data_segment bss : SegmentType

is_bss : SegmentType → Bool
is_bss bss = true
is_bss _ = false

unfoldable pub is_valid_segment_type : ℕ → Bool
is_valid_segment_type value = leb value 3

-- A set of flags is its number.
abbrev pub SegmentFlags : Type 0
SegmentFlags = ℕ

abbrev pub flag_read : SegmentFlags
flag_read = 1

abbrev pub flag_write : SegmentFlags
flag_write = 2

abbrev pub flag_exec : SegmentFlags
flag_exec = 4

abbrev pub has_flag : SegmentFlags → SegmentFlags → Bool
has_flag flags flag = bit_and flags flag == flag

pub record Segment : Type 0 where
  pub kind : SegmentType
  pub flags : SegmentFlags
  pub name : String
  pub virtual_address : ℕ
  pub virtual_size : ℕ
  pub contents : List ℕ

pub data SymbolKind : Type 0 where
  no_kind function object : SymbolKind

pub record SymbolEntry : Type 0 where
  pub name : String
  pub address : ℕ
  pub size : ℕ
  pub kind : SymbolKind

pub record DebugEntry : Type 0 where
  pub address : ℕ
  pub file : ℕ
  pub line : ℕ
  pub column : ℕ

pub record Executable : Type 0 where
  pub version : ℕ
  pub entry_point : ℕ
  pub segments : List Segment
  pub symbols : List SymbolEntry
  pub debug_info : List DebugEntry
  pub source_files : List String

unfoldable pub find_segment : List Segment → ℕ → Option Segment
find_segment [] address = none
find_segment (segment ∷ rest) address =
    if leb segment.virtual_address address
      && ltb (address - segment.virtual_address) segment.virtual_size
    then some segment
    else find_segment rest address

unfoldable pub find_symbol : List SymbolEntry → String → Option SymbolEntry
find_symbol [] name = none
find_symbol (symbol ∷ rest) name =
    if str_eq symbol.name name then some symbol else find_symbol rest name

closer : Option SymbolEntry → SymbolEntry → Bool
closer none symbol = true
closer (some best) symbol = ltb best.address symbol.address

-- The loop over the symbols with the best one so far.
nearest : Option SymbolEntry → List SymbolEntry → ℕ → Option SymbolEntry
unfolding closer
nearest best [] address = best
nearest best (symbol ∷ rest) address =
    let past = ltb address symbol.address in
    let beyond = not (symbol.size == 0) && leb symbol.size (address - symbol.address) in
    nearest (if past || beyond then best else if closer best symbol then some symbol else best) rest
      address

unfoldable pub symbol_containing : List SymbolEntry → ℕ → Option SymbolEntry
unfolding nearest
symbol_containing symbols address = nearest none symbols address

unfoldable pub debug_entry_for : List DebugEntry → ℕ → Option DebugEntry
debug_entry_for [] address = none
debug_entry_for (entry ∷ rest) address =
    if entry.address == address then some entry else debug_entry_for rest address

pub data ValidationError : Type 0 where
  unsupported_version no_segments : ValidationError
  no_memory too_much_data wraps_around data_in_bss writable_and_executable :
      String → ValidationError
  segments_overlap : String → String → ValidationError
  entry_not_aligned entry_outside_segments : ValidationError
  entry_not_executable : String → ValidationError
  unknown_source_file : ℕ → ValidationError

check_segment : Segment → Expected ValidationError (Unit {0})
unfolding is_bss
check_segment s = reject_if (s.virtual_size == 0) (no_memory s.name) (
    reject_if (ltb s.virtual_size (length s.contents)) (too_much_data s.name) (
      reject_if (ltb (2 ^ 64 - 1 - s.virtual_size) s.virtual_address) (wraps_around s.name) (
        reject_if (is_bss s.kind && not (length s.contents == 0)) (data_in_bss s.name) (
          reject_if (has_flag s.flags flag_write && has_flag s.flags flag_exec)
            (writable_and_executable s.name) (ok tt)))))

check_segments : List Segment → Expected ValidationError (Unit {0})
check_segments [] = ok tt
check_segments (s ∷ rest) = do check_segment s; check_segments rest

-- The inner loop: one segment against those behind it.
check_against : Segment → List Segment → Expected ValidationError (Unit {0})
check_against a [] = ok tt
check_against a (b ∷ rest) =
    reject_if
      (ltb a.virtual_address (add64 b.virtual_address b.virtual_size)
        && ltb b.virtual_address (add64 a.virtual_address a.virtual_size))
      (segments_overlap a.name b.name) (check_against a rest)

check_overlaps : List Segment → Expected ValidationError (Unit {0})
check_overlaps [] = ok tt
check_overlaps (s ∷ rest) = do check_against s rest; check_overlaps rest

check_entry_segment : Option Segment → Expected ValidationError (Unit {0})
check_entry_segment none = err entry_outside_segments
check_entry_segment (some s) =
    reject_if (not (has_flag s.flags flag_exec)) (entry_not_executable s.name) (ok tt)

check_debug : ℕ → List DebugEntry → Expected ValidationError (Unit {0})
check_debug files [] = ok tt
check_debug files (entry ∷ rest) =
    reject_if (leb files entry.file) (unknown_source_file entry.file) (check_debug files rest)

is_empty : List Segment → Bool
is_empty [] = true
is_empty (s ∷ rest) = false

unfoldable pub validate : Executable → Expected ValidationError (Unit {0})
unfolding is_empty check_segment check_against check_segments check_overlaps check_entry_segment
    check_debug
validate exe = reject_if (not (exe.version == 1)) unsupported_version (
    reject_if (is_empty exe.segments) no_segments (do
      check_segments exe.segments
      check_overlaps exe.segments
      reject_if (not (exe.entry_point % 8 == 0)) entry_not_aligned (do
        check_entry_segment (find_segment exe.segments exe.entry_point)
        check_debug (length exe.source_files) exe.debug_info)))
