-- ===== src/Vm/Memory.antt =====
-- include/minitool/vm/memory.hpp and src/vm/memory.cpp: the address space of named regions. A
-- pointer to a region is its index beside the region; an operation that fails has changed nothing,
-- so its error comes without a memory.
pub mod Mapping
pub mod Lookup
pub mod Evolution
pub mod Heap
pub mod Access
use mathlib.Core.Option
use text.Mathlib.Text.{◌==◌ as str_eq}
use mini_tool_chain.Base.{
  ℕ, suc, ◌-◌, ◌^◌, bit_and, Bool, true, false, not, ◌&&◌, ◌||◌, Option, none, some, List, [], ◌∷◌,
  ◌++◌, String, ltb, leb, ◌==◌, if◌then◌else◌, Expected, ok, err, ◌>>=◌, reject_if, length, get_or,
  set, take, drop, replicate,
}
use mini_tool_chain.Word.{add64, sub64, not64}
use mini_tool_chain.ByteOrder.{store, load}

-- A set of permissions is its number.
abbrev pub Permission : Type 0
Permission = ℕ

abbrev pub permission_none : Permission
permission_none = 0

abbrev pub permission_read : Permission
permission_read = 1

abbrev pub permission_write : Permission
permission_write = 2

abbrev pub permission_exec : Permission
permission_exec = 4

abbrev pub has_permission : Permission → Permission → Bool
has_permission permissions wanted = bit_and permissions wanted == wanted

pub data MemoryErrorKind : Type 0 where
  unmapped read_denied write_denied execute_denied : MemoryErrorKind
  crosses_region_end out_of_memory : MemoryErrorKind

pub record MemoryFault : Type 0 where
  pub kind : MemoryErrorKind
  pub address : ℕ
  pub size : ℕ

abbrev pub fault : MemoryErrorKind → ℕ → ℕ → MemoryFault
fault kind address size = record { kind = kind; address = address; size = size }

abbrev pub MemoryResult : Type 0 → Type 0
MemoryResult A = Expected MemoryFault A

pub record Region : Type 0 where
  pub name : String
  pub base : ℕ
  pub size : ℕ
  pub permissions : Permission
  pub contents : List ℕ

pub record VirtualMemory : Type 0 where
  pub regions : List Region
  pub heap_next : ℕ

abbrev pub empty_memory : VirtualMemory
empty_memory = record { regions = []; heap_next = 0 }

unfoldable pub reset : VirtualMemory → VirtualMemory
reset memory = empty_memory

overlaps : ℕ → ℕ → List Region → Bool
overlaps base size [] = false
overlaps base size (region ∷ rest) =
    if ltb base (add64 region.base region.size) && ltb region.base (add64 base size)
    then true
    else overlaps base size rest

-- `copy_n` of the shorter length to the front.
overwrite : List ℕ → List ℕ → List ℕ
overwrite [] initial = []
overwrite (b ∷ rest) [] = b ∷ rest
overwrite (b ∷ rest) (x ∷ initial) = x ∷ overwrite rest initial

-- The region that `addRegion` builds, with zeros behind the given bytes.
unfoldable pub new_region : String → ℕ → ℕ → Permission → List ℕ → Region
unfolding overwrite
new_region name base size permissions initial = record {
  name = name;
  base = base;
  size = size;
  permissions = permissions;
  contents = overwrite (replicate size 0) initial;
}

-- The Boolean result beside the memory.
unfoldable pub add_region :
    VirtualMemory → String → ℕ → ℕ → Permission → List ℕ → Bool × VirtualMemory
unfolding overlaps new_region
add_region memory name base size permissions initial =
    let added : VirtualMemory = record {
      regions = memory.regions ++ (new_region name base size permissions initial ∷ []);
      heap_next = if str_eq name "heap" then base else memory.heap_next;
    } in
    if size == 0 || ltb (2 ^ 64 - 1 - size) base
    then (false, memory)
    else if overlaps base size memory.regions
    then (false, memory)
    else (true, added)

abbrev pub contains : Region → ℕ → Bool
contains region address = leb region.base address && ltb (address - region.base) region.size

pub next_index : ℕ × Region → ℕ × Region
next_index (i, region) = (suc i, region)

-- The first region that contains the address.
unfoldable pub region_at : List Region → ℕ → Option (ℕ × Region)
unfolding next_index
region_at [] address = none
region_at (region ∷ rest) address =
    if contains region address
    then some (0, region)
    else Option.map next_index (region_at rest address)

denied : Permission → MemoryErrorKind
denied needed =
    if needed == permission_write
    then write_denied
    else if needed == permission_exec
    then execute_denied
    else read_denied

unfoldable pub check_region : ℕ → ℕ → Permission → Option (ℕ × Region) → MemoryResult (ℕ × Region)
unfolding denied
check_region address size needed none = err (fault unmapped address size)
check_region address size needed (some (i, region)) =
    reject_if (ltb (region.size - (address - region.base)) size)
      (fault crosses_region_end address size)
      (reject_if (not (has_permission region.permissions needed))
        (fault (denied needed) address size) (ok (i, region)))

unfoldable pub check_access : VirtualMemory → ℕ → ℕ → Permission → MemoryResult (ℕ × Region)
unfolding check_region
check_access memory address size needed =
    check_region address size needed (region_at memory.regions address)

unfoldable pub read_byte : VirtualMemory → ℕ → MemoryResult ℕ
read_byte memory address = do
  (i, region) ← check_access memory address 1 permission_read
  ok (get_or region.contents (address - region.base) 0)

unfoldable pub read_u64 : VirtualMemory → ℕ → MemoryResult ℕ
read_u64 memory address = do
  (i, region) ← check_access memory address 8 permission_read
  ok (load 8 region.contents (address - region.base))

unfoldable pub fetch_instruction : VirtualMemory → ℕ → MemoryResult ℕ
fetch_instruction memory address = do
  (i, region) ← check_access memory address 8 permission_exec
  ok (load 8 region.contents (address - region.base))

-- A write through a pointer to region `i`.
abbrev pub put_contents : VirtualMemory → ℕ → Region → List ℕ → VirtualMemory
put_contents memory i region bytes = record memory {
  regions = set memory.regions i (record region { contents = bytes });
}

pub write_byte : VirtualMemory → ℕ → ℕ → MemoryResult VirtualMemory
write_byte memory address value = do
  (i, region) ← check_access memory address 1 permission_write
  ok (put_contents memory i region (set region.contents (address - region.base) value))

unfoldable pub write_u64 : VirtualMemory → ℕ → ℕ → MemoryResult VirtualMemory
write_u64 memory address value = do
  (i, region) ← check_access memory address 8 permission_write
  ok (put_contents memory i region (store 8 region.contents (address - region.base) value))

-- The `count` bytes of the span `out` that is filled.
pub read_bytes : VirtualMemory → ℕ → ℕ → MemoryResult (List ℕ)
read_bytes memory address count =
    let filled = do
      (i, region) ← check_access memory address count permission_read
      ok (take count (drop (address - region.base) region.contents))
    in if count == 0 then ok [] else filled

pub copy_to : List ℕ → ℕ → List ℕ → List ℕ
copy_to contents offset [] = contents
copy_to contents offset (b ∷ rest) = copy_to (set contents offset b) (suc offset) rest

pub write_bytes : VirtualMemory → ℕ → List ℕ → MemoryResult VirtualMemory
unfolding copy_to
write_bytes memory address bytes =
    let written = do
      (i, region) ← check_access memory address (length bytes) permission_write
      ok (put_contents memory i region (copy_to region.contents (address - region.base) bytes))
    in if length bytes == 0 then ok memory else written

-- `(size + 7) & ~7`
abbrev pub rounded_up : ℕ → ℕ
rounded_up size = bit_and (add64 size 7) (not64 7)

bump : VirtualMemory → ℕ → Option (ℕ × Region) → MemoryResult (ℕ × VirtualMemory)
bump memory size none = err (fault out_of_memory memory.heap_next size)
bump memory size (some (i, heap)) =
    let rounded = rounded_up size in
    let end = add64 heap.base heap.size in
    let failed = fault out_of_memory memory.heap_next size in
    reject_if (not (str_eq heap.name "heap")) failed (
      reject_if (ltb rounded size) failed (
        reject_if (ltb (sub64 end rounded) memory.heap_next) failed
          (ok (memory.heap_next, record memory { heap_next = add64 memory.heap_next rounded }))))

unfoldable pub allocate : VirtualMemory → ℕ → MemoryResult (ℕ × VirtualMemory)
unfolding bump
allocate memory size = bump memory size (region_at memory.regions memory.heap_next)

unfoldable pub is_mapped : VirtualMemory → ℕ → Bool
unfolding region_at
is_mapped memory address = elim (region_at memory.regions address) [ none ↦ false | some _ ↦ true ]

permitted_at : Permission → Option (ℕ × Region) → Bool
permitted_at wanted none = false
permitted_at wanted (some (i, region)) = has_permission region.permissions wanted

unfoldable pub is_executable : VirtualMemory → ℕ → Bool
unfolding permitted_at region_at
is_executable memory address = permitted_at permission_exec (region_at memory.regions address)

unfoldable pub is_writable : VirtualMemory → ℕ → Bool
unfolding permitted_at region_at
is_writable memory address = permitted_at permission_write (region_at memory.regions address)
