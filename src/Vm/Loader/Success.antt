-- ===== src/Vm/Loader/Success.antt =====
-- When `VirtualMachine::load` of src/vm/vm.cpp succeeds.
use mini_tool_chain.Base.{
  ℕ, ◌+◌, ◌-◌, ◌≤◌, ◌⊎◌, ◌≡◌, refl, sym, ap, subst, ◌∙◌, arith, Bool, true, false, List, [], ◌∷◌,
  ◌++◌, bit_or, All, All-append, Expected, ok, inl, inr, if◌then◌else◌,
}
use mini_tool_chain.Executable.{Executable, Segment, ValidationError, validate}
use mini_tool_chain.Executable.Valid.{IsValid, IsValidSegment, Apart, AllApart}
use mini_tool_chain.Vm.Memory.{
  VirtualMemory, Region, permission_read, permission_write, new_region, add_region, empty_memory,
}
use mini_tool_chain.Vm.Memory.Mapping.{Clear, add_region-Clear}
use mini_tool_chain.Vm.Cpu.{VirtualMachine, stack_top_default, stack_size, heap_base, heap_size}
use mini_tool_chain.Vm.Loader.{
  LoadError, cannot_map, permissions_of, map_segments, image_mapped, map_image, load_mapped,
  load_validated, load_executable,
}
use mini_tool_chain.Vm.Loader.Image.{
  region_of, regions_of, stack_region, add_region-added, map_segments-regions,
}

-- A segment that ends before the heap and the stack.
abbrev pub IsLow : Segment → Type 0
IsLow s = s.virtual_address + s.virtual_size ≤ heap_base

-- The range of the segment is free in the memory.
IsFree : List Region → Segment → Type 0
IsFree regions s = All (Clear s.virtual_address s.virtual_size) regions

AllFree : List Region → List Segment → Type 0
AllFree regions [] = Unit {0}
AllFree regions (s ∷ rest) = IsFree regions s × AllFree regions rest

-- The later segments are free when one that is apart from them is mapped.
AllFree-mapped :
    (s : Segment) (rest : List Segment) (regions : List Region)
    → IsValidSegment s
    → All (Apart s) rest
    → AllFree regions rest
    → AllFree (regions ++ (region_of s ∷ [])) rest
unfolding AllFree IsFree new_region
AllFree-mapped s [] regions v apart free = tt
AllFree-mapped s (t ∷ rest) regions v apart free = (
  All-append (Clear t.virtual_address t.virtual_size) regions (region_of s ∷ []) free.0
      ((v.no_wrap, other apart.0), tt),
  AllFree-mapped s rest regions v apart.1 free.1,
)
  where
    other :
        Apart s t
        → (t.virtual_address + t.virtual_size ≤ s.virtual_address)
          ⊎ (s.virtual_address + s.virtual_size ≤ t.virtual_address)
    other (inl before) = inr before
    other (inr behind) = inl behind

map_segments-ok :
    (ss : List Segment) (memory : VirtualMemory)
    → All IsValidSegment ss
    → AllApart ss
    → AllFree memory.regions ss
    → (map_segments memory ss).1 ≡ ok tt
unfolding map_segments AllFree IsFree
map_segments-ok [] memory v apart free = refl
map_segments-ok (s ∷ rest) memory v apart free =
    ap
      (λ b.
        (if b then map_segments added.1 rest else (added.1, Expected.err (cannot_map s.name))).1)
      mapped
    ∙ map_segments-ok rest added.1 v.1 apart.1 (
        subst (λ rs. AllFree rs rest)
          (sym (
            add_region-added memory added.1 s.name s.virtual_address s.virtual_size _ s.contents
              (ap (λ b. (b, added.1)) mapped)))
          (AllFree-mapped s rest memory.regions v.0 apart.0 free.1))
  where
    added : Bool × VirtualMemory
    added =
        add_region memory s.name s.virtual_address s.virtual_size (permissions_of s.flags)
          s.contents

    mapped : added.0 ≡ true
    mapped =
        add_region-Clear memory s.name s.virtual_address s.virtual_size (permissions_of s.flags)
          s.contents v.0.not_empty v.0.no_wrap free.0

AllFree-empty : (ss : List Segment) → AllFree [] ss
unfolding AllFree IsFree
AllFree-empty [] = tt
AllFree-empty (s ∷ rest) = (tt, AllFree-empty rest)

-- The regions of low segments leave room above the beginning of the heap.
regions_of-Clear :
    (base size : ℕ) (ss : List Segment)
    → heap_base ≤ base
    → All IsValidSegment ss
    → All IsLow ss
    → All (Clear base size) (regions_of ss)
unfolding new_region
regions_of-Clear base size [] above v low = tt
regions_of-Clear base size (s ∷ rest) above v low =
    ((v.0.no_wrap, inr (omega arith)), regions_of-Clear base size rest above v.1 low.1)

-- All the parts of the image are mapped.
map_image-ok :
    (ss : List Segment)
    → All IsValidSegment ss
    → AllApart ss
    → All IsLow ss
    → (map_image ss).1 ≡ ok tt
unfolding map_image image_mapped new_region
map_image-ok ss v apart low =
    all_mapped segments.0 stack.1 heap.1 segments.1 stack.0 heap.0
      (map_segments-ok ss empty_memory v apart (AllFree-empty ss)) stack_mapped heap_mapped
  where
    segments : VirtualMemory × Expected LoadError (Unit {0})
    segments = map_segments empty_memory ss

    stack : Bool × VirtualMemory
    stack =
        add_region segments.0 "stack" (stack_top_default - stack_size) stack_size
          (bit_or permission_read permission_write) []

    heap : Bool × VirtualMemory
    heap =
        add_region stack.1 "heap" heap_base heap_size (bit_or permission_read permission_write) []

    mapped : segments ≡ (segments.0, ok tt)
    mapped = ap (λ r. (segments.0, r)) (map_segments-ok ss empty_memory v apart (AllFree-empty ss))

    regions : segments.0.regions ≡ regions_of ss
    regions = map_segments-regions ss empty_memory segments.0 mapped

    stack_mapped : stack.0 ≡ true
    stack_mapped =
        add_region-Clear segments.0 "stack" (stack_top_default - stack_size) stack_size _ []
          (omega arith) (omega arith)
          (subst (All (Clear (stack_top_default - stack_size) stack_size)) (sym regions)
            (regions_of-Clear (stack_top_default - stack_size) stack_size ss (omega arith) v low))

    heap_mapped : heap.0 ≡ true
    heap_mapped =
        add_region-Clear stack.1 "heap" heap_base heap_size _ [] (omega arith) (omega arith) (
          subst (All (Clear heap_base heap_size))
            (sym (
              add_region-added segments.0 stack.1 "stack" (stack_top_default - stack_size)
                stack_size _ [] (ap (λ b. (b, stack.1)) stack_mapped)))
            (All-append (Clear heap_base heap_size) segments.0.regions (stack_region ∷ [])
              (subst (All (Clear heap_base heap_size)) (sym regions)
                (regions_of-Clear heap_base heap_size ss (omega arith) v low))
              ((omega arith, inl (omega arith)), tt)))

    all_mapped :
        (memory with_stack with_heap : VirtualMemory) (result : Expected LoadError (Unit {0}))
        (stack_added heap_added : Bool)
        → result ≡ ok tt
        → stack_added ≡ true
        → heap_added ≡ true
        → (image_mapped memory with_stack with_heap result stack_added heap_added).1 ≡ ok tt
    all_mapped memory with_stack with_heap (Expected.err e) a b h k l = cc
    all_mapped memory with_stack with_heap (ok _) false b h k l = cc
    all_mapped memory with_stack with_heap (ok _) true false h k l = cc
    all_mapped memory with_stack with_heap (ok _) true true h k l = refl

module _ {P : Type 0} (m : VirtualMachine P) (exe : Executable) where
  loaded_when :
      (verdict : Expected ValidationError (Unit {0})) (mapped : Expected LoadError (Unit {0}))
      → verdict ≡ ok tt
      → (map_image exe.segments).1 ≡ mapped
      → mapped ≡ ok tt
      → (load_validated m exe verdict).1 ≡ ok tt
  unfolding load_validated load_mapped
  loaded_when (Expected.err e) mapped h at all = cc
  loaded_when (ok _) (Expected.err e) h at all = cc
  loaded_when (ok _) (ok _) h at all =
      ap
        (λ (r : Expected LoadError (Unit {0})).
          (load_mapped m exe ((map_image exe.segments).0, r)).1)
        at

  -- An image that is valid and whose segments end before the heap is loaded.
  pub load_executable-ok :
      validate exe ≡ ok tt
      → IsValid exe
      → All IsLow exe.segments
      → (load_executable m exe).1 ≡ ok tt
  unfolding load_executable
  load_executable-ok accepted v low =
      let mapped = map_image-ok exe.segments v.segments v.apart low in
      loaded_when (validate exe) (map_image exe.segments).1 accepted refl mapped
