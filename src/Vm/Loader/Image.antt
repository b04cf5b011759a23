-- ===== src/Vm/Loader/Image.antt =====
-- What a loaded program finds in memory.
use mini_tool_chain.Base.{
  ℕ, ◌-◌, bit_or, ◌≡◌, refl, sym, ap, ◌∙◌, arith, Bool, true, false, List, [], ◌∷◌, ◌++◌, String,
  Expected, ok, err, All, All-append, ++-nil, ++-assoc, ◌||◌, replicate, length, subst,
  if◌then◌else◌,
}
use mini_tool_chain.Word.{IsU64}
use mini_tool_chain.Executable
use mini_tool_chain.Executable.{
  Executable, Segment, SegmentFlags, flag_read, flag_write, flag_exec, ValidationError, validate,
}
use mini_tool_chain.Executable.Valid.{IsValid, IsValidSegment, validate_iff}
use mini_tool_chain.Vm.Memory.{
  VirtualMemory, Region, Permission, permission_read, permission_write, permission_exec,
  has_permission, add_region, new_region, empty_memory,
}
use mini_tool_chain.Base.Pointwise.{Pointwise}
use mini_tool_chain.Vm.Memory.Mapping.{new_region-replicate}
use mini_tool_chain.Vm.Memory.Evolution.{IsWriteXorExec}
use mini_tool_chain.Vm.Cpu.{
  VirtualMachine, initial_cpu, stack_top_default, stack_size, heap_base, heap_size,
}
use mini_tool_chain.Vm.Loader.{
  LoadError, cannot_map, add_flag, permissions_of, map_segments, image_mapped, map_image,
  loaded_machine, load_mapped, load_validated, load_executable,
}

abbrev pub region_of : Segment → Region
region_of s = new_region s.name s.virtual_address s.virtual_size (permissions_of s.flags) s.contents

abbrev pub regions_of : List Segment → List Region
regions_of [] = []
regions_of (s ∷ rest) = region_of s ∷ regions_of rest

pub add_region-added :
    (memory memory' : VirtualMemory) (name : String) (base size : ℕ) (permissions : Permission)
    (initial : List ℕ)
    → add_region memory name base size permissions initial ≡ (true, memory')
    → memory'.regions ≡ memory.regions ++ (new_region name base size permissions initial ∷ [])
unfolding add_region
add_region-added memory memory' name base size permissions initial h = ground arith

-- What the flags of a segment allow: executable bytes can be read too.
abbrev pub Allows : SegmentFlags → Permission → Type 0
Allows flags permissions =
    (has_permission permissions permission_read
      ≡ (Executable.has_flag flags flag_read || Executable.has_flag flags flag_exec))
    × (has_permission permissions permission_write ≡ Executable.has_flag flags flag_write)
    × (has_permission permissions permission_exec ≡ Executable.has_flag flags flag_exec)

permissions_of-Allows : (flags : SegmentFlags) → Allows flags (permissions_of flags)
unfolding permissions_of add_flag
permissions_of-Allows flags =
    table (Executable.has_flag flags flag_read) (Executable.has_flag flags flag_write)
      (Executable.has_flag flags flag_exec)
  where
    given : Bool → Bool → Bool → Permission
    given r w x =
        add_flag x permission_exec
          (add_flag x permission_read (add_flag w permission_write (add_flag r permission_read 0)))

    table :
        (r w x : Bool)
        → (has_permission (given r w x) permission_read ≡ (r || x))
          × (has_permission (given r w x) permission_write ≡ w)
          × (has_permission (given r w x) permission_exec ≡ x)
    table false false false = (refl, refl, refl)
    table false false true = (refl, refl, refl)
    table false true false = (refl, refl, refl)
    table false true true = (refl, refl, refl)
    table true false false = (refl, refl, refl)
    table true false true = (refl, refl, refl)
    table true true false = (refl, refl, refl)
    table true true true = (refl, refl, refl)

-- A success is that of both steps.
mapped_on :
    (added : Bool) (more : VirtualMemory × Expected LoadError (Unit {0})) (q after : VirtualMemory)
    (e : LoadError)
    → (if added then more else (q, err e)) ≡ (after, ok tt)
    → (added ≡ true) × (more ≡ (after, ok tt))
mapped_on true more q after e h = (refl, h)
mapped_on false more q after e h = cc (ap (λ r. r.1) h)

pub map_segments-regions :
    (ss : List Segment) (memory after : VirtualMemory)
    → map_segments memory ss ≡ (after, ok tt)
    → after.regions ≡ memory.regions ++ regions_of ss
unfolding map_segments
map_segments-regions [] memory after h = ap (λ r. r.0.regions) (sym h) ∙ sym (++-nil memory.regions)
map_segments-regions (s ∷ rest) memory after h =
    let both = mapped_on added.0 (map_segments added.1 rest) added.1 after (cannot_map s.name) h in
    map_segments-regions rest added.1 after both.1
    ∙ ap (λ rs. rs ++ regions_of rest)
        (add_region-added memory added.1 s.name s.virtual_address s.virtual_size _ s.contents
          (ap (λ b. (b, added.1)) both.0))
    ∙ ++-assoc memory.regions (region_of s ∷ []) (regions_of rest)
  where
    added : Bool × VirtualMemory
    added =
        add_region memory s.name s.virtual_address s.virtual_size (permissions_of s.flags)
          s.contents

-- The stack and the heap, behind the segments.
abbrev pub stack_region : Region
stack_region =
    new_region "stack" (stack_top_default - stack_size) stack_size
      (bit_or permission_read permission_write) []

abbrev pub heap_region : Region
heap_region = new_region "heap" heap_base heap_size (bit_or permission_read permission_write) []

-- A success is that of all the steps.
module _ (memory with_stack with_heap after : VirtualMemory) where
  image_mapped-ok :
      (mapped : Expected LoadError (Unit {0})) (stack_added heap_added : Bool)
      → image_mapped memory with_stack with_heap mapped stack_added heap_added ≡ (after, ok tt)
      → (mapped ≡ ok tt) × (stack_added ≡ true) × (heap_added ≡ true) × (after ≡ with_heap)
  unfolding image_mapped
  image_mapped-ok (err e) s h a = cc (ap (λ r. r.1) a)
  image_mapped-ok (ok _) false h a = cc (ap (λ r. r.1) a)
  image_mapped-ok (ok _) true false a = cc (ap (λ r. r.1) a)
  image_mapped-ok (ok _) true true a = (refl, refl, refl, sym (ap (λ r. r.0) a))

map_image-regions :
    (ss : List Segment) (after : VirtualMemory)
    → map_image ss ≡ (after, ok tt)
    → after.regions ≡ regions_of ss ++ (stack_region ∷ heap_region ∷ [])
unfolding map_image
map_image-regions ss after h =
    let (mapped, stack_added, heap_added, same) =
      image_mapped-ok segments.0 stack.1 heap.1 after segments.1 stack.0 heap.0 h in
    ap (λ m. m.regions) same
    ∙ add_region-added stack.1 heap.1 "heap" heap_base heap_size _ []
        (ap (λ b. (b, heap.1)) heap_added)
    ∙ ap (λ rs. rs ++ (heap_region ∷ []))
        (add_region-added segments.0 stack.1 "stack" (stack_top_default - stack_size) stack_size _
            [] (ap (λ b. (b, stack.1)) stack_added)
          ∙ ap (λ rs. rs ++ (stack_region ∷ []))
              (map_segments-regions ss empty_memory segments.0 (ap (λ e. (segments.0, e)) mapped)))
    ∙ ++-assoc (regions_of ss) (stack_region ∷ []) (heap_region ∷ [])
  where
    segments : VirtualMemory × Expected LoadError (Unit {0})
    segments = map_segments empty_memory ss

    stack : Bool × VirtualMemory
    stack =
        add_region segments.0 "stack" (stack_top_default - stack_size) stack_size
          (bit_or permission_read permission_write) []

    heap : Bool × VirtualMemory
    heap =
        add_region stack.1 "heap" heap_base heap_size (bit_or permission_read permission_write) []

-- Regions of valid segments keep writing and executing apart.
regions_of-IsWriteXorExec :
    (ss : List Segment) → All IsValidSegment ss → All IsWriteXorExec (regions_of ss)
unfolding new_region
regions_of-IsWriteXorExec [] v = tt
regions_of-IsWriteXorExec (s ∷ rest) v = (
  λ x.
      (permissions_of-Allows s.flags).1
      ∙ v.0.write_xor_exec (sym (permissions_of-Allows s.flags).2 ∙ x),
  regions_of-IsWriteXorExec rest v.1,
)

-- The region of a segment: its name, place and size, the permissions that its flags allow, and its
-- bytes with zeros behind them.
pub record IsImageOf (s : Segment) (r : Region) : Type 0 where
  pub name : r.name ≡ s.name
  pub base : r.base ≡ s.virtual_address
  pub size : r.size ≡ s.virtual_size
  pub permissions : Allows s.flags r.permissions
  pub contents : r.contents ≡ s.contents ++ replicate (s.virtual_size - length s.contents) 0

region_of-IsImageOf : (s : Segment) → IsValidSegment s → IsImageOf s (region_of s)
region_of-IsImageOf s v =
    let plain =
      new_region-replicate s.name s.virtual_address s.virtual_size (permissions_of s.flags)
        s.contents v.enough in
    record {
      name = ap (λ r. r.name) plain;
      base = ap (λ r. r.base) plain;
      size = ap (λ r. r.size) plain;
      permissions =
          subst (Allows s.flags) (sym (ap (λ r. r.permissions) plain))
            (permissions_of-Allows s.flags);
      contents = ap (λ r. r.contents) plain;
    }

regions_of-IsImageOf :
    (ss : List Segment) → All IsValidSegment ss → Pointwise IsImageOf ss (regions_of ss)
regions_of-IsImageOf [] v = tt
regions_of-IsImageOf (s ∷ rest) v = (region_of-IsImageOf s v.0, regions_of-IsImageOf rest v.1)

-- Memory of zeros to read and to write.
abbrev pub zeroed : String → ℕ → ℕ → Region
zeroed name base size = record {
  name = name;
  base = base;
  size = size;
  permissions = 3;
  contents = replicate size 0;
}

new_region-zeroed :
    (name : String) (base size : ℕ)
    → new_region name base size (bit_or permission_read permission_write) [] ≡ zeroed name base size
new_region-zeroed name base size =
    new_region-replicate name base size (bit_or permission_read permission_write) [] (omega arith)
    ∙ ap
        (λ n. record {
          name = name;
          base = base;
          size = size;
          permissions = 3;
          contents = replicate n 0;
        })
        (omega arith)

behind-zeroed :
    stack_region ∷ heap_region ∷ []
    ≡ zeroed "stack" (stack_top_default - stack_size) stack_size
      ∷ zeroed "heap" heap_base heap_size
      ∷ []
behind-zeroed =
    ap (λ r. r ∷ heap_region ∷ [])
      (new_region-zeroed "stack" (stack_top_default - stack_size) stack_size)
    ∙ ap (λ r. zeroed "stack" (stack_top_default - stack_size) stack_size ∷ r ∷ [])
        (new_region-zeroed "heap" heap_base heap_size)

-- What a machine is after an image was loaded into it.
pub record Loaded {P : Type 0} (exe : Executable) (m : VirtualMachine P) : Type 0 where
  pub valid : IsValid exe
  pub mapped : List Region
  pub images : Pointwise IsImageOf exe.segments mapped
  pub regions :
      m.memory.regions
      ≡ mapped
        ++ (zeroed "stack" (stack_top_default - stack_size) stack_size
            ∷ zeroed "heap" heap_base heap_size
            ∷ [])
  pub cpu : m.cpu ≡ record initial_cpu { pc = exe.entry_point; sp = stack_top_default }
  pub ready : m.loaded ≡ true
  pub stack_bounds :
      (m.stack_top ≡ stack_top_default) × (m.stack_limit ≡ stack_top_default - stack_size)
  pub write_xor_exec : All IsWriteXorExec m.memory.regions

module _ {P : Type 0} (before after : VirtualMachine P) (exe : Executable) where
  load_mapped-Loaded :
      (image : VirtualMemory × Expected LoadError (Unit {0}))
      → IsValid exe
      → map_image exe.segments ≡ image
      → load_mapped before exe image ≡ (after, ok tt)
      → Loaded exe after
  unfolding load_mapped new_region
  load_mapped-Loaded (memory', err e) v at h = cc (ap (λ r. r.1) h)
  load_mapped-Loaded (memory', ok _) v at h = record {
    valid = v;
    mapped = regions_of exe.segments;
    images = regions_of-IsImageOf exe.segments v.segments;
    regions = regions ∙ ap (λ rs. regions_of exe.segments ++ rs) behind-zeroed;
    cpu = ap (λ m. m.cpu) same;
    ready = ap (λ m. m.loaded) same;
    stack_bounds = (ap (λ m. m.stack_top) same, ap (λ m. m.stack_limit) same);
    write_xor_exec = rw regions (
        All-append IsWriteXorExec (regions_of exe.segments) (stack_region ∷ heap_region ∷ [])
          (regions_of-IsWriteXorExec exe.segments v.segments) (λ x. cc x, (λ x. cc x, tt)));
  }
    where
      same : after ≡ loaded_machine before exe memory'
      same = sym (ap (λ r. r.0) h)

      regions : after.memory.regions ≡ regions_of exe.segments ++ (stack_region ∷ heap_region ∷ [])
      regions = ap (λ m. m.memory.regions) same ∙ map_image-regions exe.segments memory' at

  load_validated-Loaded :
      (verdict : Expected ValidationError (Unit {0}))
      → All (λ s. IsU64 s.virtual_size) exe.segments
      → validate exe ≡ verdict
      → load_validated before exe verdict ≡ (after, ok tt)
      → Loaded exe after
  unfolding load_validated
  load_validated-Loaded (err e) u accepted h = cc (ap (λ r. r.1) h)
  load_validated-Loaded (ok _) u accepted h =
      load_mapped-Loaded (map_image exe.segments) ((validate_iff exe u).0 accepted) refl h

  pub load_executable-Loaded :
      All (λ s. IsU64 s.virtual_size) exe.segments
      → load_executable before exe ≡ (after, ok tt)
      → Loaded exe after
  unfolding load_executable
  load_executable-Loaded u h = load_validated-Loaded (validate exe) u refl h
