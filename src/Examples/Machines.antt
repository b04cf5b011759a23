-- ===== src/Examples/Machines.antt =====
-- Memories, images and runs.
use mini_tool_chain.Base.{
  ℕ, ◌+◌, ◌-◌, ◌^◌, ◌%◌, ◌≤◌, ◌≡◌, ◌↔◌, refl, arith, ok, err, none, true, false, inr, List, [], ◌∷◌,
  All, length, replicate,
}
use mini_tool_chain.Word.{IsU64, add64}
use mini_tool_chain.ByteOrder.{store, load}
use mini_tool_chain.ByteOrder.Words.{All-IsBytes}
use mini_tool_chain.Executable.{Executable, Segment, text, validate, find_segment}
use mini_tool_chain.Executable.Valid.{IsValid, validate_iff}
use mini_tool_chain.Vm.Memory.{
  VirtualMemory, Region, check_access, region_at, check_region, read_u64, write_u64, read_byte,
  has_permission, fetch_instruction, allocate, add_region, rounded_up, permission_write,
}
use mini_tool_chain.Vm.Memory.Access.{
  IsSoundMemory, check_access_in_bounds, read_u64-write_u64, read_byte-write_u64,
}
use mini_tool_chain.Vm.Memory.Lookup.{Indexed}
use mini_tool_chain.Vm.Memory.Heap.{HeapAt, allocate-within, allocate-beyond}
use mini_tool_chain.Vm.Syscall.{DefaultSyscallProvider, invoke}
use mini_tool_chain.Vm.Syscall.Preserves.{ProviderLaws, invoke-ProviderLaws}
use mini_tool_chain.Vm.Cpu.{VirtualMachine, initial_cpu, no_error, illegal_instruction}
use mini_tool_chain.Isa.Opcode.{find_opcode, opcode_cast}
use mini_tool_chain.Isa.Encoding.{decode, decode_fields, fields_of}
use mini_tool_chain.Vm.Machine.{step, run, run_result}
use mini_tool_chain.Vm.Machine.Runs.{rest, more, run-halts, run-faults}
use mini_tool_chain.Vm.Machine.Continues.{Continues}
use mini_tool_chain.Vm.Machine.CodeIntegrity.{step-Continues}
use mini_tool_chain.Vm.Loader.{permissions_of, load_executable}
use mini_tool_chain.Vm.Integrity.{fetch_instruction-load-run}

-- A readable and writable region of twelve bytes.
abbrev small : Region
small = record {
  name = "small";
  base = 0x100;
  size = 12;
  permissions = 3;
  contents = replicate 12 7;
}

abbrev memory : VirtualMemory
memory = record { regions = small ∷ []; heap_next = 0 }

abbrev memory_written : VirtualMemory
memory_written = record {
  regions = (record small { contents = 7 ∷ 1 ∷ 2 ∷ 0 ∷ 0 ∷ 0 ∷ 0 ∷ 0 ∷ 0 ∷ 7 ∷ 7 ∷ 7 ∷ [] }) ∷ [];
  heap_next = 0;
}

memory-IsSoundMemory : IsSoundMemory memory
memory-IsSoundMemory =
    (record { sized = refl; bytes = All-IsBytes small.contents (ground arith) }, tt)

memory-written : write_u64 memory 0x101 0x201 ≡ ok memory_written
unfolding write_u64 check_access check_region region_at store
memory-written = refl

memory-readable : read_u64 memory 0x101 ≡ ok 0x707070707070707
unfolding read_u64 check_access check_region region_at load
memory-readable = refl

memory-granted : check_access memory 0x101 8 permission_write ≡ ok (0, small)
unfolding check_access check_region region_at
memory-granted = refl

read_u64-write_u64_example : read_u64 memory_written 0x101 ≡ ok (0x201 % 2 ^ 64)
read_u64-write_u64_example =
    read_u64-write_u64 memory 0x101 0x201 memory_written memory-IsSoundMemory memory-written
      0x707070707070707 memory-readable

read_byte-write_u64_example : read_byte memory_written 0x109 ≡ read_byte memory 0x109
read_byte-write_u64_example =
    read_byte-write_u64 memory 0x101 0x201 memory_written memory-IsSoundMemory memory-written 0x109
      (inr (omega arith))

check_access_in_bounds_example :
    Indexed memory.regions 0 small
    × (0x100 ≤ 0x101)
    × (0x101 - 0x100 + 8 ≤ length small.contents)
    × (has_permission 3 permission_write ≡ true)
check_access_in_bounds_example =
    check_access_in_bounds memory 0x101 8 permission_write 0 small memory-IsSoundMemory
      memory-granted (omega arith)

-- A heap of 64 bytes.
abbrev heap : Region
heap = record { name = "heap"; base = 0x1000; size = 64; permissions = 3; contents = [] }

abbrev heap_memory : VirtualMemory
heap_memory = record { regions = heap ∷ []; heap_next = 0x1008 }

heap-HeapAt : HeapAt heap_memory 0 heap
unfolding region_at
heap-HeapAt = record { found = refl; named = refl; below = omega arith }

heap-allocated : allocate heap_memory 13 ≡ ok (0x1008, record heap_memory { heap_next = 0x1018 })
unfolding allocate region_at
heap-allocated = refl

allocate-within_example :
    (◌≡◌ {A = ℕ} 0x1008 0x1008)
    × (13 ≤ rounded_up 13)
    × (0x1008 + rounded_up 13 ≤ 0x1000 + 64)
    × (◌≡◌ {A = ℕ} 0x1018 (0x1008 + rounded_up 13))
allocate-within_example =
    allocate-within heap_memory 0 heap heap-HeapAt 13 (omega arith) 0x1008
      (record heap_memory { heap_next = 0x1018 }) heap-allocated

-- A block of 8192 bytes out of the heap of 64.
allocate-beyond_example :
    allocate heap_memory 0x2000
    ≡ ok (0x1008, record heap_memory { heap_next = add64 0x1008 (rounded_up 0x2000) })
allocate-beyond_example =
    allocate-beyond heap_memory 0 heap heap-HeapAt 0x2000 (omega arith) (omega arith) (omega arith)

-- An image with a `HALT` at its entry point, and a machine before it is loaded.
abbrev code : Segment
code = record {
  kind = text;
  flags = 5;
  name = "code";
  virtual_address = 0x1000;
  virtual_size = 8;
  contents = 0 ∷ 0 ∷ 0 ∷ 0 ∷ 0 ∷ 0 ∷ 0 ∷ 1 ∷ [];
}

abbrev image : Executable
image = record {
  version = 1;
  entry_point = 0x1000;
  segments = code ∷ [];
  symbols = [];
  debug_info = [];
  source_files = [];
}

abbrev Host : Type 0
Host = DefaultSyscallProvider (Unit {0})

abbrev blank : VirtualMachine Host
blank = record {
  cpu = initial_cpu;
  memory = record { regions = []; heap_next = 0 };
  syscalls = record { capture = true; output = []; error_output = []; input = []; host = tt };
  trace = none;
  loaded = false;
  stack_top = 0x7fff0000;
  stack_limit = 0x7fff0000 - 2 ^ 20;
}

-- Streams that take everything and give nothing.
abbrev fwrite : Unit {0} → ℕ → List ℕ → Unit {0}
fwrite host fd bytes = host

abbrev fread : Unit {0} → ℕ → List ℕ × Unit {0}
fread host count = ([], host)

abbrev loaded : VirtualMachine Host
loaded = (load_executable blank image).0

image-loaded : load_executable blank image ≡ (loaded, ok tt)
unfolding load_executable validate add_region find_segment
image-loaded = refl

image-IsU64 : All (λ (s : Segment). IsU64 s.virtual_size) image.segments
image-IsU64 = (omega arith, tt)

validate_iff_example : (validate image ≡ ok tt) ↔ IsValid image
validate_iff_example = validate_iff image image-IsU64

fetch_instruction-load-run_example :
    fetch_instruction (run (invoke fwrite fread) loaded 100).0.memory 0x1000
    ≡ fetch_instruction loaded.memory 0x1000
fetch_instruction-load-run_example =
    fetch_instruction-load-run fwrite fread blank loaded image 100 0x1000 image-IsU64 image-loaded

invoke-ProviderLaws_example : ProviderLaws (invoke fwrite fread)
invoke-ProviderLaws_example = invoke-ProviderLaws fwrite fread

step-Continues_example : Continues loaded (step (invoke fwrite fread) loaded).0
step-Continues_example =
    step-Continues (invoke fwrite fread) (invoke-ProviderLaws fwrite fread) loaded

-- The machine behind its only instruction.
abbrev stopped : VirtualMachine Host
stopped = record loaded {
  cpu = record loaded.cpu { pc = 0x1008; halted = true; instruction_count = 1 };
}

loaded-steps : step (invoke fwrite fread) loaded ≡ (stopped, ok tt)
unfolding step fetch_instruction check_access check_region region_at load decode load_executable
    validate add_region find_segment permissions_of find_opcode opcode_cast decode_fields fields_of
loaded-steps = refl

loaded-ready : loaded.loaded ≡ true
unfolding load_executable validate add_region find_segment
loaded-ready = refl

loaded-going : loaded.cpu.halted ≡ false
unfolding load_executable validate add_region find_segment
loaded-going = refl

run-halts_example :
    run (invoke fwrite fread) loaded 100
    ≡ (stopped, run_result stopped no_error stopped.cpu.exit_code stopped.cpu.pc)
run-halts_example =
    run-halts (invoke fwrite fread) 1 100 loaded stopped loaded-ready
      (more loaded-going loaded-steps rest) refl (omega arith)

-- Without steps: the fault of an unaligned program counter.
abbrev astray : VirtualMachine Host
astray = record blank { loaded = true; cpu = record initial_cpu { pc = 3 } }

astray-faults :
    step (invoke fwrite fread) astray
    ≡ (astray, err (record { error = illegal_instruction; pc = 3 }))
unfolding step
astray-faults = refl

run-faults_example :
    run (invoke fwrite fread) astray 5 ≡ (astray, run_result astray illegal_instruction 0 3)
run-faults_example =
    run-faults (invoke fwrite fread) 0 5 astray astray refl rest astray
      (record { error = illegal_instruction; pc = 3 }) refl astray-faults (omega arith)
