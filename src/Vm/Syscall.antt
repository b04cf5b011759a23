-- ===== src/Vm/Syscall.antt =====
-- include/minitool/vm/syscall.hpp and src/vm/syscall.cpp: the system calls. What a call changed
-- before it failed stays changed, so the provider and the context come back beside an error too.
pub mod Preserves
use mini_tool_chain.Base.{
  ℕ, ◌+◌, ◌^◌, Bool, true, false, not, ◌&&◌, ◌||◌, List, [], ◌∷◌, ◌++◌, min, ltb, ◌==◌,
  if◌then◌else◌, Expected, ok, err, length, get_or, set, take, drop,
}
use mini_tool_chain.Vm.Memory.{
  VirtualMemory, MemoryFault, MemoryResult, read_bytes, write_bytes, allocate,
}

-- The error messages of the calls.
pub data SyscallError : Type 0 where
  unknown_syscall unsupported_descriptor length_exceeds_limit : ℕ → SyscallError
  memory_fault : MemoryFault → SyscallError

pub record SyscallContext : Type 0 where
  pub registers : List ℕ
  pub memory : VirtualMemory
  pub halt : Bool
  pub exit_code : ℕ

-- What `invoke` of a provider with state `P` leaves.
abbrev pub Outcome : Type 0 → Type 0
Outcome P = P × SyscallContext × Expected SyscallError (Unit {0})

abbrev return_register : ℕ
return_register = 14

abbrev max_transfer : ℕ
max_transfer = 2 ^ 20

abbrev argument : SyscallContext → ℕ → ℕ
argument context i = get_or context.registers i 0

abbrev return_in_register : SyscallContext → ℕ → SyscallContext
return_in_register context value = record context {
  registers = set context.registers return_register value;
}

-- The default provider; the streams of the host are `host`.
pub record DefaultSyscallProvider (H : Type 0) : Type 0 where
  pub capture : Bool
  pub output : List ℕ
  pub error_output : List ℕ
  pub input : List ℕ
  pub host : H

-- `fwrite` with `fflush` to stream 1 or 2, and `fread` of at most so many bytes from standard
-- input, belong to the host.
module _ {H : Type 0} (fwrite : H → ℕ → List ℕ → H) (fread : H → ℕ → List ℕ × H) where
  emit : DefaultSyscallProvider H → ℕ → List ℕ → DefaultSyscallProvider H
  emit provider fd bytes =
      if provider.capture
      then (if fd == 1
          then record provider { output = provider.output ++ bytes }
          else record provider { error_output = provider.error_output ++ bytes })
      else record provider { host = fwrite provider.host fd bytes }

  write_result :
      DefaultSyscallProvider H
      → SyscallContext
      → ℕ
      → ℕ
      → MemoryResult (List ℕ)
      → Outcome (DefaultSyscallProvider H)
  unfolding emit
  write_result provider context fd count (err f) = (provider, context, err (memory_fault f))
  write_result provider context fd count (ok bytes) =
      (emit provider fd bytes, return_in_register context count, ok tt)

  do_write : DefaultSyscallProvider H → SyscallContext → Outcome (DefaultSyscallProvider H)
  unfolding write_result
  do_write provider context =
      let fd = argument context 1 in
      let count = argument context 3 in
      if not (fd == 1) && not (fd == 2)
      then (provider, context, err (unsupported_descriptor fd))
      else if ltb max_transfer count
      then (provider, context, err (length_exceeds_limit count))
      else write_result provider context fd count
          (read_bytes context.memory (argument context 2) count)

  -- The bytes that a read of `count` takes, and the provider without them.
  take_input : DefaultSyscallProvider H → ℕ → List ℕ × DefaultSyscallProvider H
  take_input provider count =
      let taken = min count (length provider.input) in
      let (bytes, host') = fread provider.host count in
      if provider.capture
      then (take taken provider.input, record provider { input = drop taken provider.input })
      else (bytes, record provider { host = host' })

  read_result :
      SyscallContext
      → List ℕ × DefaultSyscallProvider H
      → MemoryResult VirtualMemory
      → Outcome (DefaultSyscallProvider H)
  read_result context (bytes, provider) (err f) = (provider, context, err (memory_fault f))
  read_result context (bytes, provider) (ok memory') =
      (provider, return_in_register (record context { memory = memory' }) (length bytes), ok tt)

  do_read : DefaultSyscallProvider H → SyscallContext → Outcome (DefaultSyscallProvider H)
  unfolding take_input read_result
  do_read provider context =
      let fd = argument context 1 in
      let count = argument context 3 in
      let taken = take_input provider count in
      if not (fd == 0)
      then (provider, context, err (unsupported_descriptor fd))
      else if ltb max_transfer count
      then (provider, context, err (length_exceeds_limit count))
      else read_result context taken (write_bytes context.memory (argument context 2) taken.0)

  -- A failed allocation returns the null pointer to the program.
  allocate_result :
      DefaultSyscallProvider H
      → SyscallContext
      → MemoryResult (ℕ × VirtualMemory)
      → Outcome (DefaultSyscallProvider H)
  allocate_result provider context (err f) = (provider, return_in_register context 0, ok tt)
  allocate_result provider context (ok (block, memory')) =
      (provider, return_in_register (record context { memory = memory' }) block, ok tt)

  do_allocate : DefaultSyscallProvider H → SyscallContext → Outcome (DefaultSyscallProvider H)
  unfolding allocate_result
  do_allocate provider context =
      allocate_result provider context (allocate context.memory (argument context 1))

  pub invoke : DefaultSyscallProvider H → ℕ → SyscallContext → Outcome (DefaultSyscallProvider H)
  unfolding do_write do_read do_allocate
  invoke provider number context =
      if number == 0
      then (provider, record context { halt = true; exit_code = argument context 1 }, ok tt)
      else if number == 1
      then do_write provider context
      else if number == 2
      then do_read provider context
      else if number == 3
      then do_allocate provider context
      else (provider, context, err (unknown_syscall number))
