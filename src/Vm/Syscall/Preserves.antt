-- ===== src/Vm/Syscall/Preserves.antt =====
-- What the machine relies on in a provider of system calls, and that the default provider gives it,
-- whatever the host's streams do.
use mini_tool_chain.Base.{
  ℕ, ◌≡◌, refl, Bool, true, false, List, ok, err, ◌==◌, inl, inr, if◌then◌else◌, not, ◌&&◌, ltb,
  ◌^◌, Expected-cases, length, length-set,
}
use mini_tool_chain.Vm.Memory.{MemoryResult, allocate, write_bytes}
use mini_tool_chain.Vm.Memory.Evolution.{
  Evolves, Evolves-refl, write_bytes-Evolves, allocate-regions,
}
use mini_tool_chain.Vm.Syscall.{
  SyscallContext, Outcome, DefaultSyscallProvider, invoke, write_result, do_write, take_input,
  read_result, do_read, allocate_result, do_allocate, argument,
}

-- A call keeps the regions in their places, with the bytes of those that are not writable, and the
-- number of registers.
pub record Preserves {P : Type 0} (context : SyscallContext) (outcome : Outcome P) : Type 0 where
  pub regions : Evolves context.memory.regions outcome.1.memory.regions
  pub registers : length outcome.1.registers ≡ length context.registers

pub record ProviderLaws {P : Type 0} (call : P → ℕ → SyscallContext → Outcome P) : Type 0 where
  pub preserves :
      (provider : P) (number : ℕ) (context : SyscallContext)
      → Preserves context (call provider number context)

module _ {H : Type 0} (fwrite : H → ℕ → List ℕ → H) (fread : H → ℕ → List ℕ × H) where
  unchanged :
      (provider : DefaultSyscallProvider H) (context : SyscallContext) (result : _)
      → Preserves context (provider, context, result)
  unchanged provider context result = record {
    regions = Evolves-refl context.memory.regions;
    registers = refl;
  }

  write_result-Preserves :
      (provider : DefaultSyscallProvider H) (context : SyscallContext) (fd count : ℕ)
      (bytes : MemoryResult (List ℕ))
      → Preserves context (write_result fwrite fread provider context fd count bytes)
  unfolding write_result
  write_result-Preserves provider context fd count (err f) = unchanged provider context _
  write_result-Preserves provider context fd count (ok bytes) = record {
    regions = Evolves-refl context.memory.regions;
    registers = length-set context.registers 14 count;
  }

  read_result-Preserves :
      (context : SyscallContext) (taken : List ℕ × DefaultSyscallProvider H) (address : ℕ)
      → Preserves context
          (read_result fwrite fread context taken (write_bytes context.memory address taken.0))
  unfolding read_result
  read_result-Preserves context (bytes, provider) address =
      elim (Expected-cases (write_bytes context.memory address bytes)) [
        | inl (memory', written) ↦ rw written (record {
          regions = write_bytes-Evolves context.memory address memory' bytes written;
          registers = length-set context.registers 14 (length bytes);
        })
        | inr (f, failed) ↦ rw failed (unchanged provider context _)
      ]

  allocate_result-Preserves :
      (provider : DefaultSyscallProvider H) (context : SyscallContext) (size : ℕ)
      → Preserves context
          (allocate_result fwrite fread provider context (allocate context.memory size))
  unfolding allocate_result
  allocate_result-Preserves provider context size =
      elim (Expected-cases (allocate context.memory size)) [
        | inl ((block, memory'), given) ↦ rw given (record {
          regions =
              rw (allocate-regions context.memory size block memory' given)
                (Evolves-refl context.memory.regions);
          registers = length-set context.registers 14 block;
        })
        | inr (f, failed) ↦ rw failed (record {
          regions = Evolves-refl context.memory.regions;
          registers = length-set context.registers 14 0;
        })
      ]

  if-Preserves :
      (context : SyscallContext) (b : Bool) (x y : Outcome (DefaultSyscallProvider H))
      → Preserves context x
      → Preserves context y
      → Preserves context (if b then x else y)
  if-Preserves context true x y f g = f
  if-Preserves context false x y f g = g

  do_write-Preserves :
      (provider : DefaultSyscallProvider H) (context : SyscallContext)
      → Preserves context (do_write fwrite fread provider context)
  unfolding do_write
  do_write-Preserves provider context =
      if-Preserves context (not (fd == 1) && not (fd == 2)) _ _ (unchanged provider context _) (
        if-Preserves context (ltb (2 ^ 20) count) _ _ (unchanged provider context _)
          (write_result-Preserves provider context fd count _))
    where
      fd : ℕ
      fd = argument context 1

      count : ℕ
      count = argument context 3

  do_read-Preserves :
      (provider : DefaultSyscallProvider H) (context : SyscallContext)
      → Preserves context (do_read fwrite fread provider context)
  unfolding do_read
  do_read-Preserves provider context =
      if-Preserves context (not (argument context 1 == 0)) _ _ (unchanged provider context _) (
        if-Preserves context (ltb (2 ^ 20) count) _ _ (unchanged provider context _) (
          read_result-Preserves context (take_input fwrite fread provider count)
            (argument context 2)))
    where
      count : ℕ
      count = argument context 3

  do_allocate-Preserves :
      (provider : DefaultSyscallProvider H) (context : SyscallContext)
      → Preserves context (do_allocate fwrite fread provider context)
  unfolding do_allocate
  do_allocate-Preserves provider context =
      allocate_result-Preserves provider context (argument context 1)

  -- The default provider keeps the laws, whatever the streams of the host do: every call, also one
  -- that fails, keeps the regions in their places with the bytes of those that are not writable,
  -- and the number of registers.
  pub invoke-ProviderLaws : ProviderLaws (invoke fwrite fread)
  unfolding invoke
  invoke-ProviderLaws = record {
    preserves = λ provider number context.
        if-Preserves context (number == 0) _ _
          (record { regions = Evolves-refl context.memory.regions; registers = refl })
          (if-Preserves context (number == 1) _ _ (do_write-Preserves provider context) (
            if-Preserves context (number == 2) _ _ (do_read-Preserves provider context) (
              if-Preserves context (number == 3) _ _ (do_allocate-Preserves provider context)
                (unchanged provider context _))));
  }
