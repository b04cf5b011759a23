-- ===== src/Vm/Integrity.antt =====
-- A loaded program cannot change its code: the loader, the run loop and the default provider of
-- system calls together.
use mini_tool_chain.Base.{ℕ, ◌≡◌, List, ok, All}
use mini_tool_chain.Word.{IsU64}
use mini_tool_chain.Executable.{Executable}
use mini_tool_chain.Vm.Memory.{fetch_instruction}
use mini_tool_chain.Vm.Syscall.{DefaultSyscallProvider, invoke}
use mini_tool_chain.Vm.Syscall.Preserves.{invoke-ProviderLaws}
use mini_tool_chain.Vm.Cpu.{VirtualMachine}
use mini_tool_chain.Vm.Machine.{run}
use mini_tool_chain.Vm.Machine.CodeIntegrity.{fetch_instruction-run}
use mini_tool_chain.Vm.Loader.{load_executable}
use mini_tool_chain.Vm.Loader.Image.{Loaded, load_executable-Loaded}

-- After a successful load of an image whose segment sizes are 64-bit numbers, an instruction fetch
-- answers at every address the same before and after a run under any budget, whatever the program
-- does and the streams of the host bring.
pub fetch_instruction-load-run :
    {H : Type 0} (fwrite : H → ℕ → List ℕ → H) (fread : H → ℕ → List ℕ × H)
    (before after : VirtualMachine (DefaultSyscallProvider H)) (exe : Executable)
    (budget address : ℕ)
    → All (λ s. IsU64 s.virtual_size) exe.segments
    → load_executable before exe ≡ (after, ok tt)
    → fetch_instruction (run (invoke fwrite fread) after budget).0.memory address
      ≡ fetch_instruction after.memory address
fetch_instruction-load-run fwrite fread before after exe budget address u h =
    let loaded : Loaded exe after = load_executable-Loaded before after exe u h in
    fetch_instruction-run (invoke fwrite fread) (invoke-ProviderLaws fwrite fread) after budget
      address loaded.write_xor_exec
